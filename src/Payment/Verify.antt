-- ===== src/Payment/Verify.antt =====
-- webhook.go: `Verify`, `ParsePayload` as the handler decodes it, and `IsTerminalConfirmed`.
use mathlib.Core.List.{cons-ne-nil}
use ol1n_super_app.Base.{
  ◌<◌, ◌≡◌, ◌≢◌, refl, ◌↔◌, Bool, ◌||◌, Option, none, some, [], ◌∷◌, arith, Bytes, codes, same,
  same_iff, All, if◌then◌else◌,
}
use ol1n_super_app.Go.Strings.{is_nil}
use ol1n_super_app.Go.Hex.{hex_encode, hex_decode, hex_decode-hex_encode}
use ol1n_super_app.Payment.Json.{Value, write_sorted}

-- The fields of `IPNPayload` that the handler reads.
pub record IpnPayload : Type 0 where
  pub payment_id : Bytes
  pub payment_status : Bytes
  pub order_id : Bytes

-- What the package takes from elsewhere: the JSON texts, and the keyed hash, whose result is bytes.
pub record Platform : Type 1 where
  pub Number : Type 0
  pub unmarshal : Bytes → Option (Value Number)
  pub unmarshal_payload : Bytes → Option IpnPayload
  pub marshal_string : Bytes → Bytes
  pub format_float : Number → Bytes
  pub hmac_sha512 : Bytes → Bytes → Bytes
  pub hmac_sha512_bytes : (key text : Bytes) → All (λ b. b < 256) (hmac_sha512 key text)

pub data VerifyError : Type 0 where
  missing_signature decode_body decode_signature invalid_signature : VerifyError

unfoldable pub is_terminal_confirmed : Bytes → Bool
is_terminal_confirmed status =
    same status (codes "confirmed")
    || same status (codes "finished")
    || same status (codes "sending")

module _ (platform : Platform) where
  open platform use {
    Number, unmarshal, marshal_string, format_float, hmac_sha512, hmac_sha512_bytes,
  }

  -- `hmac.Equal` compares as `==` does, in constant time.
  compare_signature : Option Bytes → Option Bytes → Option VerifyError
  compare_signature none want = some decode_signature
  compare_signature (some got) none = if is_nil got then none else some invalid_signature
  compare_signature (some got) (some want) = if same got want then none else some invalid_signature

  check_body : Bytes → Bytes → Option (Value Number) → Option VerifyError
  unfolding compare_signature
  check_body secret signature none = some decode_body
  check_body secret signature (some generic) = compare_signature (hex_decode signature) (
      hex_decode
        (hex_encode (hmac_sha512 secret (write_sorted format_float marshal_string generic))))

  -- The error that `Verify` returns, if any.
  unfoldable pub verify : Bytes → Bytes → Bytes → Option VerifyError
  unfolding check_body
  verify secret signature raw_body =
      if is_nil signature
      then some missing_signature
      else check_body secret signature (unmarshal raw_body)

  -- The signature is the hex text of the keyed hash of the canonical form of the body.
  abbrev pub IsSigned : Bytes → Bytes → Bytes → Type 0
  IsSigned secret signature raw_body =
      (generic : Value Number) × (unmarshal raw_body ≡ some generic)
      × (hex_decode signature
          ≡ some (hmac_sha512 secret (write_sorted format_float marshal_string generic)))

  verify_sound :
      (secret signature raw_body : Bytes) (body : Option (Value Number))
      → unmarshal raw_body ≡ body
      → check_body secret signature body ≡ none
      → IsSigned secret signature raw_body
  unfolding check_body
  verify_sound secret signature raw_body none e h = cc
  verify_sound secret signature raw_body (some generic) e h =
      let mac = hmac_sha512 secret (write_sorted format_float marshal_string generic) in
      let back = hex_decode-hex_encode mac (hmac_sha512_bytes secret _) in
      (generic, e, accepted (hex_decode signature) mac (rw back at h))
    where
      accepted :
          (got : Option Bytes) (mac : Bytes)
          → compare_signature got (some mac) ≡ none
          → got ≡ some mac
      accepted none mac h' = cc
      accepted (some got) mac h' = ground (arith, same_iff got mac)

  -- `Verify` accepts exactly the notices with a signature header whose signature is the hex text,
  -- in either case of letters, of the keyed hash of the body in its canonical form.
  pub verify_iff :
      (secret signature raw_body : Bytes)
      → (verify secret signature raw_body ≡ none)
        ↔ ((signature ≢ []) × IsSigned secret signature raw_body)
  unfolding verify
  verify_iff secret [] raw_body = (λ h. cc, λ (ne, _). absurd (ne refl))
  verify_iff secret (c ∷ s) raw_body = (
    λ h. (cons-ne-nil c s, verify_sound secret (c ∷ s) raw_body (unmarshal raw_body) refl h),
    λ p. accepts p,
  )
    where
      accepts :
          (((c ∷ s) ≢ []) × IsSigned secret (c ∷ s) raw_body)
          → check_body secret (c ∷ s) (unmarshal raw_body) ≡ none
      accepts (ne, (generic, decoded, signed)) =
          let mac = hmac_sha512 secret (write_sorted format_float marshal_string generic) in
          rw decoded (
            rw (signed, hex_decode-hex_encode mac (hmac_sha512_bytes secret _))
              (rw ((same_iff mac mac).1 refl)))
