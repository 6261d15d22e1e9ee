-- ===== src/Go/Hex.antt =====
-- Package encoding/hex: `EncodeToString` and `DecodeString`.
use ol1n_super_app.Base.{
  ap, ℕ, ◌+◌, ◌*◌, ◌/◌, ◌%◌, ◌<◌, ◌≡◌, refl, Option, none, some, [], ◌∷◌, arith, leb, if◌then◌else◌,
  Bytes, All, ltb, ◌&&◌, ◌-◌,
}

abbrev pub hex_char : ℕ → ℕ
hex_char d = if ltb d 10 then b'0' + d else b'a' + (d - 10)

unfoldable pub hex_encode : Bytes → Bytes
hex_encode [] = []
hex_encode (b ∷ bs) = hex_char (b / 16) ∷ hex_char (b % 16) ∷ hex_encode bs

unfoldable pub hex_value : ℕ → Option ℕ
hex_value c =
    if leb b'0' c && leb c b'9'
    then some (c - b'0')
    else if leb b'a' c && leb c b'f'
    then some (c - b'a' + 10)
    else if leb b'A' c && leb c b'F'
    then some (c - b'A' + 10)
    else none

join_byte : Option ℕ → Option ℕ → Option Bytes → Option Bytes
join_byte (some h) (some l) (some bs) = some ((h * 16 + l) ∷ bs)
join_byte _ _ _ = none

-- `none` at a byte that is no digit and at an odd length.
unfoldable pub hex_decode : Bytes → Option Bytes
unfolding join_byte
hex_decode [] = some []
hex_decode (c ∷ []) = none
hex_decode (c ∷ d ∷ s) = join_byte (hex_value c) (hex_value d) (hex_decode s)

hex_value-hex_char : (d : ℕ) → d < 16 → hex_value (hex_char d) ≡ some d
unfolding hex_value
hex_value-hex_char d h = ground arith

pub hex_decode-hex_encode :
    (bs : Bytes) → All (λ b. b < 256) bs → hex_decode (hex_encode bs) ≡ some bs
unfolding hex_encode hex_decode
hex_decode-hex_encode [] h = refl
hex_decode-hex_encode (b ∷ bs) (hb, h) =
    rw
      (
        hex_value-hex_char (b / 16) (omega arith),
        hex_value-hex_char (b % 16) (omega arith),
        hex_decode-hex_encode bs h,
      )
      (ap (λ x. some (x ∷ bs)) (omega arith))
