-- ===== src/Handler/Webhook/Authentic.antt =====
-- upload.go: `paymentConfirm`, what one notice does.
use ol1n_super_app.Base.{
  ◌≡◌, ◌≢◌, refl, ap, inl, inr, Bool, true, false, Option, none, some, [], Bytes, Bool-cases,
}
use ol1n_super_app.Db.Tables.{Db, Result, ok, err, Ctx}
use ol1n_super_app.Db.Artifacts.{any_artifact, awaits_payment, mark_payment_confirmed}
use ol1n_super_app.Db.Artifacts.Payment.{confirmed}
use ol1n_super_app.Payment.Verify.{
  IpnPayload, Platform, is_terminal_confirmed, verify_iff, VerifyError, IsSigned,
}
use ol1n_super_app.Handler.Webhook.{
  Request, advance, confirm_payload, verified, confirm_body, payment_confirm,
}

-- The payload says that the payment is confirmed, and an artifact waits for it.
abbrev pub Confirms : IpnPayload → Bytes → Db → Type 0
Confirms p payment_id db =
    (p.payment_id ≡ payment_id)
    × (is_terminal_confirmed p.payment_status ≡ true)
    × (any_artifact (awaits_payment payment_id) db.artifacts ≡ true)

advanced :
    (c : Ctx) (other status payment_id : Bytes) (db : Db) (r : Result (Db × Bool))
    → mark_payment_confirmed c other status db ≡ r
    → (advance other db r).starts ≡ some payment_id
    → (other ≡ payment_id) × (any_artifact (awaits_payment payment_id) db.artifacts ≡ true)
unfolding advance
advanced c other status payment_id db (err e) h s = cc
advanced c other status payment_id db (ok (db', false)) h s = cc
advanced c other status payment_id db (ok (db', true)) h s =
    let own : other ≡ payment_id = cc in
    (own, rw (← own) (ap (λ r. r.1) (confirmed c other status db h)))

confirms :
    (c : Ctx) (payment_id : Bytes) (db : Db) (p : IpnPayload)
    → (confirm_payload c db (some p)).starts ≡ some payment_id
    → Confirms p payment_id db
unfolding confirm_payload
confirms c payment_id db p s = elim (Bool-cases (is_terminal_confirmed p.payment_status)) [
  | inl e ↦
      let (own, waits) =
        advanced c p.payment_id p.payment_status payment_id db _ refl (rw e at s) in
      (own, e, waits)
  | inr e ↦ let s' = rw e at s in cc
]

verified-Confirms :
    (c : Ctx) (payment_id : Bytes) (db : Db) (e : Option VerifyError) (p : Option IpnPayload)
    → (verified c db e p).starts ≡ some payment_id
    → (e ≡ none) × ((p' : IpnPayload) × (p ≡ some p') × Confirms p' payment_id db)
unfolding verified confirm_payload
verified-Confirms c payment_id db none none s = cc
verified-Confirms c payment_id db none (some p) s = (refl, (p, refl, confirms c payment_id db p s))
verified-Confirms c payment_id db (some e) p s = cc

module _ (platform : Platform) (ipn_secret : Bytes) where
  -- The body is signed with the secret and names the payment, which is confirmed and awaited.
  abbrev pub Authentic : Request → Db → Bytes → Type 0
  Authentic r db payment_id =
      (raw : Bytes) × (p : IpnPayload) × (r.body ≡ some raw)
      × (r.signature ≢ [])
      × IsSigned platform ipn_secret r.signature raw
      × (platform.unmarshal_payload raw ≡ some p)
      × Confirms p payment_id db

  body-Authentic :
      (r : Request) (db : Db) (payment_id : Bytes) (body : Option Bytes)
      → r.body ≡ body
      → (confirm_body platform ipn_secret r.ctx r.signature db body).starts ≡ some payment_id
      → Authentic r db payment_id
  unfolding confirm_body
  body-Authentic r db payment_id none at s = cc
  body-Authentic r db payment_id (some raw) at s =
      let (accepts, (p, parsed, says)) = verified-Confirms r.ctx payment_id db _ _ s in
      let (signature, signed) = (verify_iff platform ipn_secret r.signature raw).0 accepts in
      (raw, p, at, signature, signed, parsed, says)

  -- A notice starts the upload of a payment only if it came with a body that was signed with the
  -- secret, the body names that payment with a status that is final, and an artifact was waiting
  -- for the payment.
  pub payment_confirm-Authentic :
      (r : Request) (db : Db) (payment_id : Bytes)
      → (payment_confirm platform ipn_secret r db).starts ≡ some payment_id
      → Authentic r db payment_id
  unfolding payment_confirm
  payment_confirm-Authentic r db payment_id s = body-Authentic r db payment_id r.body refl s
