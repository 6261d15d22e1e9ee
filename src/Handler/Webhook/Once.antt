-- ===== src/Handler/Webhook/Once.antt =====
-- upload.go: `paymentConfirm`, one notice after the other.
use ol1n_super_app.Base.{
  ◌≤◌, ◌≡◌, refl, inl, inr, Bool, true, false, Option, none, some, List, [], ◌∷◌, arith, Bytes,
  same, same_iff, Bool-cases,
}
use ol1n_super_app.Db.Tables.{Db, Result, ok, err, Ctx}
use ol1n_super_app.Db.Artifacts.{mark_payment_confirmed}
use ol1n_super_app.Db.Artifacts.Payment.{
  IsSettled, confirm-IsSettled, IsSettled-refuses, IsSettled-confirm, IsSettled-update,
}
use ol1n_super_app.Payment.Verify.{IpnPayload, Platform, is_terminal_confirmed, VerifyError}
use ol1n_super_app.Handler.Webhook.{
  Request, Answer, advance, confirm_payload, verified, confirm_body, payment_confirm, counts,
  starts_in,
}

-- What an answer means for a payment: either it starts nothing and a settled payment stays settled,
-- or it starts that payment, which was not settled, and settles it.
data Outcome (payment_id : Bytes) (db : Db) (a : Answer) : Type 0 where
  quiet :
      counts payment_id a.starts ≡ 0
      → (IsSettled payment_id db → IsSettled payment_id a.db)
      → Outcome payment_id db a
  start :
      counts payment_id a.starts ≡ 1
      → (IsSettled payment_id db → ⊥)
      → IsSettled payment_id a.db
      → Outcome payment_id db a

advance-Outcome :
    (c : Ctx) (payment_id other status : Bytes) (db : Db) (r : Result (Db × Bool))
    → mark_payment_confirmed c other status db ≡ r
    → Outcome payment_id db (advance other db r)
unfolding advance
advance-Outcome c payment_id other status db (err e) h = quiet refl (λ s. s)
advance-Outcome c payment_id other status db (ok (db', false)) h =
    quiet refl (λ s. IsSettled-confirm c payment_id other status db s h)
advance-Outcome c payment_id other status db (ok (db', true)) h =
    elim (Bool-cases (same other payment_id)) [
      | inl e ↦
          let own = (same_iff other payment_id).0 e in
          start (rw e) (λ s. let f = IsSettled-refuses c other status db (rw own s) h in cc)
            (rw (← own) (confirm-IsSettled c other status db h))
      | inr e ↦ quiet (rw e) (λ s. IsSettled-confirm c payment_id other status db s h)
    ]

payload-Outcome :
    (c : Ctx) (payment_id : Bytes) (db : Db) (p : Option IpnPayload)
    → Outcome payment_id db (confirm_payload c db p)
unfolding confirm_payload
payload-Outcome c payment_id db none = quiet refl (λ s. s)
payload-Outcome c payment_id db (some p) =
    elim (Bool-cases (is_terminal_confirmed p.payment_status)) [
      | inl e ↦ rw e (advance-Outcome c payment_id p.payment_id p.payment_status db _ refl)
      | inr e ↦
          rw e (quiet refl (λ s. IsSettled-update c payment_id p.payment_id p.payment_status db s))
    ]

verified-Outcome :
    (c : Ctx) (payment_id : Bytes) (db : Db) (e : Option VerifyError) (p : Option IpnPayload)
    → Outcome payment_id db (verified c db e p)
unfolding verified
verified-Outcome c payment_id db none p = payload-Outcome c payment_id db p
verified-Outcome c payment_id db (some e) p = quiet refl (λ s. s)

module _ (platform : Platform) (ipn_secret : Bytes) where
  body-Outcome :
      (c : Ctx) (payment_id signature : Bytes) (db : Db) (body : Option Bytes)
      → Outcome payment_id db (confirm_body platform ipn_secret c signature db body)
  unfolding confirm_body
  body-Outcome c payment_id signature db none = quiet refl (λ s. s)
  body-Outcome c payment_id signature db (some raw) = verified-Outcome c payment_id db _ _

  confirm-Outcome :
      (payment_id : Bytes) (r : Request) (db : Db)
      → Outcome payment_id db (payment_confirm platform ipn_secret r db)
  unfolding payment_confirm
  confirm-Outcome payment_id r db = body-Outcome r.ctx payment_id r.signature db r.body

  none_starts :
      (payment_id : Bytes) (rs : List Request) (db : Db)
      → IsSettled payment_id db
      → starts_in platform ipn_secret payment_id rs db ≡ 0
  unfolding starts_in
  none_starts payment_id [] db s = refl
  none_starts payment_id (r ∷ rs) db s = elim (confirm-Outcome payment_id r db) [
    | quiet n k ↦
        let db' : Db = (payment_confirm platform ipn_secret r db).db in
        let rest : starts_in platform ipn_secret payment_id rs db' ≡ 0 =
          none_starts payment_id rs db' (k s) in
        omega (arith, n, rest)
    | start n k s' ↦ absurd (k s)
  ]

  -- However many notices arrive, in whatever order, valid or not, with whatever failures of the
  -- database, at most one of them starts the upload of a given payment; none does if no artifact
  -- was waiting for that payment.
  pub payment_confirm-starts_once :
      (payment_id : Bytes) (rs : List Request) (db : Db)
      → (starts_in platform ipn_secret payment_id rs db ≤ 1)
        × (IsSettled payment_id db → starts_in platform ipn_secret payment_id rs db ≡ 0)
  unfolding starts_in
  payment_confirm-starts_once payment_id [] db = (omega arith, λ _. refl)
  payment_confirm-starts_once payment_id (r ∷ rs) db = (
    elim (confirm-Outcome payment_id r db) [
      | quiet n k ↦
          let db' : Db = (payment_confirm platform ipn_secret r db).db in
          let rest : starts_in platform ipn_secret payment_id rs db' ≤ 1 =
            (payment_confirm-starts_once payment_id rs db').0 in
          omega (arith, n, rest)
      | start n k s' ↦
          let db' : Db = (payment_confirm platform ipn_secret r db).db in
          let rest : starts_in platform ipn_secret payment_id rs db' ≡ 0 =
            none_starts payment_id rs db' s' in
          omega (arith, n, rest)
    ],
    none_starts payment_id (r ∷ rs) db,
  )
