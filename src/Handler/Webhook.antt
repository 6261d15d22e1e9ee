-- ===== src/Handler/Webhook.antt =====
-- upload.go: `paymentConfirm`, and the sequence of notices that a server gets.
pub mod Once
pub mod Authentic
use ol1n_super_app.Base.{
  ℕ, suc, ◌+◌, ◌≤◌, ◌≡◌, refl, ap, ◌∙◌, ◌⊎◌, inl, inr, Bool, true, false, not, Option, none, some,
  List, [], ◌∷◌, arith, Bytes, codes, same, if◌then◌else◌, Option-cases,
}
use ol1n_super_app.Db.Tables.{Db, Result, ok, err, Ctx, after, Artifact}
use ol1n_super_app.Db.Artifacts.{mark_payment_confirmed, update_artifact_payment_status}
use ol1n_super_app.Db.Artifacts.Payment.{
  IsSettled, confirm-IsSettled, IsSettled-refuses, IsSettled-confirm, IsSettled-update,
}
use ol1n_super_app.Payment.Verify.{IpnPayload, Platform, is_terminal_confirmed, verify, VerifyError}

-- A request: the body is what `LimitReader` lets through, or a read error.
pub record Request : Type 0 where
  pub ctx : Ctx
  pub signature : Bytes  -- the header x-nowpayments-sig, empty where it is missing
  pub body : Option Bytes

-- The status of the answer, the database behind it, and the payment whose upload it starts.
pub record Answer : Type 0 where
  pub status : ℕ
  pub db : Db
  pub starts : Option Bytes

abbrev answer : ℕ → Db → Answer
answer status db = record { status = status; db = db; starts = none }

-- `MarkPaymentConfirmed` and what follows it: only the call that advances starts the upload.
advance : Bytes → Db → Result (Db × Bool) → Answer
advance payment_id db (err e) = answer 500 db
advance payment_id db (ok (db', false)) = answer 200 db'
advance payment_id db (ok (db', true)) = record { status = 200; db = db'; starts = some payment_id }

confirm_payload : Ctx → Db → Option IpnPayload → Answer
confirm_payload c db none = answer 400 db
confirm_payload c db (some p) =
    if not (is_terminal_confirmed p.payment_status)
    then answer 200 (after db (update_artifact_payment_status c p.payment_id p.payment_status db))
    else advance p.payment_id db (mark_payment_confirmed c p.payment_id p.payment_status db)

-- What follows `Verify`: an error is answered, the payload of an accepted body is read.
verified : Ctx → Db → Option VerifyError → Option IpnPayload → Answer
verified c db (some e) p = answer 401 db
verified c db none p = confirm_payload c db p

-- Whether an answer starts the upload of the payment.
abbrev pub counts : Bytes → Option Bytes → ℕ
counts payment_id none = 0
counts payment_id (some p) = if same p payment_id then 1 else 0

module _ (platform : Platform) (ipn_secret : Bytes) where
  confirm_body : Ctx → Bytes → Db → Option Bytes → Answer
  confirm_body c signature db none = answer 400 db
  confirm_body c signature db (some raw) =
      verified c db (verify platform ipn_secret signature raw) (platform.unmarshal_payload raw)

  unfoldable pub payment_confirm : Request → Db → Answer
  unfolding confirm_body verified confirm_payload advance
  payment_confirm r db = confirm_body r.ctx r.signature db r.body

  -- One notice after the other: how many of them start an upload for the payment.
  unfoldable pub starts_in : Bytes → List Request → Db → ℕ
  starts_in payment_id [] db = 0
  starts_in payment_id (r ∷ rs) db =
      let a = payment_confirm r db in counts payment_id a.starts + starts_in payment_id rs a.db
