-- ===== src/Db/Artifacts/Payment.antt =====
-- queries.go: `MarkPaymentConfirmed` and `UpdateArtifactPaymentStatus`, over several calls.
use ol1n_super_app.Base.{
  Bool-cases, inl, inr, ◌≡◌, refl, Bool, false, some, List, [], ◌∷◌, arith, Bytes, same,
}
use ol1n_super_app.Db.Tables.{after, status_uploading, Artifact, Db, ok, Ctx}
use ol1n_super_app.Db.Artifacts.{
  awaits_payment, any_artifact, update_artifacts, mark_payment_confirmed,
  update_artifact_payment_status,
}

abbrev pub confirm : Ctx → Bytes → Artifact → Artifact
confirm c payment_status a = record a {
  status = status_uploading;
  payment_status = some payment_status;
  updated_at = c.now;
}

-- Confirming a payment leaves no artifact waiting for it.
none_awaits :
    (c : Ctx) (payment_id status : Bytes) (as' : List Artifact)
    → any_artifact
        (awaits_payment payment_id)
        (update_artifacts (awaits_payment payment_id) (confirm c status) as')
      ≡ false
unfolding any_artifact update_artifacts same
none_awaits c payment_id status [] = refl
none_awaits c payment_id status (a ∷ as') = ground (arith, none_awaits c payment_id status as')

-- No artifact waits for the payment.
abbrev pub IsSettled : Bytes → Db → Type 0
IsSettled payment_id db = any_artifact (awaits_payment payment_id) db.artifacts ≡ false

ok-injective {ℓ} : {A : Type ℓ} {a b : A} → ok a ≡ ok b → a ≡ b
ok-injective h = cc

-- What a call that succeeds returns.
pub confirmed :
    (c : Ctx) (payment_id status : Bytes) (db : Db) {r : Db × Bool}
    → mark_payment_confirmed c payment_id status db ≡ ok r
    → (
      record db {
        artifacts = update_artifacts (awaits_payment payment_id) (confirm c status) db.artifacts;
      },
      any_artifact (awaits_payment payment_id) db.artifacts,
    )
      ≡ r
unfolding mark_payment_confirmed
confirmed c payment_id status db h = elim (Bool-cases c.refuses) [
  | inl no' ↦ let h' = rw no' at h in cc
  | inr go ↦ ok-injective (rw go at h)
]

-- The call that confirms a payment settles it.
pub confirm-IsSettled :
    (c : Ctx) (payment_id status : Bytes) (db : Db) {r : Db × Bool}
    → mark_payment_confirmed c payment_id status db ≡ ok r
    → IsSettled payment_id r.0
confirm-IsSettled c payment_id status db h =
    rw (← confirmed c payment_id status db h) (none_awaits c payment_id status db.artifacts)

-- A settled payment is not confirmed again.
pub IsSettled-refuses :
    (c : Ctx) (payment_id status : Bytes) (db : Db) {r : Db × Bool}
    → IsSettled payment_id db
    → mark_payment_confirmed c payment_id status db ≡ ok r
    → r.1 ≡ false
IsSettled-refuses c payment_id status db s h = rw (← confirmed c payment_id status db h) s

still_settled :
    (payment_id : Bytes) (test : Artifact → Bool) (change : Artifact → Artifact)
    (as' : List Artifact)
    → ((a : Artifact)
        → awaits_payment payment_id a ≡ false
        → awaits_payment payment_id (change a) ≡ false)
    → any_artifact (awaits_payment payment_id) as' ≡ false
    → any_artifact (awaits_payment payment_id) (update_artifacts test change as') ≡ false
unfolding any_artifact update_artifacts
still_settled payment_id test change [] keep h = refl
still_settled payment_id test change (a ∷ as') keep h =
    ground (arith, keep a, still_settled payment_id test change as' keep)

confirm_keeps :
    (c : Ctx) (payment_id status : Bytes) (a : Artifact)
    → awaits_payment payment_id (confirm c status a) ≡ false
unfolding same
confirm_keeps c payment_id status a = ground arith

-- A payment stays settled whatever notice comes next, of this payment or another.
pub IsSettled-confirm :
    (c : Ctx) (payment_id other status : Bytes) (db : Db) {r : Db × Bool}
    → IsSettled payment_id db
    → mark_payment_confirmed c other status db ≡ ok r
    → IsSettled payment_id r.0
IsSettled-confirm c payment_id other status db s h = rw (← confirmed c other status db h) (
    still_settled payment_id (awaits_payment other) (confirm c status) db.artifacts
      (λ a _. confirm_keeps c payment_id status a) s)

pub IsSettled-update :
    (c : Ctx) (payment_id other status : Bytes) (db : Db)
    → IsSettled payment_id db
    → IsSettled payment_id (after db (update_artifact_payment_status c other status db))
unfolding update_artifact_payment_status
IsSettled-update c payment_id other status db s = elim (Bool-cases c.refuses) [
  | inl no' ↦ rw no' s
  | inr go ↦ rw go (still_settled payment_id _ _ db.artifacts (λ a w. w) s)
]
