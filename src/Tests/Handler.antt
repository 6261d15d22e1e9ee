-- ===== src/Tests/Handler.antt =====
-- ol1n-vault/internal/handler and ol1n-vault/internal/payment: the theorems at concrete inputs.
use ol1n_super_app.Base.{
  same, ◌%◌, ℕ, ◌<◌, ◌≤◌, ◌≡◌, ◌≢◌, refl, ◌↔◌, false, none, some, [], ◌∷◌, ◌++◌, arith, Bytes,
  codes, All, length,
}
use ol1n_super_app.Db.Tables.{Db, fresh_db, status_pending_payment}
use ol1n_super_app.Go.Hex.{hex_decode, hex_encode, hex_value}
use ol1n_super_app.Db.Artifacts.{mark_payment_confirmed, any_artifact}
use ol1n_super_app.Db.Artifacts.Payment.{IsSettled}
use ol1n_super_app.Payment.Json.{
  insert_entry, precedes, write_sorted, null, string, object, end, field,
}
use ol1n_super_app.Payment.Verify.{is_terminal_confirmed, Platform, IsSigned, verify, verify_iff}
use ol1n_super_app.Handler.Webhook.{Request, payment_confirm, starts_in}
use ol1n_super_app.Handler.Webhook.Once.{payment_confirm-starts_once}
use ol1n_super_app.Handler.Webhook.Authentic.{Authentic, payment_confirm-Authentic}

sum_bytes : (key text : Bytes) → All (λ b. b < 256) ((length (key ++ text) % 256) ∷ [])
sum_bytes key text = (omega arith, tt)

-- A body stands for the notice that its bytes are paid; the hash counts bytes.
abbrev counting : Platform
counting = record {
  Number = ℕ;
  unmarshal = λ raw.
      some (object (field (codes "payment_id") (string raw) (field (codes "note") null end)));
  unmarshal_payload =
      λ raw. some (record { payment_id = raw; payment_status = codes "finished"; order_id = [] });
  marshal_string = λ s. b'"' ∷ (s ++ (b'"' ∷ []));
  format_float = λ n. [];
  hmac_sha512 = λ key text. (length (key ++ text) % 256) ∷ [];
  hmac_sha512_bytes = sum_bytes;
}

-- The text is {"note":null,"payment_id":"p1"} of 31 bytes, and the secret has one.
verify_iff_example :
    (verify counting (codes "s") (codes "20") (codes "p1") ≡ none)
    ↔ ((codes "20" ≢ []) × IsSigned counting (codes "s") (codes "20") (codes "p1"))
verify_iff_example = verify_iff counting (codes "s") (codes "20") (codes "p1")

abbrev notice : Request
notice = record {
  ctx = record { now = 1700000000; refuses = false };
  signature = codes "20";
  body = some (codes "p1");
}

abbrev awaited_db : Db
awaited_db = record fresh_db {
  artifacts =
      (record {
        id = codes "a1";
        filename = codes "cat.png";
        content_type = codes "image/png";
        size_bytes = 10;
        nzb_path = none;
        status = status_pending_payment;
        payment_id = some (codes "p1");
        payment_status = none;
        tx_hash = none;
        created_at = 1;
        updated_at = 2;
      })
      ∷ [];
}

notice_starts : (payment_confirm counting (codes "s") notice awaited_db).starts ≡ some (codes "p1")
unfolding payment_confirm verify is_terminal_confirmed same write_sorted precedes insert_entry
    hex_decode hex_encode mark_payment_confirmed any_artifact hex_value
notice_starts = refl

payment_confirm-starts_once_example :
    (starts_in counting (codes "s") (codes "p1") (notice ∷ notice ∷ []) awaited_db ≤ 1)
    × (IsSettled (codes "p1") awaited_db
        → starts_in counting (codes "s") (codes "p1") (notice ∷ notice ∷ []) awaited_db ≡ 0)
payment_confirm-starts_once_example =
    payment_confirm-starts_once counting (codes "s") (codes "p1") (notice ∷ notice ∷ []) awaited_db

payment_confirm-Authentic_example : Authentic counting (codes "s") notice awaited_db (codes "p1")
payment_confirm-Authentic_example =
    payment_confirm-Authentic counting (codes "s") notice awaited_db (codes "p1") notice_starts
