-- ===== src/Gateway/Http.antt =====
-- What the gateway uses of net/http: a handler as a function of a writer and a request.
use ol1n_super_app.Base.{ℕ, Bool, Option, List, [], ◌∷◌, ◌++◌, if◌then◌else◌, Bytes, codes, same}

pub record Request : Type 0 where
  pub method : Bytes
  pub header : Bytes → Bytes  -- `r.Header.Get`
  pub cookie : Bytes → Option Bytes
  pub user : Option Bytes  -- the context's value of `UserEmailKey`
  pub content : Bytes

abbrev pub Headers : Type 0
Headers = List (Bytes × Bytes)

-- `Header().Set`
unfoldable pub set_header : Bytes → Bytes → Headers → Headers
unfolding same
set_header key value [] = (key, value) ∷ []
set_header key value ((k, v) ∷ hs) =
    let later = (k, v) ∷ set_header key value hs in if same k key then (key, value) ∷ hs else later

-- What `w` can do beside writing: does it have the methods `Flush` and `Hijack`?
pub record Writer : Type 0 where
  pub flushes : Bool
  pub hijacks : Bool
  pub headers : Headers

pub record Reply : Type 0 where
  pub status : ℕ
  pub headers : Headers
  pub writes : List Bytes  -- the oldest first

abbrev pub Handler : Type 0
Handler = Writer → Request → Reply

-- `http.Error`
unfoldable pub http_error : Writer → Bytes → ℕ → Reply
unfolding set_header
http_error w text code = record {
  status = code;
  headers =
      set_header (codes "X-Content-Type-Options") (codes "nosniff")
        (set_header (codes "Content-Type") (codes "text/plain; charset=utf-8") w.headers);
  writes = (text ++ codes "\n") ∷ [];
}
