-- ===== src/Gateway/Sabnzbd.antt =====
-- superol1n/internal/modules/sabnzbd/handler.go. The service is a function from a URL to its answer, `none`
-- for a request that fails.
pub mod Routes
pub mod Asked
use ol1n_super_app.Base.{
  ℕ, Bool, true, false, Option, none, some, [], ◌∷◌, ◌++◌, ◌==◌, Bytes, codes,
}
use ol1n_super_app.Go.Query.{query_escape}
use ol1n_super_app.Gateway.Http.{Writer, Reply, set_header, http_error}

pub record Module : Type 0 where
  pub base_url : Bytes
  pub api_key : Bytes

-- The routes of the mux; `r.PathValue("id")` is the argument.
pub data Route : Type 0 where
  queue history pause resume : Route
  delete : Bytes → Route

unfoldable pub api_url : Module → Bytes → Bytes
api_url m params =
    m.base_url ++ (codes "/api?output=json&apikey=" ++ (m.api_key ++ (codes "&" ++ params)))

abbrev pub params_of : Route → Bytes
params_of queue = codes "mode=queue"
params_of history = codes "mode=history"
params_of pause = codes "mode=pause"
params_of resume = codes "mode=resume"
params_of (delete id) = codes "mode=queue&name=delete&value=" ++ query_escape id

abbrev Service : Type 0
Service = Bytes → Option (ℕ × Bytes)

abbrev pub proxied : Writer → Option (ℕ × Bytes) → Reply
proxied w none = http_error w (codes "upstream error") 502
proxied w (some (status, body)) = record {
  status = status;
  headers = set_header (codes "Content-Type") (codes "application/json") w.headers;
  writes = body ∷ [];
}

abbrev pub proxy : Service → Writer → Bytes → Reply
proxy service w url = proxied w (service url)

unfoldable pub handle : Module → Service → Writer → Route → Reply
unfolding api_url
handle m service w route = proxy service w (api_url m (params_of route))

abbrev is_ok : Option (ℕ × Bytes) → Bool
is_ok none = false
is_ok (some (status, body)) = status == 200

unfoldable pub is_healthy : Module → Service → Bool
unfolding api_url
is_healthy m service = is_ok (service (api_url m (codes "mode=version")))
