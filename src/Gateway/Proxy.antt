-- ===== src/Gateway/Proxy.antt =====
-- superol1n/internal/modules/radarr/handler.go and sonarr/handler.go, which differ in their names only, and
-- the health route of superol1n/internal/gateway/server.go. The director of the library's reverse proxy
-- is a parameter.
use ol1n_super_app.Base.{
  ℕ, Bool, false, Option, none, some, List, [], ◌∷◌, ◌++◌, ◌==◌, if◌then◌else◌, Bytes, codes,
}
use ol1n_super_app.Gateway.Http.{Headers, set_header}

pub record Module : Type 0 where
  pub scheme : Bytes
  pub host : Bytes
  pub upstream : Bytes  -- `m.upstream.String()`
  pub api_key : Bytes

pub record Request : Type 0 where
  pub scheme : Bytes
  pub url_host : Bytes
  pub path : Bytes
  pub host : Bytes
  pub headers : Headers

unfoldable pub director : (Request → Request) → Module → Request → Request
unfolding set_header
director original m r =
    let s = original r in
    record s {
      path = codes "/api/v3" ++ s.path;
      url_host = m.host;
      scheme = m.scheme;
      host = m.host;
      headers = set_header (codes "X-Api-Key") m.api_key s.headers;
    }

abbrev is_ok : Option ℕ → Bool
is_ok none = false
is_ok (some status) = status == 200

-- `service` answers a GET with its status, or `none` for a request that fails.
unfoldable pub is_healthy : (Bytes → Option ℕ) → Module → Bool
is_healthy service m =
    is_ok (service (m.upstream ++ (codes "/api/v3/system/status?apikey=" ++ m.api_key)))

-- The status of each module by its name; a later module of the same name replaces an earlier one.
unfoldable pub health : List (Bytes × Bool) → Headers → Headers
unfolding set_header
health [] status = status
health ((name, healthy) ∷ modules) status =
    health modules (set_header name (if healthy then codes "ok" else codes "down") status)
