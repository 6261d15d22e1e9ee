-- ===== src/Gateway/Middleware.antt =====
-- superol1n/internal/gateway: the middleware and how NewServer stacks it. Tokens are read by a library,
-- which is a parameter, and the cache of the keys is a state.
use ol1n_super_app.Base.{
  ℕ, ◌-◌, Bool, false, not, ◌&&◌, Option, none, some, List, [], ◌∷◌, ltb, if◌then◌else◌, Bytes,
  codes, same,
}
use ol1n_super_app.Go.Strings.{is_nil, strip_prefix}
use ol1n_super_app.Gateway.Http.{Request, Writer, Reply, Handler, set_header, http_error}

-- golang-jwt: the reading of a PEM public key, and `Parse`, which hands the function of the caller
-- whether the token is signed with RSA, and its key id. `some` is the claim `email` of a valid token.
pub record Jwt {ℓ} (Key : Type ℓ) : Type ℓ where
  pub parse_pem : Bytes → Option Key
  pub parse : Bytes → (Bool → Bytes → Option Key) → Option Bytes

-- `jwksCache`: the JSON text of each key by its id; the time is in seconds.
pub record JwksCache : Type 0 where
  pub keys : List (Bytes × Bytes)
  pub fetched : ℕ

unfoldable pub find_key : Bytes → List (Bytes × Bytes) → Option Bytes
unfolding same
find_key kid [] = none
find_key kid ((k, raw) ∷ keys) = if same k kid then some raw else find_key kid keys

abbrev pub or_bearer : Request → Bytes → Bytes
or_bearer r token =
    if is_nil token
    then elim (strip_prefix (codes "Bearer ") (r.header (codes "Authorization"))) [
      | none ↦ r.header (codes "Authorization")
      | some rest ↦ rest
    ]
    else token

-- The cookie, or the header without its prefix.
unfoldable pub token_of : Request → Bytes
unfolding strip_prefix
token_of r = or_bearer r (elim (r.cookie (codes "CF_Authorization")) [ none ↦ [] | some v ↦ v ])

abbrev pub then_pem {ℓ} : {Key : Type ℓ} → Jwt Key → Option Bytes → Option Key
then_pem jwt none = none
then_pem jwt (some raw) = jwt.parse_pem raw

-- The function that `Parse` asks for the key.
unfoldable pub key_of {ℓ} :
    {Key : Type ℓ} → Jwt Key → List (Bytes × Bytes) → Bool → Bytes → Option Key
unfolding find_key
key_of jwt keys is_rsa kid = if is_rsa then then_pem jwt (find_key kid keys) else none

-- The cache that the request goes on with; `none` is that the keys could not be fetched.
unfoldable pub refreshed : Option (List (Bytes × Bytes)) → ℕ → JwksCache → Option JwksCache
refreshed fetch now c =
    if ltb 600 (now - c.fetched)
    then elim fetch [ none ↦ none | some keys ↦ some (record { keys = keys; fetched = now }) ]
    else some c

module _ {ℓ} {Key : Type ℓ} (jwt : Jwt Key) (lan_key : Bytes)
    (fetch : Option (List (Bytes × Bytes))) (now : ℕ) where
  unfoldable pub answered : Handler → Writer → Request → Option Bytes → Reply
  unfolding http_error
  answered next w r none = http_error w (codes "unauthorized") 401
  answered next w r (some email) = next w (record r { user = some email })

  unfoldable pub checked : Handler → Writer → Request → Option JwksCache → Reply
  unfolding answered token_of key_of http_error
  checked next w r none = http_error w (codes "auth error") 500
  checked next w r (some c) = answered next w r (jwt.parse (token_of r) (key_of jwt c.keys))

  -- Does the request carry the key of the local network?
  abbrev pub is_lan : Request → Bool
  is_lan r = not (is_nil lan_key) && same (r.header (codes "X-LAN-Key")) lan_key

  -- `Auth`, on the cache as the request finds it.
  unfoldable pub auth : JwksCache → Handler → Handler
  unfolding same answered checked token_of key_of refreshed http_error
  auth c next w r =
      if is_lan r
      then next w (record r { user = some (codes "lan") })
      else if is_nil (token_of r)
      then http_error w (codes "unauthorized") 401
      else checked next w r (refreshed fetch now c)

abbrev pub cors_headers : Writer → Writer
cors_headers w = record w {
  headers =
      set_header (codes "Access-Control-Allow-Headers")
        (codes "Content-Type, Authorization, X-LAN-Key")
        (set_header (codes "Access-Control-Allow-Methods") (codes "GET, POST, PUT, DELETE, OPTIONS")
          (set_header (codes "Access-Control-Allow-Origin") (codes "*") w.headers));
}

-- `CORS`
unfoldable pub cors : Handler → Handler
unfolding same set_header
cors next w r =
    if same r.method (codes "OPTIONS")
    then record { status = 204; headers = (cors_headers w).headers; writes = [] }
    else next (cors_headers w) r

-- `Logger`: its `responseWriter` has the methods of `http.ResponseWriter` only. The line that it logs is
-- not modelled.
unfoldable pub logger : Handler → Handler
logger next w r = next (record w { flushes = false; hijacks = false }) r

-- `NewServer`, around the mux.
unfoldable pub new_server {ℓ} :
    {Key : Type ℓ}
    → Jwt Key
    → Bytes
    → Option (List (Bytes × Bytes))
    → ℕ
    → JwksCache
    → Handler
    → Handler
unfolding logger cors auth
new_server jwt lan_key fetch now c mux = logger (cors (auth jwt lan_key fetch now c mux))
