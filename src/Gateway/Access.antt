-- ===== src/Gateway/Access.antt =====
-- Who gets past `Auth`.
use ol1n_super_app.Base.{
  arith, ◌≤◌, ◌<◌, ◌-◌, ltb, ◌≡◌, ◌≢◌, ◌⊎◌, refl, sym, subst, ◌∙◌, inl, inr, Bool, true, false,
  Option, none, some, List, [], ◌∷◌, Bytes, codes, same, same_iff, All, ℕ, Bool-cases, Option-cases,
}
use ol1n_super_app.Go.Strings.{is_nil}
use ol1n_super_app.Gateway.Http.{Request, Writer, Handler, http_error}
use ol1n_super_app.Gateway.Middleware.{
  Jwt, JwksCache, find_key, token_of, then_pem, key_of, refreshed, auth, answered, checked, is_lan,
}

is_nil-false : (s : Bytes) → is_nil s ≡ false → s ≢ []
is_nil-false [] h = cc
is_nil-false (x ∷ xs) h = λ e. cc

is_nil-true : (s : Bytes) → is_nil s ≡ true → s ≡ []
is_nil-true [] h = refl
is_nil-true (x ∷ xs) h = cc

-- The cache that a token is checked with: that of the request, unless it is older than 600 seconds, and
-- then the keys that were fetched.
abbrev pub IsCurrent : Option (List (Bytes × Bytes)) → ℕ → JwksCache → JwksCache → Type 0
IsCurrent fetch now c c' =
    ((now - c.fetched ≤ 600) × (c ≡ c'))
    ⊎ ((600 < now - c.fetched)
        × ((keys : List (Bytes × Bytes)) × (fetch ≡ some keys)
            × (record { keys = keys; fetched = now } ≡ c')))

module _ {ℓ} {Key : Type ℓ} (jwt : Jwt Key) (lan_key : Bytes)
    (fetch : Option (List (Bytes × Bytes))) (now : ℕ) (c : JwksCache) (next : Handler) (w : Writer)
    (r : Request) where
  -- The request has the key of the local network, and goes on as the user "lan".
  abbrev pub ByLan : Type 0
  ByLan =
      (lan_key ≢ [])
      × (r.header (codes "X-LAN-Key") ≡ lan_key)
      × (auth jwt lan_key fetch now c next w r ≡ next w (record r { user = some (codes "lan") }))

  abbrev NotLan : Type 0
  NotLan = (lan_key ≡ []) ⊎ (r.header (codes "X-LAN-Key") ≢ lan_key)

  -- The request has a token that the library accepts with the keys of that cache, and goes on as its email.
  abbrev pub ByToken : Type 0
  ByToken =
      NotLan
      × (token_of r ≢ [])
      × ((email : Bytes) × (c' : JwksCache) × IsCurrent fetch now c c'
          × (jwt.parse (token_of r) (key_of jwt c'.keys) ≡ some email)
          × (auth jwt lan_key fetch now c next w r ≡ next w (record r { user = some email })))

  -- There is no token: 401.
  abbrev NoToken : Type 0
  NoToken =
      NotLan
      × (token_of r ≡ [])
      × (auth jwt lan_key fetch now c next w r ≡ http_error w (codes "unauthorized") 401)

  -- The library does not accept the token with the keys of the current cache: 401.
  abbrev IsRejected : Type 0
  IsRejected =
      NotLan
      × (token_of r ≢ [])
      × ((c' : JwksCache) × IsCurrent fetch now c c'
          × (jwt.parse (token_of r) (key_of jwt c'.keys) ≡ none)
          × (auth jwt lan_key fetch now c next w r ≡ http_error w (codes "unauthorized") 401))

  -- There is a token, but the cache is older than 600 seconds and the keys cannot be fetched: 500.
  abbrev NoKeys : Type 0
  NoKeys =
      NotLan
      × (token_of r ≢ [])
      × (600 < now - c.fetched)
      × (fetch ≡ none)
      × (auth jwt lan_key fetch now c next w r ≡ http_error w (codes "auth error") 500)

  abbrev pub IsRefused : Type 0
  IsRefused = NoToken ⊎ (IsRejected ⊎ NoKeys)

  is_lan-cases :
      ((is_lan jwt lan_key fetch now r ≡ false) × NotLan)
      ⊎ ((is_lan jwt lan_key fetch now r ≡ true)
          × (lan_key ≢ [])
          × (r.header (codes "X-LAN-Key") ≡ lan_key))
  is_lan-cases = elim (Bool-cases (is_nil lan_key)) [
    | inl e ↦ inl (rw e refl, inl (is_nil-true lan_key e))
    | inr e ↦ elim (Bool-cases (same (r.header (codes "X-LAN-Key")) lan_key)) [
      | inl e' ↦ inr (
        rw (e, e') refl,
        is_nil-false lan_key e,
        (same_iff (r.header (codes "X-LAN-Key")) lan_key).0 e',
      )
      | inr e' ↦ inl (
        rw (e, e') refl,
        inr (λ q. cc (sym ((same_iff (r.header (codes "X-LAN-Key")) lan_key).1 q) ∙ e')),
      )
    ]
  ]

  refreshed-cases :
      ((600 < now - c.fetched) × (fetch ≡ none) × (refreshed fetch now c ≡ none))
      ⊎ ((c' : JwksCache) × IsCurrent fetch now c c' × (refreshed fetch now c ≡ some c'))
  unfolding refreshed
  refreshed-cases = elim (Bool-cases (ltb 600 (now - c.fetched))) [
    | inr e ↦ inr (c, inl (ground (arith, e), refl), rw e refl)
    | inl e ↦ elim (Option-cases fetch) [
      | inl f ↦ inl (ground (arith, e), f, rw (e, f) refl)
      | inr (keys, f) ↦ inr (
        record { keys = keys; fetched = now },
        inr (ground (arith, e), (keys, f, refl)),
        rw (e, f) refl,
      )
    ]
  ]

  goes_on :
      is_lan jwt lan_key fetch now r ≡ true
      → auth jwt lan_key fetch now c next w r ≡ next w (record r { user = some (codes "lan") })
  unfolding auth
  goes_on e = rw e refl

  without_token :
      is_lan jwt lan_key fetch now r ≡ false
      → is_nil (token_of r) ≡ true
      → auth jwt lan_key fetch now c next w r ≡ http_error w (codes "unauthorized") 401
  unfolding auth
  without_token e e' = rw (e, e') refl

  is_checked :
      is_lan jwt lan_key fetch now r ≡ false
      → is_nil (token_of r) ≡ false
      → auth jwt lan_key fetch now c next w r
        ≡ checked jwt lan_key fetch now next w r (refreshed fetch now c)
  unfolding auth
  is_checked e e' = rw (e, e') refl

  -- With the answer of the library.
  checked-cases :
      NotLan
      → token_of r ≢ []
      → auth jwt lan_key fetch now c next w r
        ≡ checked jwt lan_key fetch now next w r (refreshed fetch now c)
      → ByToken ⊎ IsRefused
  unfolding checked answered
  checked-cases not_lan some_token h = elim refreshed-cases [
    | inl (old, f, e) ↦ inr (inr (inr (not_lan, some_token, old, f, h ∙ rw e refl)))
    | inr (c', current, e) ↦ elim (Option-cases (jwt.parse (token_of r) (key_of jwt c'.keys))) [
      | inl p ↦ inr (inr (inl (not_lan, some_token, (c', current, p, h ∙ rw (e, p) refl))))
      | inr (email, p) ↦ inl (not_lan, some_token, (email, c', current, p, h ∙ rw (e, p) refl))
    ]
  ]

-- Every request to `Auth` is of one of five kinds. One that has the key of the local network, which is
-- not empty, goes on as "lan". Of the others, one without a token is answered 401; one with a token is
-- answered 500 if the cache of the keys is older than 600 seconds and the keys cannot be fetched; with
-- the keys of the cache, or the fetched ones if it was older, it goes on as the token's email if
-- the library accepts the token, and is answered 401 if it does not. The answers 401 and 500 are those of
-- `Auth` itself, with nothing of what is behind it.
pub auth_lem {ℓ} :
    {Key : Type ℓ} (jwt : Jwt Key) (lan_key : Bytes) (fetch : Option (List (Bytes × Bytes)))
    (now : ℕ) (c : JwksCache) (next : Handler) (w : Writer) (r : Request)
    → ByLan jwt lan_key fetch now c next w r
      ⊎ (ByToken jwt lan_key fetch now c next w r ⊎ IsRefused jwt lan_key fetch now c next w r)
auth_lem jwt lan_key fetch now c next w r = elim (is_lan-cases jwt lan_key fetch now c next w r) [
  | inr (e, some_key, same_key) ↦
      inl (some_key, same_key, goes_on jwt lan_key fetch now c next w r e)
  | inl (e, not_lan) ↦ inr (elim (Bool-cases (is_nil (token_of r))) [
    | inl e' ↦ inr (
        inl (
          not_lan,
          is_nil-true (token_of r) e',
          without_token jwt lan_key fetch now c next w r e e',
        ))
    | inr e' ↦
        checked-cases jwt lan_key fetch now c next w r not_lan (is_nil-false (token_of r) e')
          (is_checked jwt lan_key fetch now c next w r e e')
  ])
]

find_key-All {ℓ} :
    {Key : Type ℓ} (jwt : Jwt Key) (kid : Bytes) (keys : List (Bytes × Bytes))
    → All (λ k. jwt.parse_pem k.1 ≡ none) keys
    → then_pem jwt (find_key kid keys) ≡ none
unfolding find_key
find_key-All jwt kid [] h = refl
find_key-All jwt kid ((k, raw) ∷ keys) (hk, h) = elim (Bool-cases (same k kid)) [
  | inl e ↦ rw e hk
  | inr e ↦ rw e (find_key-All jwt kid keys h)
]

key_of-All {ℓ} :
    {Key : Type ℓ} (jwt : Jwt Key) (keys : List (Bytes × Bytes)) (is_rsa : Bool) (kid : Bytes)
    → All (λ k. jwt.parse_pem k.1 ≡ none) keys
    → key_of jwt keys is_rsa kid ≡ none
unfolding key_of
key_of-All jwt keys true kid h = find_key-All jwt kid keys h
key_of-All jwt keys false kid h = refl

current-All {ℓ} :
    {P : Bytes × Bytes → Type ℓ} (fetch : Option (List (Bytes × Bytes))) (now : ℕ)
    (c c' : JwksCache)
    → ((keys : List (Bytes × Bytes)) → fetch ≡ some keys → All P keys)
    → All P c.keys
    → IsCurrent fetch now c c'
    → All P c'.keys
current-All {P = P} fetch now c c' fetched cached (inl (young, e)) =
    subst (λ z. All P z.keys) e cached
current-All {P = P} fetch now c c' fetched cached (inr (old, (keys, f, e))) =
    subst (λ z. All P z.keys) e (fetched keys f)

-- The keys of Cloudflare are JSON texts, and `Auth` reads them as PEM. If the library reads no key from
-- any text among the cached and the fetched ones, and accepts no token for which it is given no key,
-- then a token never lets a request in: it goes on with the key of the local network, or is answered
-- 401 or 500.
pub auth-lan_only {ℓ} :
    {Key : Type ℓ} (jwt : Jwt Key) (lan_key : Bytes) (fetch : Option (List (Bytes × Bytes)))
    (now : ℕ) (c : JwksCache) (next : Handler) (w : Writer) (r : Request)
    → ((token : Bytes) (key : Bool → Bytes → Option Key)
        → ((is_rsa : Bool) (kid : Bytes) → key is_rsa kid ≡ none)
        → jwt.parse token key ≡ none)
    → ((keys : List (Bytes × Bytes)) → fetch ≡ some keys → All (λ k. jwt.parse_pem k.1 ≡ none) keys)
    → All (λ k. jwt.parse_pem k.1 ≡ none) c.keys
    → ByLan jwt lan_key fetch now c next w r ⊎ IsRefused jwt lan_key fetch now c next w r
auth-lan_only jwt lan_key fetch now c next w r no_key fetched cached =
    elim (auth_lem jwt lan_key fetch now c next w r) [
      | inl by_lan ↦ inl by_lan
      | inr (inr is_refused) ↦ inr is_refused
      | inr (inl (not_lan, some_token, (email, c', current, p, h))) ↦
          let none_left = current-All fetch now c c' fetched cached current in
          let rejected =
            no_key (token_of r) (key_of jwt c'.keys)
              (λ is_rsa kid. key_of-All jwt c'.keys is_rsa kid none_left) in
          absurd (cc (sym rejected ∙ p))
    ]
