-- ===== src/Gateway/Sabnzbd/Asked.antt =====
-- What a route asks of the service.
use ol1n_super_app.Base.{
  ℕ, ◌<◌, ◌≡◌, ◌≢◌, refl, ap, ◌∙◌, sym, true, false, Option, some, List, [], ◌∷◌, ◌++◌, map,
  append_assoc, ◌==◌, Bytes, codes, arith, All, All-append,
}
use ol1n_super_app.Go.Strings.{cut, cut-append}
use ol1n_super_app.Go.Query.{is_unreserved, escape_byte, query_escape}
use ol1n_super_app.Gateway.Http.{Writer}
use ol1n_super_app.Gateway.Sabnzbd.{
  Module, Route, queue, history, pause, resume, delete, api_url, params_of, proxied, handle,
}
use ol1n_super_app.Gateway.Sabnzbd.Routes.{
  text, unescape, split_on, pair_of, read_pair, with_query, read_url, IsSafe, unescape-escape_byte,
  escape_byte-IsSafe, split_on-append, split_on-one,
}

-- The parameters that a route means.
abbrev pub meant : Route → List (Bytes × Bytes)
meant queue = (codes "mode", codes "queue") ∷ []
meant history = (codes "mode", codes "history") ∷ []
meant pause = (codes "mode", codes "pause") ∷ []
meant resume = (codes "mode", codes "resume") ∷ []
meant (delete id) =
    (codes "mode", codes "queue") ∷ (codes "name", codes "delete") ∷ (codes "value", id) ∷ []

abbrev pub AllBytes : Route → Type 0
AllBytes (delete id) = All (λ b. b < 256) id
AllBytes r = Unit

abbrev pub IsUnreserved : ℕ → Type 0
IsUnreserved b = is_unreserved b ≡ true

unescape-query_escape : (id : Bytes) → All (λ b. b < 256) id → unescape text (query_escape id) ≡ id
unfolding unescape query_escape
unescape-query_escape [] h = refl
unescape-query_escape (b ∷ id) (hb, h) =
    unescape-escape_byte b (query_escape id) hb ∙ ap (◌∷◌ b) (unescape-query_escape id h)

query_escape-IsSafe : (id : Bytes) → All (λ b. b < 256) id → All IsSafe (query_escape id)
unfolding query_escape
query_escape-IsSafe [] h = tt
query_escape-IsSafe (b ∷ id) (hb, h) =
    All-append IsSafe (escape_byte b) (query_escape id) (escape_byte-IsSafe b hb)
      (query_escape-IsSafe id h)

unescape_key : (key : Bytes) → All IsUnreserved key → unescape text key ≡ key
unfolding unescape
unescape_key [] h = refl
unescape_key (b ∷ key) (hb, h) =
    let no_percent : (b == b'%') ≡ false = ground (arith, hb) in
    let no_plus : (b == b'+') ≡ false = ground (arith, hb) in
    rw (no_percent, no_plus) (ap (◌∷◌ b) (unescape_key key h))

key_inline : (key : Bytes) → All IsUnreserved key → All (λ b. b ≢ b'&') key
key_inline [] h = tt
key_inline (b ∷ key) (hb, h) = (ground (arith, hb), key_inline key h)

no_ampersand : (bs : Bytes) → All IsSafe bs → All (λ b. b ≢ b'&') bs
no_ampersand [] h = tt
no_ampersand (b ∷ bs) (hb, h) = (hb.0, no_ampersand bs h)

read_pair-cut :
    (name value : Bytes)
    → All (λ b. b ≢ b'=') name
    → read_pair (name ++ (b'=' ∷ value)) ≡ (unescape text name, unescape text value)
read_pair-cut name value h = ap (pair_of (name ++ (b'=' ∷ value))) (cut-append b'=' name value h)

read_params : (r : Route) → AllBytes r → map read_pair (split_on b'&' (params_of r)) ≡ meant r
unfolding split_on cut unescape
read_params queue h = refl
read_params history h = refl
read_params pause h = refl
read_params resume h = refl
read_params (delete id) h =
    let value = codes "value=" ++ query_escape id in
    let inline : All (λ b. b ≢ b'&') value =
      All-append (λ b. b ≢ b'&') (codes "value=") (query_escape id) (ground arith)
        (no_ampersand (query_escape id) (query_escape-IsSafe id h)) in
    ap (λ ps. map read_pair (codes "mode=queue" ∷ codes "name=delete" ∷ ps))
      (split_on-one b'&' value inline)
    ∙ ap
        (λ v.
          (codes "mode", codes "queue") ∷ (codes "name", codes "delete") ∷ (codes "value", v) ∷ [])
        (unescape-query_escape id h)

module _ (m : Module) (keyed : All IsUnreserved m.api_key)
    (plain : All (λ b. b ≢ b'?') m.base_url) where
  read_query :
      (params : Bytes)
      → map read_pair
          (split_on b'&' (codes "output=json&apikey=" ++ (m.api_key ++ (codes "&" ++ params))))
        ≡ (codes "output", codes "json")
          ∷ (codes "apikey", m.api_key)
          ∷ map read_pair (split_on b'&' params)
  unfolding split_on cut unescape
  read_query params =
      let key = codes "apikey=" ++ m.api_key in
      let inline : All (λ b. b ≢ b'&') key =
        All-append (λ b. b ≢ b'&') (codes "apikey=") m.api_key (ground arith)
          (key_inline m.api_key keyed) in
      ap (λ ps. map read_pair (codes "output=json" ∷ ps)) (split_on-append b'&' key params inline)
      ∙ ap
          (λ k.
            (codes "output", codes "json")
            ∷ (codes "apikey", k)
            ∷ map read_pair (split_on b'&' params))
          (unescape_key m.api_key keyed)

  read_url-api_url :
      (r : Route)
      → AllBytes r
      → read_url (api_url m (params_of r))
        ≡ some (
          m.base_url ++ codes "/api",
          (codes "output", codes "json") ∷ (codes "apikey", m.api_key) ∷ meant r,
        )
  unfolding api_url
  read_url-api_url r h =
      let query = codes "output=json&apikey=" ++ (m.api_key ++ (codes "&" ++ params_of r)) in
      let at : (m.base_url ++ codes "/api") ++ (b'?' ∷ query) ≡ api_url m (params_of r) =
        append_assoc m.base_url (codes "/api") (b'?' ∷ query) in
      let path : All (λ b. b ≢ b'?') (m.base_url ++ codes "/api") =
        All-append (λ b. b ≢ b'?') m.base_url (codes "/api") plain (ground arith) in
      ap read_url (sym at)
      ∙ ap with_query (cut-append b'?' (m.base_url ++ codes "/api") query path)
      ∙ ap (λ ps. some (m.base_url ++ codes "/api", ps))
          (read_query (params_of r)
            ∙ ap (λ ps. (codes "output", codes "json") ∷ (codes "apikey", m.api_key) ∷ ps)
                (read_params r h))

  -- With an API key of unreserved characters and a base URL without a question mark, and for an id of
  -- bytes: from a service that answers by the path of a URL and its decoded parameters, each route gets
  -- what that service answers to the path `/api` below the base with the output `json`, the key, and
  -- exactly the parameters of the route; the id of a deletion is one parameter, whatever characters it has.
  pub handle-asks :
      (serve : Option (Bytes × List (Bytes × Bytes)) → Option (ℕ × Bytes)) (w : Writer) (r : Route)
      → AllBytes r
      → handle m (λ url. serve (read_url url)) w r
        ≡ proxied w (
            serve (
              some (
                m.base_url ++ codes "/api",
                (codes "output", codes "json") ∷ (codes "apikey", m.api_key) ∷ meant r,
              )))
  unfolding handle
  handle-asks serve w r h = ap (λ q. proxied w (serve q)) (read_url-api_url r h)
