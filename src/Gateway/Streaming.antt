-- ===== src/Gateway/Streaming.antt =====
-- What `Chat` streams, and what is left of it behind `Logger`.
use ol1n_super_app.Base.{
  ◌⊎◌, ℕ, ◌≡◌, ◌≢◌, refl, ap, inl, inr, Bool, false, Option, none, some, List, [], ◌∷◌, ◌++◌, Bytes,
  codes, same, map, arith, if◌then◌else◌, Bool-cases, Option-cases,
}
use ol1n_super_app.Go.Strings.{is_nil, strip_prefix}
use ol1n_super_app.Gateway.Http.{Request, Writer, Handler, http_error}
use ol1n_super_app.Gateway.Middleware.{Jwt, JwksCache, auth, cors, cors_headers, logger, new_server}
use ol1n_super_app.Gateway.Access.{auth_lem}
use ol1n_super_app.Gateway.Chat.{
  Upstream, ChatRequest, History, Streamed, event, add_chunk, stream_lines, save_conversation,
  decoded, chat,
}

-- The payloads of the lines that have one, up to the one that marks the end.
unfoldable pub payloads : List Bytes → List Bytes
payloads [] = []
payloads (l ∷ ls) = elim (strip_prefix (codes "data: ") l) [
  | none ↦ payloads ls
  | some payload ↦
      let rest = payload ∷ payloads ls in if same payload (codes "[DONE]") then [] else rest
]

unfoldable pub contents : Upstream → List Bytes → List Bytes
contents u [] = []
contents u (p ∷ ps) = elim (u.decode_chunk p) [
  | none ↦ contents u ps
  | some content ↦ content ∷ contents u ps
]

unfoldable pub joined : List Bytes → Bytes
joined [] = []
joined (b ∷ bs) = b ++ joined bs

abbrev pub all_of : Upstream → List Bytes → Streamed
all_of u ls = (
  map (λ z. event (u.encode_chunk z)) (contents u (payloads ls)),
  joined (contents u (payloads ls)),
)

pub stream_lines-contents : (u : Upstream) (ls : List Bytes) → stream_lines u ls ≡ all_of u ls
unfolding stream_lines payloads contents joined
stream_lines-contents u [] = refl
stream_lines-contents u (l ∷ ls) = elim (Option-cases (strip_prefix (codes "data: ") l)) [
  | inl e ↦ rw e (stream_lines-contents u ls)
  | inr (payload, e) ↦ elim (Bool-cases (same payload (codes "[DONE]"))) [
    | inl d ↦ rw (e, d) refl
    | inr d ↦ elim (Option-cases (u.decode_chunk payload)) [
      | inl f ↦ rw (e, d, f) (stream_lines-contents u ls)
      | inr (content, f) ↦
          rw (e, d, f) (ap (add_chunk u (some content)) (stream_lines-contents u ls))
    ]
  ]
]

-- What is left of the history: nothing is saved without a history, and none is changed by a request that
-- names no conversation.
abbrev pub Saves : (ℕ → Bool) → ChatRequest → Bytes → Option History → Option History → Type 0
Saves works req response h after =
    ((h ≡ none) × (after ≡ none))
    ⊎ (((req.conversation_id ≡ []) × (after ≡ h))
        ⊎ ((req.conversation_id ≢ [])
            × ((old : History) × (h ≡ some old)
                × (after
                    ≡ some
                        (save_conversation works req.conversation_id req.messages response old)))))

not_streamed :
    (u : Upstream) (works : ℕ → Bool) (h : Option History) (w : Writer) (r : Request)
    → w.flushes ≡ false
    → (chat u works h w r).0.status ≢ 200
unfolding chat decoded http_error
not_streamed u works h w r e = elim (Option-cases (u.decode_request r.content)) [
  | inl d ↦ rw d (omega arith)
  | inr (req, d) ↦ elim (Bool-cases (is_nil req.model)) [
    | inl m ↦ rw (d, m) (omega arith)
    | inr m ↦ rw (d, m, e) (omega arith)
  ]
]

behind_auth {ℓ} :
    {Key : Type ℓ} (jwt : Jwt Key) (lan_key : Bytes) (fetch : Option (List (Bytes × Bytes)))
    (now : ℕ) (c : JwksCache) (next : Handler) (w : Writer) (r : Request)
    → ((r' : Request) → (next w r').status ≢ 200)
    → (auth jwt lan_key fetch now c next w r).status ≢ 200
unfolding http_error
behind_auth jwt lan_key fetch now c next w r never =
    elim (auth_lem jwt lan_key fetch now c next w r) [
      | inl (some_key, same_key, h) ↦ rw h (never (record r { user = some (codes "lan") }))
      | inr (inl (not_lan, some_token, (email, c', current, p, h))) ↦
          rw h (never (record r { user = some email }))
      | inr (inr (inl (not_lan, no_token, h))) ↦ rw h (omega arith)
      | inr (inr (inr (inl (not_lan, some_token, (c', current, p, h))))) ↦ rw h (omega arith)
      | inr (inr (inr (inr (not_lan, some_token, old, f, h)))) ↦ rw h (omega arith)
    ]

-- The gateway never streams a chat: `Logger` hides from `Chat` that the connection can flush, so
-- behind NewServer no request to `Chat` is answered 200, whoever sends it and whatever the connection
-- can do.
pub chat-never_streams {ℓ} :
    {Key : Type ℓ} (jwt : Jwt Key) (lan_key : Bytes) (fetch : Option (List (Bytes × Bytes)))
    (now : ℕ) (c : JwksCache) (u : Upstream) (works : ℕ → Bool) (h : Option History) (w : Writer)
    (r : Request)
    → (new_server jwt lan_key fetch now c (λ v q. (chat u works h v q).0) w r).status ≢ 200
unfolding new_server logger cors
chat-never_streams jwt lan_key fetch now c u works h w r =
    elim (Bool-cases (same r.method (codes "OPTIONS"))) [
      | inl e ↦ rw e (omega arith)
      | inr e ↦ rw e (
          behind_auth jwt lan_key fetch now c (λ v q. (chat u works h v q).0)
            (cors_headers (record w { flushes = false; hijacks = false })) r
            (λ q.
              not_streamed u works h (cors_headers (record w { flushes = false; hijacks = false }))
                q refl))
    ]
