-- ===== src/Go/Channels.antt =====
-- Buffered channels in a store; a channel is its index. `none` is a panic.
use ol1n_super_app.Base.{
  ℕ, zero, suc, ◌≡◌, ◌≢◌, refl, ap, Bool, true, false, not, Option, none, some, List, [], ◌∷◌, ◌++◌,
  arith, ltb, length, if◌then◌else◌,
}

pub record Channel {ℓ} (A : Type ℓ) : Type ℓ where
  pub capacity : ℕ
  pub buffer : List A
  pub closed : Bool

module _ {ℓ} {A : Type ℓ} where
  -- `make(chan A, capacity)`; the new channel's index is the length of the store.
  abbrev pub make : ℕ → List (Channel A) → List (Channel A)
  make capacity cs = cs ++ (record { capacity = capacity; buffer = []; closed = false } ∷ [])

  abbrev pub prepend : Channel A → Option (List (Channel A)) → Option (List (Channel A))
  prepend c none = none
  prepend c (some cs) = some (c ∷ cs)

  abbrev pub put : A → Channel A → Channel A
  put v c =
      if ltb (length c.buffer) c.capacity then record c { buffer = c.buffer ++ (v ∷ []) } else c

  -- `select { case ch <- v: default: }`
  unfoldable pub try_send : A → ℕ → List (Channel A) → Option (List (Channel A))
  try_send v i [] = none
  try_send v zero (c ∷ cs) = if c.closed then none else some (put v c ∷ cs)
  try_send v (suc i) (c ∷ cs) = prepend c (try_send v i cs)

  unfoldable pub close : ℕ → List (Channel A) → Option (List (Channel A))
  close i [] = none
  close zero (c ∷ cs) = if c.closed then none else some (record c { closed = true } ∷ cs)
  close (suc i) (c ∷ cs) = prepend c (close i cs)

  unfoldable pub is_open : ℕ → List (Channel A) → Bool
  is_open i [] = false
  is_open zero (c ∷ cs) = not c.closed
  is_open (suc i) (c ∷ cs) = is_open i cs

  pub is_open-length : (cs : List (Channel A)) → is_open (length cs) cs ≡ false
  unfolding is_open
  is_open-length [] = refl
  is_open-length (c ∷ cs) = is_open-length cs

  pub is_open-make : (n : ℕ) (cs : List (Channel A)) → is_open (length cs) (make n cs) ≡ true
  unfolding is_open
  is_open-make n [] = refl
  is_open-make n (c ∷ cs) = is_open-make n cs

  pub is_open-make_other :
      (n i : ℕ) (cs : List (Channel A)) → i ≢ length cs → is_open i (make n cs) ≡ is_open i cs
  unfolding is_open
  is_open-make_other n zero [] h = absurd (h refl)
  is_open-make_other n (suc i) [] h = refl
  is_open-make_other n zero (c ∷ cs) h = refl
  is_open-make_other n (suc i) (c ∷ cs) h = is_open-make_other n i cs (λ e. h (ap suc e))

  -- A send goes through exactly on an open channel, and opens or closes none.
  pub try_send-closed :
      (v : A) (i : ℕ) (cs : List (Channel A)) → is_open i cs ≡ false → try_send v i cs ≡ none
  unfolding is_open try_send
  try_send-closed v i [] h = refl
  try_send-closed v zero (c ∷ cs) h = ground arith
  try_send-closed v (suc i) (c ∷ cs) h = ap (prepend c) (try_send-closed v i cs h)

  pub try_send-open :
      (v : A) (i : ℕ) (cs : List (Channel A))
      → is_open i cs ≡ true
      → (ds : List (Channel A)) × (try_send v i cs ≡ some ds)
        × ((j : ℕ) → is_open j ds ≡ is_open j cs)
  unfolding is_open try_send
  try_send-open v i [] h = cc
  try_send-open v zero (c ∷ cs) h = (put v c ∷ cs, ground arith, same_state)
    where
      same_state : (j : ℕ) → is_open j (put v c ∷ cs) ≡ is_open j (c ∷ cs)
      same_state zero = ground arith
      same_state (suc j) = refl
  try_send-open v (suc i) (c ∷ cs) h =
      let (ds, sent, same_state) = try_send-open v i cs h in
      (c ∷ ds, ap (prepend c) sent, after_first ds same_state)
    where
      after_first :
          (ds : List (Channel A))
          → ((j : ℕ) → is_open j ds ≡ is_open j cs)
          → (j : ℕ) → is_open j (c ∷ ds) ≡ is_open j (c ∷ cs)
      after_first ds f zero = refl
      after_first ds f (suc j) = f j

  -- An open channel can be closed; the others stay as they were.
  pub close-open :
      (i : ℕ) (cs : List (Channel A))
      → is_open i cs ≡ true
      → (ds : List (Channel A)) × (close i cs ≡ some ds)
        × (is_open i ds ≡ false)
        × ((j : ℕ) → j ≢ i → is_open j ds ≡ is_open j cs)
  unfolding is_open close
  close-open i [] h = cc
  close-open zero (c ∷ cs) h = (record c { closed = true } ∷ cs, ground arith, refl, others)
    where
      others : (j : ℕ) → j ≢ 0 → is_open j (record c { closed = true } ∷ cs) ≡ is_open j (c ∷ cs)
      others zero ne = absurd (ne refl)
      others (suc j) ne = refl
  close-open (suc i) (c ∷ cs) h =
      let (ds, done, shut, others) = close-open i cs h in
      (c ∷ ds, ap (prepend c) done, shut, after_first ds others)
    where
      after_first :
          (ds : List (Channel A))
          → ((j : ℕ) → j ≢ i → is_open j ds ≡ is_open j cs)
          → (j : ℕ) → j ≢ suc i
          → is_open j (c ∷ ds) ≡ is_open j (c ∷ cs)
      after_first ds f zero ne = refl
      after_first ds f (suc j) ne = f j (λ e. ne (ap suc e))
