-- ===== src/Handler/Status/Watch/Buffers.antt =====
-- What waits in a channel while other operations run.
use ol1n_super_app.Base.{
  ◌∙◌, subst, ℕ, zero, suc, ◌≡◌, ◌≢◌, refl, ap, Bool, true, false, ◌||◌, Option, none, some, List,
  [], ◌∷◌, ◌++◌, ltb, length, if◌then◌else◌, Bytes, same, same_iff, arith, Bool-cases, inl, inr,
}
use ol1n_super_app.Go.Channels.{Channel, make, put, prepend, try_send, close}
use ol1n_super_app.Handler.Status.Watch.{received, behind, receive, buffer_of, is_full}

unfoldable pub holds : Bytes → List Bytes → Bool
holds x [] = false
holds x (y ∷ ys) = same y x || holds x ys

-- What a result has, if there is one.
abbrev pub Within {ℓ} : {A : Type ℓ} → (A → Type 0) → Option A → Type 0
Within P none = Unit
Within P (some x) = P x

pub Within-some {ℓ} :
    {A : Type ℓ} (P : A → Type 0) (o : Option A) (x : A) → o ≡ some x → Within P o → P x
Within-some P none x e h = cc
Within-some P (some y) x e h = subst P (cc e) h

pub Within-any {ℓ} : {A : Type ℓ} (o : Option A) → Within (λ x. Unit) o
Within-any none = tt
Within-any (some x) = tt

pub holds-append : (x : Bytes) (ys zs : List Bytes) → holds x (ys ++ zs) ≡ holds x ys || holds x zs
unfolding holds
holds-append x [] zs = refl
holds-append x (y ∷ ys) zs = ground (arith, holds-append x ys zs)

abbrev pub Holds : Bytes → ℕ → List (Channel Bytes) → Type 0
Holds x i cs = holds x (buffer_of i cs) ≡ true

holds-put :
    (x v : Bytes) (c : Channel Bytes) → holds x c.buffer ≡ true → holds x (put v c).buffer ≡ true
unfolding holds
holds-put x v c h = elim (Bool-cases (ltb (length c.buffer) c.capacity)) [
  | inl e ↦ rw (e, holds-append x c.buffer (v ∷ []), h) refl
  | inr e ↦ rw e h
]

Within-unless :
    {A : Type 0} (P : A → Type 0) (b : Bool) (x : A) → P x → Within P (if b then none else some x)
Within-unless P true x h = tt
Within-unless P false x h = h

Within-prepend :
    (P Q : List (Channel Bytes) → Type 0) (c : Channel Bytes) (o : Option (List (Channel Bytes)))
    → ((cs : List (Channel Bytes)) → P cs → Q (c ∷ cs))
    → Within P o
    → Within Q (prepend c o)
Within-prepend P Q c none f h = tt
Within-prepend P Q c (some cs) f h = f cs h

Within-yes : {A : Type 0} (P : A → Type 0) (o : Option A) → ((x : A) → P x) → Within P o
Within-yes P none f = tt
Within-yes P (some x) f = f x

pub try_send-Holds :
    (x v : Bytes) (i j : ℕ) (cs : List (Channel Bytes))
    → Holds x j cs
    → Within (Holds x j) (try_send v i cs)
unfolding try_send buffer_of
try_send-Holds x v i j [] h = tt
try_send-Holds x v zero zero (c ∷ cs) h =
    Within-unless (Holds x 0) c.closed (put v c ∷ cs) (holds-put x v c h)
try_send-Holds x v zero (suc j) (c ∷ cs) h =
    Within-unless (Holds x (suc j)) c.closed (put v c ∷ cs) h
try_send-Holds x v (suc i) zero (c ∷ cs) h =
    Within-prepend (λ ds. Unit) (Holds x 0) c (try_send v i cs) (λ ds u. h)
      (Within-yes (λ ds. Unit) (try_send v i cs) (λ ds. tt))
try_send-Holds x v (suc i) (suc j) (c ∷ cs) h =
    Within-prepend (Holds x j) (Holds x (suc j)) c (try_send v i cs) (λ ds k. k)
      (try_send-Holds x v i j cs h)

-- What is sent to a channel with room waits there.
pub try_send-sent :
    (v : Bytes) (i : ℕ) (cs : List (Channel Bytes))
    → is_full i cs ≡ false
    → Within (Holds v i) (try_send v i cs)
unfolding try_send buffer_of is_full holds
try_send-sent v i [] h = tt
try_send-sent v zero (c ∷ cs) h =
    let room : ltb (length c.buffer) c.capacity ≡ true = ground arith in
    Within-unless (Holds v 0) c.closed (put v c ∷ cs)
      (rw room (holds-append v c.buffer (v ∷ []) ∙ rw ((same_iff v v).1 refl) (ground arith)))
try_send-sent v (suc i) (c ∷ cs) h =
    Within-prepend (Holds v i) (Holds v (suc i)) c (try_send v i cs) (λ ds k. k)
      (try_send-sent v i cs h)

pub close-Holds :
    (x : Bytes) (i j : ℕ) (cs : List (Channel Bytes))
    → Holds x j cs
    → Within (Holds x j) (close i cs)
unfolding close buffer_of
close-Holds x i j [] h = tt
close-Holds x zero zero (c ∷ cs) h =
    Within-unless (Holds x 0) c.closed (record c { closed = true } ∷ cs) h
close-Holds x zero (suc j) (c ∷ cs) h =
    Within-unless (Holds x (suc j)) c.closed (record c { closed = true } ∷ cs) h
close-Holds x (suc i) zero (c ∷ cs) h =
    Within-prepend (λ ds. Unit) (Holds x 0) c (close i cs) (λ ds u. h)
      (Within-yes (λ ds. Unit) (close i cs) (λ ds. tt))
close-Holds x (suc i) (suc j) (c ∷ cs) h =
    Within-prepend (Holds x j) (Holds x (suc j)) c (close i cs) (λ ds k. k) (close-Holds x i j cs h)

pub make-Holds :
    (x : Bytes) (n j : ℕ) (cs : List (Channel Bytes)) → Holds x j cs → Holds x j (make n cs)
unfolding buffer_of holds
make-Holds x n j [] h = absurd (cc h)
make-Holds x n zero (c ∷ cs) h = h
make-Holds x n (suc j) (c ∷ cs) h = make-Holds x n j cs h

-- A payload that waits is received, or still waits.
abbrev Kept : Bytes → ℕ → Bytes × List (Channel Bytes) → Type 0
Kept x j (raw, cs) = same raw x || holds x (buffer_of j cs) ≡ true

Within-behind :
    (P Q : Bytes × List (Channel Bytes) → Type 0) (c : Channel Bytes)
    (o : Option (Bytes × List (Channel Bytes)))
    → ((raw : Bytes) (cs : List (Channel Bytes)) → P (raw, cs) → Q (raw, c ∷ cs))
    → Within P o
    → Within Q (behind c o)
Within-behind P Q c none f h = tt
Within-behind P Q c (some (raw, cs)) f h = f raw cs h

received-Kept :
    (x : Bytes) (c : Channel Bytes) (cs : List (Channel Bytes)) (waiting : List Bytes)
    → holds x waiting ≡ true
    → Within (Kept x 0) (received c cs waiting)
unfolding holds buffer_of
received-Kept x c cs [] h = tt
received-Kept x c cs (raw ∷ rest) h = h

received_others :
    (x : Bytes) (j : ℕ) (c : Channel Bytes) (cs : List (Channel Bytes)) (waiting : List Bytes)
    → Holds x j cs
    → Within (λ r. Holds x (suc j) r.1) (received c cs waiting)
unfolding buffer_of
received_others x j c cs [] h = tt
received_others x j c cs (raw ∷ rest) h = h

pub receive-Kept :
    (x : Bytes) (j : ℕ) (cs : List (Channel Bytes))
    → Holds x j cs
    → Within (Kept x j) (receive j cs)
unfolding receive buffer_of
receive-Kept x j [] h = tt
receive-Kept x zero (c ∷ cs) h = received-Kept x c cs c.buffer h
receive-Kept x (suc j) (c ∷ cs) h =
    Within-behind (Kept x j) (Kept x (suc j)) c (receive j cs) (λ raw ds k. k)
      (receive-Kept x j cs h)

pub receive_others :
    (x : Bytes) (i j : ℕ) (cs : List (Channel Bytes))
    → i ≢ j
    → Holds x j cs
    → Within (λ r. Holds x j r.1) (receive i cs)
unfolding receive buffer_of
receive_others x i j [] ne h = tt
receive_others x zero zero (c ∷ cs) ne h = absurd (ne refl)
receive_others x zero (suc j) (c ∷ cs) ne h = received_others x j c cs c.buffer h
receive_others x (suc i) zero (c ∷ cs) ne h =
    Within-behind (λ r. Unit) (λ r. Holds x 0 r.1) c (receive i cs) (λ raw ds u. h)
      (Within-yes (λ r. Unit) (receive i cs) (λ r. tt))
receive_others x (suc i) (suc j) (c ∷ cs) ne h =
    Within-behind (λ r. Holds x j r.1) (λ r. Holds x (suc j) r.1) c (receive i cs) (λ raw ds k. k)
      (receive_others x i j cs (λ e. ne (ap suc e)) h)
