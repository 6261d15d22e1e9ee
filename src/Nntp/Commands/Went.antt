-- ===== src/Nntp/Commands/Went.antt =====
-- What commands have sent and read when they went through.
use ol1n_super_app.Base.{
  map-append, ℕ, ◌≡◌, refl, ap, sym, subst, ◌∙◌, Bool, true, false, Option, none, some, List, [],
  ◌∷◌, ◌++◌, ◌==◌, ==_iff, if◌then◌else◌, Bytes, map, append_assoc, append-nil, Bool-cases, inl,
  inr,
}
use ol1n_super_app.Nntp.Session.{
  read_by, sent_by, Sent, line, Session, Answer, ok, refused, broken, Talk, ◌>>=◌, refuse, mark,
  or_dead, send, read_code, bind-ok,
}
use ol1n_super_app.Nntp.Commands.{cmd}

-- From `s` to `t` these writes went through, these code lines came, and nothing else changed.
pub record Went (xs : List Sent) (cs : List ℕ) (s t : Session) : Type 0 where
  pub said : t.sent ≡ s.sent ++ xs
  pub written : s.writes ≡ map (λ x. true) xs ++ t.writes
  pub heard : s.codes_left ≡ map some cs ++ t.codes_left
  pub same_dead : t.dead ≡ s.dead
  pub same_closed : t.closed ≡ s.closed
  pub same_texts : t.texts ≡ s.texts

pub split_at {ℓ κ} :
    {A : Type ℓ} {B : Type κ} (f : A → B) (xs ys : List A) (us vs ws : List B)
    → us ≡ map f xs ++ vs
    → vs ≡ map f ys ++ ws
    → us ≡ map f (xs ++ ys) ++ ws
split_at f xs ys us vs ws h k =
    rw (map-append f xs ys)
      (rw (append_assoc (map f xs) (map f ys) ws) (h ∙ ap (◌++◌ (map f xs)) k))

pub Went-trans :
    (xs ys : List Sent) (cs ds : List ℕ) (s t u : Session)
    → Went xs cs s t
    → Went ys ds t u
    → Went (xs ++ ys) (cs ++ ds) s u
Went-trans xs ys cs ds s t u p q = record {
  said = q.said ∙ ap (λ z. z ++ ys) p.said ∙ append_assoc s.sent xs ys;
  written = split_at (λ x. true) xs ys s.writes t.writes u.writes p.written q.written;
  heard = split_at some cs ds s.codes_left t.codes_left u.codes_left p.heard q.heard;
  same_dead = q.same_dead ∙ p.same_dead;
  same_closed = q.same_closed ∙ p.same_closed;
  same_texts = q.same_texts ∙ p.same_texts;
}

pub or_dead-ok {ℓ} :
    {A : Type ℓ} (m : Talk A) (s : Session) (a : A)
    → (or_dead m s).1 ≡ ok a
    → ((m s).1 ≡ ok a) × ((or_dead m s).0 ≡ (m s).0)
unfolding or_dead
or_dead-ok {A = A} m s a h = went (m s) h
  where
    went : (r : Session × Answer A) → (mark r).1 ≡ ok a → (r.1 ≡ ok a) × ((mark r).0 ≡ r.0)
    went (t, ok b) h = (h, refl)
    went (t, refused code) h = cc
    went (t, broken) h = cc

pub send-Went :
    (x : Sent) (s : Session) (u : Unit {0}) → (send x s).1 ≡ ok u → Went (x ∷ []) [] s (send x s).0
unfolding send
send-Went x s u h = went s.writes refl h
  where
    went :
        (ws : List Bool)
        → s.writes ≡ ws
        → (sent_by s x ws).1 ≡ ok u
        → Went (x ∷ []) [] s (sent_by s x ws).0
    went [] e h = cc
    went (false ∷ ws) e h = cc
    went (true ∷ ws) e h = record {
      said = refl;
      written = e;
      heard = refl;
      same_dead = refl;
      same_closed = refl;
      same_texts = refl;
    }

pub read_code-Went :
    (s : Session) (code : ℕ) → (read_code s).1 ≡ ok code → Went [] (code ∷ []) s (read_code s).0
unfolding read_code
read_code-Went s code h = went s.codes_left refl h
  where
    went :
        (cs : List (Option ℕ))
        → s.codes_left ≡ cs
        → (read_by s cs).1 ≡ ok code
        → Went [] (code ∷ []) s (read_by s cs).0
    went [] e h = cc
    went (none ∷ cs) e h = cc
    went (some c ∷ cs) e h = record {
      said = sym (append-nil s.sent);
      written = refl;
      heard = e ∙ cc;
      same_dead = refl;
      same_closed = refl;
      same_texts = refl;
    }

-- One talk after the other.
pub bind-Went {ℓ κ} :
    {A : Type ℓ} {B : Type κ} (m : Talk A) (f : A → Talk B) (xs ys : List Sent) (cs ds : List ℕ)
    (s : Session) (b : B)
    → ((a : A) → (m s).1 ≡ ok a → Went xs cs s (m s).0)
    → ((a : A) (t : Session) → (f a t).1 ≡ ok b → Went ys ds t (f a t).0)
    → ((m >>= f) s).1 ≡ ok b
    → Went (xs ++ ys) (cs ++ ds) s ((m >>= f) s).0
bind-Went m f xs ys cs ds s b here there h =
    let (a, e, h', at) = bind-ok m f s b h in
    subst (λ r. Went (xs ++ ys) (cs ++ ds) s r.0) (sym at)
      (Went-trans xs ys cs ds s (m s).0 (f a (m s).0).0 (here a e) (there a (m s).0 h'))

-- What the last talk ends with.
pub last_of {ℓ κ μ} :
    {A : Type ℓ} {B : Type κ} (P : Type μ) (m : Talk A) (f : A → Talk B) (s : Session) (b : B)
    → ((a : A) (t : Session) → (f a t).1 ≡ ok b → P)
    → ((m >>= f) s).1 ≡ ok b
    → P
last_of P m f s b there h = let (a, e, h', at) = bind-ok m f s b h in there a (m s).0 h'

pub or_dead-Went {ℓ} :
    {A : Type ℓ} (m : Talk A) (xs : List Sent) (cs : List ℕ) (s : Session) (a : A)
    → ((m s).1 ≡ ok a → Went xs cs s (m s).0)
    → (or_dead m s).1 ≡ ok a
    → Went xs cs s (or_dead m s).0
or_dead-Went m xs cs s a went h =
    let (e, same_state) = or_dead-ok m s a h in
    subst (λ t. Went xs cs s t) (sym same_state) (went e)

pub cmd-Went :
    (text : Bytes) (s : Session) (code : ℕ)
    → (cmd text s).1 ≡ ok code
    → Went (line text ∷ []) (code ∷ []) s (cmd text s).0
unfolding cmd
cmd-Went text s code h =
    or_dead-Went (send (line text) >>= (λ _. read_code)) (line text ∷ []) (code ∷ []) s code
      (bind-Went (send (line text)) (λ _. read_code) (line text ∷ []) [] [] (code ∷ []) s code
        (λ u e. send-Went (line text) s u e) (λ u t e. read_code-Went t code e))
      h

pub send_dead-Went :
    (x : Sent) (s : Session) (u : Unit {0})
    → (or_dead (send x) s).1 ≡ ok u
    → Went (x ∷ []) [] s (or_dead (send x) s).0
send_dead-Went x s u h = or_dead-Went (send x) (x ∷ []) [] s u (send-Went x s u) h

-- A test on a code that ends well had the code.
pub code-ok {ℓ} :
    {A : Type ℓ} (code wanted : ℕ) (m : Talk A) (s : Session) (a : A)
    → ((if code == wanted then m else refuse code) s).1 ≡ ok a
    → (code ≡ wanted) × ((m s).1 ≡ ok a) × ((if code == wanted then m else refuse code) s ≡ m s)
code-ok code wanted m s a h = elim (Bool-cases (code == wanted)) [
  | inl e ↦ ((==_iff code wanted).0 e, rw e at h, rw e refl)
  | inr e ↦ absurd (cc (rw e at h))
]
