-- ===== src/Nntp/Session.antt =====
-- A connection of ol1n-vault/internal/nntp/client.go as a script: whether each write goes through, the
-- code lines that the server sends, and the dotted texts behind them; and what was written so far. A code
-- line that cannot be read is `none`; where a list has ended, the connection is gone.
use ol1n_super_app.Base.{
  ℕ, ◌≡◌, refl, ap, Bool, true, false, Option, none, some, List, [], ◌∷◌, ◌++◌, Bytes,
}
use ol1n_super_app.Go.Textproto.{line_start, dot_read}

-- `Cmd`, and the writes of a `DotWriter`.
pub data Sent : Type 0 where
  line chunk : Bytes → Sent
  end_of_text : Sent

pub record Session : Type 0 where
  pub dead : Bool
  pub closed : Bool
  pub sent : List Sent  -- the oldest first
  pub writes : List Bool
  pub codes_left : List (Option ℕ)
  pub texts : List Bytes

-- An error of the network, or a code that is not the one wanted.
pub data Answer {ℓ} (A : Type ℓ) : Type ℓ where
  ok : A → Answer A
  refused : ℕ → Answer A
  broken : Answer A

abbrev pub Talk {ℓ} : Type ℓ → Type ℓ
Talk A = Session → Session × Answer A

abbrev pub next {ℓ κ} :
    {A : Type ℓ} {B : Type κ} → (A → Talk B) → Session × Answer A → Session × Answer B
next f (s, ok a) = f a s
next f (s, refused code) = (s, refused code)
next f (s, broken) = (s, broken)

infixl 5 ◌>>=◌
unfoldable pub ◌>>=◌ {ℓ κ} : {A : Type ℓ} {B : Type κ} → Talk A → (A → Talk B) → Talk B
(m >>= f) s = next f (m s)

abbrev pub return {ℓ} : {A : Type ℓ} → A → Talk A
return a s = (s, ok a)

abbrev pub refuse {ℓ} : {A : Type ℓ} → ℕ → Talk A
refuse code s = (s, refused code)

-- `c.dead = true` behind an error of the network.
abbrev pub mark {ℓ} : {A : Type ℓ} → Session × Answer A → Session × Answer A
mark (s, ok a) = (s, ok a)
mark (s, refused code) = (s, refused code)
mark (s, broken) = (record s { dead = true }, broken)

unfoldable pub or_dead {ℓ} : {A : Type ℓ} → Talk A → Talk A
or_dead m s = mark (m s)

abbrev pub sent_by : Session → Sent → List Bool → Session × Answer (Unit {0})
sent_by s x [] = (s, broken)
sent_by s x (false ∷ ws) = (record s { writes = ws }, broken)
sent_by s x (true ∷ ws) = (record s { writes = ws; sent = s.sent ++ (x ∷ []) }, ok tt)

unfoldable pub send : Sent → Talk (Unit {0})
send x s = sent_by s x s.writes

abbrev pub read_by : Session → List (Option ℕ) → Session × Answer ℕ
read_by s [] = (s, broken)
read_by s (none ∷ cs) = (record s { codes_left = cs }, broken)
read_by s (some code ∷ cs) = (record s { codes_left = cs }, ok code)

-- `ReadCodeLine(-1)`
unfoldable pub read_code : Talk ℕ
read_code s = read_by s s.codes_left

abbrev pub text_of : Option Bytes → Answer Bytes
text_of none = broken
text_of (some text) = ok text

abbrev pub read_text_by : Session → List Bytes → Session × Answer Bytes
read_text_by s [] = (s, broken)
read_text_by s (wire ∷ ws) = (record s { texts = ws }, text_of (dot_read line_start wire))

-- `io.ReadAll(c.tp.DotReader())`
unfoldable pub read_text : Talk Bytes
unfolding dot_read
read_text s = read_text_by s s.texts

-- What a talk that ends well went through.
module _ {ℓ κ} {A : Type ℓ} {B : Type κ} where
  pub bind-ok :
      (m : Talk A) (f : A → Talk B) (s : Session) (b : B)
      → ((m >>= f) s).1 ≡ ok b
      → (a : A) × ((m s).1 ≡ ok a) × ((f a (m s).0).1 ≡ ok b) × ((m >>= f) s ≡ f a (m s).0)
  unfolding ◌>>=◌
  bind-ok m f s b h = went (m s) refl h
    where
      went :
          (r : Session × Answer A)
          → m s ≡ r
          → (next f r).1 ≡ ok b
          → (a : A) × ((m s).1 ≡ ok a) × ((f a (m s).0).1 ≡ ok b) × (next f r ≡ f a (m s).0)
      went (t, ok a) e g = (a, ap (λ r. r.1) e, rw e g, rw e refl)
      went (t, refused code) e g = cc
      went (t, broken) e g = cc
