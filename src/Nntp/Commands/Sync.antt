-- ===== src/Nntp/Commands/Sync.antt =====
-- What is left of a connection on which the network has failed.
use ol1n_super_app.Base.{
  ℕ, ◌≡◌, ◌≢◌, ◌-◌, refl, ap, subst, Bool, true, false, some, ◌++◌, ◌==◌, if◌then◌else◌, Bytes,
  codes, arith,
}
use ol1n_super_app.Go.Strings.{is_nil}
use ol1n_super_app.Nntp.Pool.{Pool, outside, release, give_back}
use ol1n_super_app.Nntp.Session.{
  line, chunk, end_of_text, Session, Answer, ok, refused, broken, Talk, next, ◌>>=◌, return, refuse,
  mark, or_dead, send, read_code, read_text,
}
use ol1n_super_app.Nntp.Commands.{
  cmd, Article, article_header, write_article, post_article, post, body,
}

-- An error of the network leaves the connection marked.
record MarksDead {ℓ} {A : Type ℓ} (m : Talk A) : Type ℓ where
  marks : (s : Session) → (m s).1 ≡ broken → (m s).0.dead ≡ true

bind-MarksDead {ℓ κ} :
    {A : Type ℓ} {B : Type κ} {m : Talk A} {f : A → Talk B}
    → MarksDead m
    → ((a : A) → MarksDead (f a))
    → MarksDead (m >>= f)
unfolding ◌>>=◌
bind-MarksDead {A = A} {B = B} {m = m} {f = f} here later = record {
  marks = λ s h. went s (m s) refl h;
}
  where
    went :
        (s : Session) (r : Session × Answer A)
        → m s ≡ r
        → (next f r).1 ≡ broken
        → (next f r).0.dead ≡ true
    went s (t, ok a) e g = (later a).marks t g
    went s (t, refused code) e g = cc
    went s (t, broken) e g = subst (λ r. r.0.dead ≡ true) e (here.marks s (ap (λ r. r.1) e))

or_dead-MarksDead {ℓ} : {A : Type ℓ} (m : Talk A) → MarksDead (or_dead m)
unfolding or_dead
or_dead-MarksDead {A = A} m = record { marks = λ s h. went (m s) h }
  where
    went : (r : Session × Answer A) → (mark r).1 ≡ broken → (mark r).0.dead ≡ true
    went (t, ok a) h = cc
    went (t, refused code) h = cc
    went (t, broken) h = refl

if-MarksDead {ℓ} :
    {A : Type ℓ} (b : Bool) {m n : Talk A}
    → MarksDead m
    → MarksDead n
    → MarksDead (if b then m else n)
if-MarksDead true hm hn = hm
if-MarksDead false hm hn = hn

return-MarksDead {ℓ} : {A : Type ℓ} (a : A) → MarksDead (return a)
return-MarksDead a = record { marks = λ s h. cc }

refuse-MarksDead {ℓ} : {A : Type ℓ} (code : ℕ) → MarksDead {A = A} (refuse code)
refuse-MarksDead code = record { marks = λ s h. cc }

cmd-MarksDead : (text : Bytes) → MarksDead (cmd text)
unfolding cmd
cmd-MarksDead text = or_dead-MarksDead (send (line text) >>= (λ u. read_code))

write_article-MarksDead : (a : Article) → MarksDead (write_article a)
unfolding write_article
write_article-MarksDead a =
    bind-MarksDead (or_dead-MarksDead (send (chunk (article_header a)))) (λ u.
      bind-MarksDead (or_dead-MarksDead (send (chunk a.body))) (λ u.
        bind-MarksDead (or_dead-MarksDead (send end_of_text)) (λ u.
          bind-MarksDead (or_dead-MarksDead read_code) (λ code.
            if-MarksDead (code == 240) (return-MarksDead a.msg_id) (refuse-MarksDead code)))))

post-MarksDead : (a : Article) → MarksDead (post a)
unfolding post post_article
post-MarksDead a =
    bind-MarksDead
      (if-MarksDead (is_nil a.group) (return-MarksDead 0)
        (cmd-MarksDead (codes "GROUP " ++ a.group)))
      (λ g.
        bind-MarksDead (cmd-MarksDead (codes "POST"))
          (λ code. if-MarksDead (code == 340) (write_article-MarksDead a) (refuse-MarksDead code)))

body-MarksDead : (id : Bytes) → MarksDead (body id)
unfolding body
body-MarksDead id =
    bind-MarksDead
      (or_dead-MarksDead (send (line (codes "BODY <" ++ (id ++ codes ">"))) >>= (λ u. read_code)))
      (λ code. if-MarksDead (code == 222) (or_dead-MarksDead read_text) (refuse-MarksDead code))

released :
    (p : Pool) (dead keep : Bool)
    → p.sema ≢ 0
    → dead ≡ true
    → release p (record { dead = dead }) keep ≡ some (record p { sema = p.sema - 1 }, outside)
unfolding release give_back
released p dead keep h e = ground arith

-- A connection on which the network failed while it posted is never used again: when its caller, who
-- holds a token, gives it back, the token is freed and the connection does not get into the idle ones,
-- whether the caller asks to keep it or not.
pub post-released :
    (a : Article) (s : Session) (p : Pool) (keep : Bool)
    → p.sema ≢ 0
    → (post a s).1 ≡ broken
    → release p (record { dead = (post a s).0.dead }) keep
      ≡ some (record p { sema = p.sema - 1 }, outside)
post-released a s p keep h e = released p _ keep h ((post-MarksDead a).marks s e)

-- The same of a connection on which the network failed while it read a body.
pub body-released :
    (id : Bytes) (s : Session) (p : Pool) (keep : Bool)
    → p.sema ≢ 0
    → (body id s).1 ≡ broken
    → release p (record { dead = (body id s).0.dead }) keep
      ≡ some (record p { sema = p.sema - 1 }, outside)
body-released id s p keep h e = released p _ keep h ((body-MarksDead id).marks s e)
