-- ===== src/Nntp/Commands/Accepted.antt =====
-- What has been said when a command has ended well.
use ol1n_super_app.Base.{
  ℕ, ◌≡◌, ◌↔◌, refl, ap, sym, subst, ◌∙◌, Bool, true, false, Option, some, List, [], ◌∷◌, ◌++◌,
  ◌==◌, if◌then◌else◌, Bytes, codes,
}
use ol1n_super_app.Go.Strings.{is_nil}
use ol1n_super_app.Nntp.Session.{
  Sent, line, chunk, end_of_text, Session, ok, Talk, ◌>>=◌, return, refuse, or_dead, send,
  read_code, bind-ok,
}
use ol1n_super_app.Nntp.Commands.{
  cmd, Article, article_header, write_article, post_article, group_code, post,
}
use ol1n_super_app.Nntp.Commands.Went.{
  Went, Went-trans, read_code-Went, bind-Went, last_of, or_dead-Went, cmd-Went, send_dead-Went,
  code-ok,
}

module _ (a : Article) where
  abbrev verdict : ℕ → Talk Bytes
  verdict code = if code == 240 then return a.msg_id else refuse code

  abbrev heard_verdict : Unit {0} → Talk Bytes
  heard_verdict u = or_dead read_code >>= verdict

  abbrev ended : Unit {0} → Talk Bytes
  ended u = or_dead (send end_of_text) >>= heard_verdict

  abbrev with_body : Unit {0} → Talk Bytes
  with_body u = or_dead (send (chunk a.body)) >>= ended

  heard_verdict-Went :
      (u : Unit {0}) (s : Session) (id : Bytes)
      → (heard_verdict u s).1 ≡ ok id
      → Went [] (240 ∷ []) s (heard_verdict u s).0 × (id ≡ a.msg_id)
  heard_verdict-Went u s id h =
      let (code, e, h', at) = bind-ok (or_dead read_code) verdict s id h in
      let (is_code, e', at') = code-ok code 240 (return a.msg_id) (or_dead read_code s).0 id h' in
      (
        subst (λ r. Went [] (240 ∷ []) s r.0) (sym (at ∙ at'))
            (subst (λ c. Went [] (c ∷ []) s (or_dead read_code s).0) is_code
              (or_dead-Went read_code [] (code ∷ []) s code (read_code-Went s code) e)),
        cc,
      )

  write_article-Went :
      (s : Session) (id : Bytes)
      → (write_article a s).1 ≡ ok id
      → Went
          (chunk (article_header a) ∷ chunk a.body ∷ end_of_text ∷ [])
          (240 ∷ [])
          s
          (write_article a s).0
  unfolding write_article
  write_article-Went s id h =
      bind-Went (or_dead (send (chunk (article_header a)))) with_body
        (chunk (article_header a) ∷ []) (chunk a.body ∷ end_of_text ∷ []) [] (240 ∷ []) s id
        (send_dead-Went (chunk (article_header a)) s)
        (λ u t.
          bind-Went (or_dead (send (chunk a.body))) ended (chunk a.body ∷ []) (end_of_text ∷ []) []
            (240 ∷ []) t id (send_dead-Went (chunk a.body) t)
            (λ u t.
              bind-Went (or_dead (send end_of_text)) heard_verdict (end_of_text ∷ []) [] []
                (240 ∷ []) t id (send_dead-Went end_of_text t)
                (λ u t e. (heard_verdict-Went u t id e).0)))
        h

  write_article-id : (s : Session) (id : Bytes) → (write_article a s).1 ≡ ok id → id ≡ a.msg_id
  unfolding write_article
  write_article-id s id h =
      last_of (id ≡ a.msg_id) (or_dead (send (chunk (article_header a)))) with_body s id
        (λ u t. last_of (id ≡ a.msg_id) (or_dead (send (chunk a.body))) ended t id (λ u t.
          last_of (id ≡ a.msg_id) (or_dead (send end_of_text)) heard_verdict t id
            (λ u t e. (heard_verdict-Went u t id e).1)))
        h

  abbrev allowed : ℕ → Talk Bytes
  allowed code = if code == 340 then write_article a else refuse code

  abbrev pub article_lines : List Sent
  article_lines = line (codes "POST") ∷ chunk (article_header a) ∷ chunk a.body ∷ end_of_text ∷ []

  post_article-Went :
      (s : Session) (id : Bytes)
      → (post_article a s).1 ≡ ok id
      → Went article_lines (340 ∷ 240 ∷ []) s (post_article a s).0 × (id ≡ a.msg_id)
  unfolding post_article
  post_article-Went s id h =
      let (code, e, h', at) = bind-ok (cmd (codes "POST")) allowed s id h in
      let (is_code, e', at') = code-ok code 340 (write_article a) (cmd (codes "POST") s).0 id h' in
      (
        subst (λ r. Went article_lines (340 ∷ 240 ∷ []) s r.0) (sym (at ∙ at'))
            (Went-trans (line (codes "POST") ∷ []) _ (340 ∷ []) (240 ∷ []) s
              (cmd (codes "POST") s).0 _
              (subst (λ c. Went (line (codes "POST") ∷ []) (c ∷ []) s (cmd (codes "POST") s).0)
                is_code (cmd-Went (codes "POST") s code e))
              (write_article-Went (cmd (codes "POST") s).0 id e')),
        write_article-id (cmd (codes "POST") s).0 id e',
      )

  abbrev then_post : ℕ → Talk Bytes
  then_post code = post_article a

  abbrev pub all_lines : List Sent
  all_lines = line (codes "GROUP " ++ a.group) ∷ article_lines

  post-Went :
      (s : Session) (id : Bytes)
      → is_nil a.group ≡ false
      → (post a s).1 ≡ ok id
      → (g : ℕ) × Went all_lines (g ∷ 340 ∷ 240 ∷ []) s (post a s).0 × (id ≡ a.msg_id)
  unfolding post
  post-Went s id some_group h =
      let (g, e, h', at) = bind-ok (group_code a.group) then_post s id h in
      let same_talk : group_code a.group ≡ cmd (codes "GROUP " ++ a.group) = rw some_group refl in
      let (went, same_id) = post_article-Went (group_code a.group s).0 id h' in
      (
        g,
        subst (λ r. Went all_lines (g ∷ 340 ∷ 240 ∷ []) s r.0) (sym at)
            (Went-trans (line (codes "GROUP " ++ a.group) ∷ []) article_lines (g ∷ [])
              (340 ∷ 240 ∷ []) s (group_code a.group s).0 _
              (subst (λ m. Went (line (codes "GROUP " ++ a.group) ∷ []) (g ∷ []) s (m s).0)
                (sym same_talk)
                (cmd-Went (codes "GROUP " ++ a.group) s g
                  (subst (λ m. (m s).1 ≡ ok g) same_talk e)))
              went),
        same_id,
      )

  answered :
      (s : Session) (g : ℕ) (ws : List Bool) (cs : List (Option ℕ))
      → is_nil a.group ≡ false
      → s.writes ≡ true ∷ true ∷ true ∷ true ∷ true ∷ ws
      → s.codes_left ≡ some g ∷ some 340 ∷ some 240 ∷ cs
      → (post a s).1 ≡ ok a.msg_id
  unfolding post cmd post_article write_article send read_code or_dead ◌>>=◌
  answered s g ws cs some_group w c =
      subst (λ z. (post a (record s { codes_left = z })).1 ≡ ok a.msg_id) (sym c)
        (subst
          (λ z.
            (post a (record s { writes = z; codes_left = some g ∷ some 340 ∷ some 240 ∷ cs })).1
            ≡ ok a.msg_id)
          (sym w) (rw some_group refl))

-- `post` in a newsgroup that has a name returns an id exactly when it is the article's own, the lines
-- GROUP and POST, the header, the body and the end of the text went out in this order, the server
-- answered with any code, 340 and 240, and no other write and no other answer was used, so that the
-- connection is as alive and as open as before.
pub post_iff :
    (a : Article) (s : Session) (id : Bytes)
    → is_nil a.group ≡ false
    → ((post a s).1 ≡ ok id)
      ↔ ((g : ℕ) × Went (all_lines a) (g ∷ 340 ∷ 240 ∷ []) s (post a s).0 × (id ≡ a.msg_id))
post_iff a s id some_group = (
  post-Went a s id some_group,
  λ (g, went, same_id).
      answered a s g (post a s).0.writes (post a s).0.codes_left some_group went.written went.heard
      ∙ ap ok (sym same_id),
)
