-- ===== src/Tests/Commands.antt =====
-- ol1n-vault/internal/nntp/client.go: the commands at concrete inputs.
use ol1n_super_app.Base.{ℕ, ◌-◌, ◌≡◌, ◌↔◌, refl, true, false, some, [], ◌∷◌, codes, arith}
use ol1n_super_app.Nntp.Pool.{Pool, outside, release}
use ol1n_super_app.Nntp.Session.{Session, ok, broken, ◌>>=◌, or_dead, send, read_code}
use ol1n_super_app.Nntp.Commands.{Article, cmd, post, post_article, write_article}
use ol1n_super_app.Nntp.Commands.Went.{Went}
use ol1n_super_app.Nntp.Commands.Accepted.{all_lines, post_iff}
use ol1n_super_app.Nntp.Commands.Sync.{post-released}

abbrev article : Article
article = record {
  group = codes "alt.binaries.test";
  subject = codes "[1/1] cat.png yEnc (1/1)";
  sender = codes "me";
  body = codes "=ybegin";
  msg_id = codes "0a@ol1n.vault";
  date = codes "Fri, 27 Nov 2026 00:00:00 +0000";
}

abbrev willing : Session
willing = record {
  dead = false;
  closed = false;
  sent = [];
  writes = true ∷ true ∷ true ∷ true ∷ true ∷ [];
  codes_left = some 211 ∷ some 340 ∷ some 240 ∷ [];
  texts = [];
}

is_posted : (post article willing).1 ≡ ok (codes "0a@ol1n.vault")
unfolding post cmd post_article write_article or_dead send read_code ◌>>=◌
is_posted = refl

post_iff_example : ((post article willing).1 ≡ ok (codes "0a@ol1n.vault")) ↔ (
    (g : ℕ) × Went (all_lines article) (g ∷ 340 ∷ 240 ∷ []) willing (post article willing).0
    × (codes "0a@ol1n.vault" ≡ article.msg_id))
post_iff_example = post_iff article willing (codes "0a@ol1n.vault") refl

abbrev busy : Pool
busy = record { connections = 2; idle = []; sema = 1 }

-- The server goes away behind the code 340.
abbrev fading : Session
fading = record willing { codes_left = some 211 ∷ some 340 ∷ [] }

is_broken : (post article fading).1 ≡ broken
unfolding post cmd post_article write_article or_dead send read_code ◌>>=◌
is_broken = refl

post-released_example :
    release busy (record { dead = (post article fading).0.dead }) true
    ≡ some (record busy { sema = 1 - 1 }, outside)
post-released_example = post-released article fading busy true (omega arith) is_broken
