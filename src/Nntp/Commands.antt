-- ===== src/Nntp/Commands.antt =====
-- ol1n-vault/internal/nntp/client.go: the commands of a connection. What net, tls and the deadlines do is
-- part of the script of the session.
pub mod Went
pub mod Accepted
pub mod Sync
use ol1n_super_app.Base.{
  ℕ, ◌≡◌, refl, Bool, true, false, ◌||◌, not, Option, none, some, List, [], ◌∷◌, ◌++◌, ◌==◌,
  if◌then◌else◌, Bytes, codes,
}
use ol1n_super_app.Go.Strings.{is_nil}
use ol1n_super_app.Nntp.Session.{
  line, chunk, end_of_text, Session, Answer, ok, refused, broken, Talk, next, ◌>>=◌, return, refuse,
  or_dead, send, read_code, read_text,
}

unfoldable pub cmd : Bytes → Talk ℕ
unfolding ◌>>=◌ or_dead send read_code
cmd text = or_dead (do _ ← send (line text); read_code)

unfoldable pub authenticate : Bytes → Bytes → Talk (Unit {0})
unfolding ◌>>=◌ cmd
authenticate user pass = do
  _ ← cmd (codes "AUTHINFO USER " ++ user)
  code ← cmd (codes "AUTHINFO PASS " ++ pass)
  if code == 281 then return tt else refuse code

abbrev closed_unless_ok : Session × Answer (Unit {0}) → Session × Answer (Unit {0})
closed_unless_ok (s, ok u) = (s, ok u)
closed_unless_ok (s, refused code) = (record s { closed = true }, refused code)
closed_unless_ok (s, broken) = (record s { closed = true }, broken)

welcomed : ℕ → Bytes → Bytes → Talk (Unit {0})
unfolding authenticate
welcomed code user pass =
    if not (code == 200 || code == 201)
    then refuse code
    else if is_nil user
    then return tt
    else authenticate user pass

greet : Bytes → Bytes → Talk (Unit {0})
unfolding ◌>>=◌ read_code welcomed
greet user pass = do code ← read_code; welcomed code user pass

-- `dial`, once the network has connected.
unfoldable pub dial : Bytes → Bytes → Talk (Unit {0})
unfolding greet
dial user pass s = closed_unless_ok (greet user pass s)

-- What the caller gives to `post`, with the new id and the date.
pub record Article : Type 0 where
  pub group : Bytes
  pub subject : Bytes
  pub sender : Bytes  -- the parameter `from`
  pub body : Bytes
  pub msg_id : Bytes
  pub date : Bytes

unfoldable pub article_header : Article → Bytes
article_header a =
    codes "From: "
    ++ (a.sender
        ++ (codes "\r\nNewsgroups: "
            ++ (a.group
                ++ (codes "\r\nSubject: "
                    ++ (a.subject
                        ++ (codes "\r\nMessage-ID: <"
                            ++ (a.msg_id
                                ++ (codes ">\r\nDate: " ++ (a.date ++ codes "\r\n\r\n")))))))))

-- The text behind the code 340, and the server's verdict.
unfoldable pub write_article : Article → Talk Bytes
unfolding ◌>>=◌ or_dead send read_code article_header
write_article a = do
  _ ← or_dead (send (chunk (article_header a)))
  _ ← or_dead (send (chunk a.body))
  _ ← or_dead (send end_of_text)
  code ← or_dead read_code
  if code == 240 then return a.msg_id else refuse code

unfoldable pub post_article : Article → Talk Bytes
unfolding ◌>>=◌ cmd write_article
post_article a = do code ← cmd (codes "POST"); if code == 340 then write_article a else refuse code

abbrev group_code : Bytes → Talk ℕ
group_code group = if is_nil group then return 0 else cmd (codes "GROUP " ++ group)

unfoldable pub post : Article → Talk Bytes
unfolding ◌>>=◌ cmd post_article
post a = do _ ← group_code a.group; post_article a

unfoldable pub body : Bytes → Talk Bytes
unfolding ◌>>=◌ or_dead send read_code read_text
body message_id = do
  code ← or_dead (do _ ← send (line (codes "BODY <" ++ (message_id ++ codes ">"))); read_code)
  if code == 222 then or_dead read_text else refuse code

-- `close`: QUIT, and then the connection, whatever comes back.
unfoldable pub close_conn : Session → Session
unfolding cmd
close_conn s = record (cmd (codes "QUIT") s).0 { closed = true }
