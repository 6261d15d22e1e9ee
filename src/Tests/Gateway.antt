-- ===== src/Tests/Gateway.antt =====
-- superol1n: the theorems on the gateway at concrete inputs.
use ol1n_super_app.Base.{
  ◌≡◌, ◌≢◌, ◌⊎◌, refl, Bool, true, Option, none, some, List, [], ◌∷◌, Bytes, codes,
}
use ol1n_super_app.Gateway.Http.{Request, Writer, Handler}
use ol1n_super_app.Gateway.Middleware.{Jwt, JwksCache, new_server}
use ol1n_super_app.Gateway.Access.{ByLan, ByToken, IsRefused, auth_lem, auth-lan_only}
use ol1n_super_app.Gateway.Chat.{Upstream, ChatRequest, History, chat}
use ol1n_super_app.Gateway.Streaming.{chat-never_streams}

-- A library that reads no PEM, and asks for the key "k1" of an RSA token.
abbrev email_for : Option Bytes → Option Bytes
email_for none = none
email_for (some key) = some (codes "me@example.com")

abbrev library : Jwt Bytes
library = record {
  parse_pem = λ text. none;
  parse = λ token key. email_for (key true (codes "k1"));
}

abbrev cached : JwksCache
cached = record { keys = (codes "k1", codes "{\"kid\":\"k1\"}") ∷ []; fetched = 1000 }

abbrev request : Request
request = record {
  method = codes "POST";
  header = λ key. codes "Bearer abc";
  cookie = λ name. none;
  user = none;
  content = codes "{}";
}

abbrev writer : Writer
writer = record { flushes = true; hijacks = true; headers = [] }

abbrev says_ok : Handler
says_ok w r = record { status = 200; headers = w.headers; writes = [] }

auth_lem_example :
    ByLan library (codes "secret") none 1200 cached says_ok writer request
    ⊎ (ByToken library (codes "secret") none 1200 cached says_ok writer request
        ⊎ IsRefused library (codes "secret") none 1200 cached says_ok writer request)
auth_lem_example = auth_lem library (codes "secret") none 1200 cached says_ok writer request

asks_for_key :
    (token : Bytes) (key : Bool → Bytes → Option Bytes)
    → ((is_rsa : Bool) (kid : Bytes) → key is_rsa kid ≡ none)
    → library.parse token key ≡ none
asks_for_key token key h = rw (h true (codes "k1")) refl

auth-lan_only_example :
    ByLan library (codes "secret") none 1200 cached says_ok writer request
    ⊎ IsRefused library (codes "secret") none 1200 cached says_ok writer request
auth-lan_only_example =
    auth-lan_only library (codes "secret") none 1200 cached says_ok writer request asks_for_key
      (λ keys e. cc) (refl, tt)

abbrev question : ChatRequest
question = record {
  model = codes "llama";
  messages = (codes "user", codes "hi") ∷ [];
  conversation_id = codes "c1";
}

abbrev answer_lines : List Bytes
answer_lines =
    codes "data: he" ∷ [] ∷ codes "data: llo" ∷ codes "data: [DONE]" ∷ codes "data: late" ∷ []

-- A chunk is its content.
abbrev upstream : Upstream
upstream = record {
  decode_request = λ text. some question;
  decode_chunk = λ text. some text;
  encode_chunk = λ text. text;
  error_text = codes "\"down\"";
  chat_stream = λ model messages. some answer_lines;
}

abbrev history : History
history = record { conversations = []; messages = [] }

chat-never_streams_example :
    (new_server library
      (codes "secret")
      none
      1200
      cached
      (λ v q. (chat upstream (λ k. true) (some history) v q).0)
      writer
      request).status
    ≢ 200
chat-never_streams_example =
    chat-never_streams library (codes "secret") none 1200 cached upstream (λ k. true) (some history)
      writer request
