-- ===== src/Gateway/Nim.antt =====
-- superol1n/internal/modules/ai/client.go, and `Models` and `NewConversation` of handler.go. JSON texts, the
-- scanner of lines and the upstream service are parameters.
pub mod Saved
use ol1n_super_app.Base.{
  ℕ, Bool, true, false, not, Option, none, some, List, [], ◌∷◌, ◌++◌, ◌==◌, if◌then◌else◌, Bytes,
  codes, same,
}
use ol1n_super_app.Go.Strings.{is_nil}
use ol1n_super_app.Gateway.Http.{Headers, Writer, Reply, set_header, http_error}
use ol1n_super_app.Gateway.Chat.{Message, Upstream}

pub record Client : Type 0 where
  pub base_url : Bytes
  pub api_key : Bytes
  pub cf_client_id : Bytes
  pub cf_secret : Bytes

pub record Request : Type 0 where
  pub method : Bytes
  pub url : Bytes
  pub headers : Headers
  pub body : Option Bytes

-- `valid_url`: `NewRequest` takes it. `exchange` is `none` for a request that fails. `marshal` has the
-- model, the messages and `stream`; `decode_ids` is the id of each model; `encode_names` is the list in
-- the format of Ollama.
pub record Service : Type 0 where
  pub valid_url : Bytes → Bool
  pub exchange : Request → Option (ℕ × Bytes)
  pub lines_of : Bytes → List Bytes
  pub marshal : Bytes → List Message → Bool → Option Bytes
  pub decode_ids : Bytes → Option (List Bytes)
  pub encode_names : List Bytes → Option Bytes
  pub encode_conversation : Bytes → Bytes

abbrev has_body : Option Bytes → Bool
has_body none = false
has_body (some body) = true

unfoldable pub headers_of : Client → Option Bytes → Headers
unfolding set_header
headers_of c body =
    let bearer = set_header (codes "Authorization") (codes "Bearer " ++ c.api_key) [] in
    let access =
      if is_nil c.cf_client_id
      then bearer
      else set_header (codes "CF-Access-Client-Secret") c.cf_secret
          (set_header (codes "CF-Access-Client-Id") c.cf_client_id bearer) in
    if has_body body
    then set_header (codes "Content-Type") (codes "application/json") access
    else access

abbrev pub request_to : Client → Bytes → Bytes → Option Bytes → Request
unfolding headers_of
request_to c method path body = record {
  method = method;
  url = c.base_url ++ path;
  headers = headers_of c body;
  body = body;
}

abbrev of_status : Service → ℕ → Bytes → Option (List Bytes)
of_status v status raw = if status == 200 then some (v.lines_of raw) else none

abbrev of_answer : Service → Option (ℕ × Bytes) → Option (List Bytes)
of_answer v none = none
of_answer v (some (status, raw)) = of_status v status raw

module _ (c : Client) (v : Service) where
  -- `do`
  unfoldable pub send : Bytes → Bytes → Option Bytes → Option (ℕ × Bytes)
  unfolding headers_of
  send method path body =
      if not (v.valid_url (c.base_url ++ path))
      then none
      else v.exchange (request_to c method path body)

  abbrev pub marshalled : Option Bytes → Option (List Bytes)
  unfolding send
  marshalled none = none
  marshalled (some body) =
      of_answer v (send (codes "POST") (codes "/v1/chat/completions") (some body))

  -- `ChatStream`, with the lines that the scanner reads from the body.
  unfoldable pub chat_stream : Bytes → List Message → Option (List Bytes)
  chat_stream model messages = marshalled (v.marshal model messages true)

  -- `Chat` with this client.
  abbrev pub with_client : Upstream → Upstream
  with_client u = record u { chat_stream = chat_stream }

  abbrev renamed : Option (List Bytes) → Option Bytes
  renamed none = none
  renamed (some ids) = v.encode_names ids

  abbrev listed : Option (ℕ × Bytes) → Option Bytes
  listed none = none
  listed (some (status, raw)) = renamed (v.decode_ids raw)

  -- `Models` of the client and of the handler; the status of the answer is not looked at.
  unfoldable pub list_models : Option Bytes
  unfolding send
  list_models = listed (send (codes "GET") (codes "/v1/models") none)

  abbrev answer_models : Writer → Option Bytes → Reply
  answer_models w none = http_error w (codes "upstream error") 502
  answer_models w (some text) = record {
    status = 200;
    headers = set_header (codes "Content-Type") (codes "application/json") w.headers;
    writes = text ∷ [];
  }

  unfoldable pub models : Writer → Reply
  unfolding list_models
  models w = answer_models w list_models

  abbrev is_ok : Option (ℕ × Bytes) → Bool
  is_ok none = false
  is_ok (some (status, raw)) = status == 200

  unfoldable pub is_healthy : Bool
  unfolding send
  is_healthy = is_ok (send (codes "GET") (codes "/v1/models") none)

  -- `NewConversation`, with the id that is drawn.
  unfoldable pub new_conversation : Bytes → Writer → Reply
  unfolding set_header
  new_conversation id w = record {
    status = 200;
    headers = set_header (codes "Content-Type") (codes "application/json") w.headers;
    writes = v.encode_conversation id ∷ [];
  }
