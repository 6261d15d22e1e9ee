-- ===== src/Gateway/Chat.antt =====
-- superol1n/internal/modules/ai/handler.go: `Chat` and `saveConversation`. JSON texts and the upstream
-- service are parameters: the lines of the answer are those that the scanner gives.
use ol1n_super_app.Base.{
  suc, ℕ, Bool, true, false, not, Option, none, some, List, [], ◌∷◌, ◌++◌, if◌then◌else◌, Bytes,
  codes, same,
}
use ol1n_super_app.Go.Strings.{is_nil, strip_prefix}
use ol1n_super_app.Gateway.Http.{Request, Writer, Reply, set_header, http_error}

-- A role and a content.
abbrev pub Message : Type 0
Message = Bytes × Bytes

pub record ChatRequest : Type 0 where
  pub model : Bytes
  pub messages : List Message
  pub conversation_id : Bytes

pub record Upstream : Type 0 where
  pub decode_request : Bytes → Option ChatRequest
  pub decode_chunk : Bytes → Option Bytes  -- the content of the first choice, if there is one
  pub encode_chunk : Bytes → Bytes
  pub error_text : Bytes  -- the error of `ChatStream`, quoted
  pub chat_stream : Bytes → List Message → Option (List Bytes)

-- What the loop has written, and `fullResponse`.
abbrev pub Streamed : Type 0
Streamed = List Bytes × Bytes

abbrev pub event : Bytes → Bytes
event text = codes "data: " ++ (text ++ codes "\n\n")

abbrev pub add_chunk : Upstream → Option Bytes → Streamed → Streamed
add_chunk u none rest = rest
add_chunk u (some content) (writes, response) =
    (event (u.encode_chunk content) ∷ writes, content ++ response)

abbrev pub read_line : Upstream → Option Bytes → Streamed → Streamed
read_line u none rest = rest
read_line u (some payload) rest =
    if same payload (codes "[DONE]") then ([], []) else add_chunk u (u.decode_chunk payload) rest

-- The loop over the lines.
unfoldable pub stream_lines : Upstream → List Bytes → Streamed
unfolding strip_prefix same
stream_lines u [] = ([], [])
stream_lines u (l ∷ ls) = read_line u (strip_prefix (codes "data: ") l) (stream_lines u ls)

-- The tables conversations and messages; the columns that the database fills are left out.
pub record History : Type 0 where
  pub conversations : List Bytes
  pub messages : List (Bytes × Message)

unfoldable pub has_conversation : Bytes → List Bytes → Bool
unfolding same
has_conversation id [] = false
has_conversation id (c ∷ cs) = if same c id then true else has_conversation id cs

-- Each statement on its own, in order: does it go through? The first inserts the conversation.
abbrev pub insert_message : Bool → Bytes → Message → History → History
insert_message false id m h = h
insert_message true id m h = record h { messages = h.messages ++ ((id, m) ∷ []) }

unfoldable pub insert_messages : (ℕ → Bool) → ℕ → Bytes → List Message → History → History
insert_messages works k id [] h = h
insert_messages works k id (m ∷ ms) h =
    insert_messages works (suc k) id ms (insert_message (works k) id m h)

unfoldable pub save_conversation : (ℕ → Bool) → Bytes → List Message → Bytes → History → History
unfolding has_conversation insert_messages
save_conversation works id messages response h =
    if not (works 0)
    then h
    else insert_messages works 1 id (messages ++ ((codes "assistant", response) ∷ [])) (
        if has_conversation id h.conversations
        then h
        else record h { conversations = h.conversations ++ (id ∷ []) })

abbrev pub stream_headers : Writer → Writer
stream_headers w = record w {
  headers = set_header (codes "X-Accel-Buffering") (codes "no") (
      set_header (codes "Connection") (codes "keep-alive") (
        set_header (codes "Cache-Control") (codes "no-cache")
          (set_header (codes "Content-Type") (codes "text/event-stream") w.headers)));
}

-- The reply and the history behind it; `none` for the history is that there is no database.
module _ (u : Upstream) (works : ℕ → Bool) where
  unfoldable pub saved : ChatRequest → Bytes → Option History → Option History
  unfolding save_conversation
  saved req response none = none
  saved req response (some h) =
      if is_nil req.conversation_id
      then some h
      else some (save_conversation works req.conversation_id req.messages response h)

  unfoldable pub streamed :
      Writer → ChatRequest → Option History → Option (List Bytes) → Reply × Option History
  unfolding saved stream_lines
  streamed w req h none = (
    record {
      status = 200;
      headers = w.headers;
      writes = event (codes "{\"error\":" ++ (u.error_text ++ codes "}")) ∷ [];
    },
    h,
  )
  streamed w req h (some lines) =
      let (writes, response) = stream_lines u lines in
      (
        record {
          status = 200;
          headers = w.headers;
          writes = writes ++ (event (codes "[DONE]") ∷ []);
        },
        saved req response h,
      )

  unfoldable pub decoded : Writer → Option History → Option ChatRequest → Reply × Option History
  unfolding streamed http_error set_header
  decoded w h none = (http_error w (codes "bad request") 400, h)
  decoded w h (some req) =
      if is_nil req.model
      then (http_error w (codes "model required") 400, h)
      else if not w.flushes
      then (http_error (stream_headers w) (codes "streaming unsupported") 500, h)
      else streamed (stream_headers w) req h (u.chat_stream req.model req.messages)

  -- `Chat`
  unfoldable pub chat : Option History → Writer → Request → Reply × Option History
  unfolding decoded streamed saved stream_lines save_conversation http_error set_header
  chat h w r = decoded w h (u.decode_request r.content)
