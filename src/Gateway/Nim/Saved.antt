-- ===== src/Gateway/Nim/Saved.antt =====
-- A chat is saved only with an answer of the upstream service.
use ol1n_super_app.Base.{◌≡◌, true, some, List, Bytes, codes}
use ol1n_super_app.Gateway.Http
use ol1n_super_app.Gateway.Chat.{Message}
use ol1n_super_app.Gateway.Nim.{Client, Service, request_to}

-- The service answered 200, with `raw`, to the POST of a streaming chat.
abbrev pub Answers : Client → Service → Bytes → List Message → Bytes → Type 0
Answers c v model messages raw =
    (body : Bytes) × (v.marshal model messages true ≡ some body)
    × (v.exchange (request_to c (codes "POST") (codes "/v1/chat/completions") (some body))
        ≡ some (200, raw))
