-- ===== src/Go/Textproto.antt =====
-- Package net/textproto: the writer and the reader of a text that ends with a dot on a line of its
-- own. Where the reader puts a byte back, the byte is read again in the next state.
pub mod Lines
use ol1n_super_app.Base.{
  ℕ, ◌≡◌, refl, Bool, true, false, Option, none, some, List, [], ◌∷◌, ◌++◌, ◌==◌, if◌then◌else◌,
  Bytes, codes,
}

pub data WriteState : Type 0 where
  begin begin_line within after_cr : WriteState

abbrev within_or_end : ℕ → WriteState
within_or_end c = if c == b'\r' then after_cr else if c == b'\n' then begin_line else within

abbrev pub next_state : WriteState → ℕ → WriteState
next_state after_cr c = if c == b'\n' then begin_line else within
next_state st c = within_or_end c

abbrev line_feed : ℕ → Bytes
line_feed c = if c == b'\n' then b'\r' ∷ b'\n' ∷ [] else c ∷ []

abbrev first_byte : ℕ → Bytes
first_byte c = if c == b'.' then b'.' ∷ b'.' ∷ [] else line_feed c

abbrev pub written : WriteState → ℕ → Bytes
written begin c = first_byte c
written begin_line c = first_byte c
written within c = line_feed c
written after_cr c = c ∷ []

-- `Close`
abbrev pub closing : WriteState → Bytes
closing begin = codes "\r\n.\r\n"
closing within = codes "\r\n.\r\n"
closing after_cr = codes "\n.\r\n"
closing begin_line = codes ".\r\n"

-- What `DotWriter` sends for a text, from `Write` to `Close`.
unfoldable pub dot_write : WriteState → Bytes → Bytes
dot_write st [] = closing st
dot_write st (c ∷ cs) = written st c ++ dot_write (next_state st c) cs

pub data ReadState : Type 0 where
  line_start in_line dot dot_cr cr finished : ReadState

-- What a byte adds to the text, and the state after it.
abbrev read_within : ℕ → Bytes × ReadState
read_within c =
    if c == b'\r' then ([], cr) else if c == b'\n' then (c ∷ [], line_start) else (c ∷ [], in_line)

abbrev kept_cr : Bytes × ReadState → Bytes × ReadState
kept_cr (out, st) = (b'\r' ∷ out, st)

abbrev pub read_byte : ReadState → ℕ → Bytes × ReadState
read_byte line_start c =
    if c == b'.' then ([], dot) else if c == b'\r' then ([], cr) else (c ∷ [], in_line)
read_byte dot c =
    if c == b'\r' then ([], dot_cr) else if c == b'\n' then ([], finished) else (c ∷ [], in_line)
read_byte dot_cr c = if c == b'\n' then ([], finished) else kept_cr (read_within c)
read_byte cr c = if c == b'\n' then (c ∷ [], line_start) else kept_cr (read_within c)
read_byte in_line c = read_within c
read_byte finished c = ([], finished)

abbrev pub prepend_text : Bytes → Option Bytes → Option Bytes
prepend_text out none = none
prepend_text out (some s) = some (out ++ s)

abbrev pub is_finished : ReadState → Bool
is_finished finished = true
is_finished _ = false

-- `io.ReadAll` of a `DotReader`; `none` is that the input ends before the text does.
unfoldable pub dot_read : ReadState → Bytes → Option Bytes
dot_read st [] = none
dot_read st (c ∷ cs) =
    let rest = dot_read (read_byte st c).1 cs in
    if is_finished (read_byte st c).1
    then some (read_byte st c).0
    else prepend_text (read_byte st c).0 rest

dot_tests :
    (dot_write begin (codes "a\n.b\r\n..") ≡ codes "a\r\n..b\r\n...\r\n.\r\n")
    × (dot_read line_start (codes "a\r\n..b\r\n.\r\nrest") ≡ some (codes "a\n.b\n"))
    × (dot_read line_start (codes "a\r\n") ≡ none)
unfolding dot_write dot_read
dot_tests = (refl, refl, refl)
