-- ===== src/Go/Query.antt =====
-- Package net/url: `QueryEscape`.
use ol1n_super_app.Base.{
  ℕ, ◌+◌, ◌-◌, ◌/◌, ◌%◌, Bool, ◌&&◌, ◌||◌, [], ◌∷◌, ◌++◌, ltb, leb, ◌==◌, if◌then◌else◌, Bytes,
}

abbrev pub is_unreserved : ℕ → Bool
is_unreserved b =
    leb b'a' b && leb b b'z'
    || leb b'A' b && leb b b'Z'
    || leb b'0' b && leb b b'9'
    || b == b'-'
    || b == b'_'
    || b == b'.'
    || b == b'~'

abbrev pub upper_hex : ℕ → ℕ
upper_hex d = if ltb d 10 then b'0' + d else b'A' + (d - 10)

unfoldable pub escape_byte : ℕ → Bytes
escape_byte b =
    if b == b' '
    then b'+' ∷ []
    else if is_unreserved b
    then b ∷ []
    else b'%' ∷ upper_hex (b / 16) ∷ upper_hex (b % 16) ∷ []

unfoldable pub query_escape : Bytes → Bytes
unfolding escape_byte
query_escape [] = []
query_escape (b ∷ bs) = escape_byte b ++ query_escape bs
