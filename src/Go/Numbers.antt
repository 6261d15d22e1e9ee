-- ===== src/Go/Numbers.antt =====
-- Package strconv and the numeric verbs of fmt: Atoi, ParseInt, ParseUint, "%d" and "%08x".
pub mod RoundTrip
use ol1n_super_app.Base.{
  ℕ, zero, suc, ◌+◌, ◌-◌, ◌*◌, ◌/◌, ◌%◌, ◌^◌, ◌≤◌, ◌<◌, ◌≡◌, ◌≢◌, refl, Bool, true, false, ◌&&◌,
  Option, none, some, [], ◌∷◌, ◌++◌, arith, ltb, leb, ◌==◌, if◌then◌else◌, Bytes, codes, All,
  All-append, Bool-cases, inl, inr,
}
use ol1n_super_app.Base.Ints.{ℤ, pos, negsuc}

-- "%d" of a number that is not negative: a round for each digit, with fuel.
unfoldable pub digits : ℕ → ℕ → Bytes → Bytes
digits zero n out = out
digits (suc f) n out =
    let more = digits f (n / 10) ((b'0' + n % 10) ∷ out) in if n == 0 then out else more

unfoldable pub format_nat : ℕ → Bytes
unfolding digits
format_nat n = if n == 0 then b'0' ∷ [] else digits n n []

-- "%d"
unfoldable pub format_int : ℤ → Bytes
unfolding format_nat
format_int (pos n) = format_nat n
format_int (negsuc n) = b'-' ∷ format_nat (suc n)

abbrev pub hex_digit : ℕ → ℕ
hex_digit d = if ltb d 10 then b'0' + d else b'a' + (d - 10)

-- "%08x" of a uint32
unfoldable pub format_hex8 : ℕ → Bytes
format_hex8 n =
    hex_digit (n / 2 ^ 28 % 16)
    ∷ hex_digit (n / 2 ^ 24 % 16)
    ∷ hex_digit (n / 2 ^ 20 % 16)
    ∷ hex_digit (n / 2 ^ 16 % 16)
    ∷ hex_digit (n / 2 ^ 12 % 16)
    ∷ hex_digit (n / 2 ^ 8 % 16)
    ∷ hex_digit (n / 2 ^ 4 % 16)
    ∷ hex_digit (n % 16)
    ∷ []

-- What a scan of digits ends in: a number, or one of strconv's two errors.
pub data Scan : Type 0 where
  number : ℕ → Scan
  bad_syntax out_of_range : Scan

-- The value of a digit in bases up to 16.
unfoldable pub digit_value : ℕ → Option ℕ
digit_value c =
    if leb b'0' c && leb c b'9'
    then some (c - b'0')
    else if leb b'a' c && leb c b'z'
    then some (c - b'a' + 10)
    else if leb b'A' c && leb c b'Z'
    then some (c - b'A' + 10)
    else none

-- The loop of `ParseUint`: `most` is the largest value of the bit size.
scan_next : ℕ → ℕ → ℕ → Option ℕ → (ℕ → Scan) → Scan
scan_next base most n none go_on = bad_syntax
scan_next base most n (some d) go_on =
    if leb base d
    then bad_syntax
    else if ltb most (n * base + d)
    then out_of_range
    else go_on (n * base + d)

unfoldable pub scan : ℕ → ℕ → Bytes → ℕ → Scan
unfolding scan_next digit_value
scan base most [] n = number n
scan base most (c ∷ cs) n = scan_next base most n (digit_value c) (scan base most cs)

-- `ParseUint(s, base, bits)`, with the value that it returns beside an error.
unfoldable pub parse_uint : ℕ → ℕ → Bytes → ℕ
unfolding scan
parse_uint base bits [] = 0
parse_uint base bits (c ∷ cs) = elim (scan base (2 ^ bits - 1) (c ∷ cs) 0) [
  | number n ↦ n
  | bad_syntax ↦ 0
  | out_of_range ↦ 2 ^ bits - 1
]

-- The magnitude behind a sign, held to the range of an int64.
signed : Bool → Bytes → ℤ
signed negative [] = pos 0
signed negative (c ∷ cs) = elim (scan 10 (2 ^ 64 - 1) (c ∷ cs) 0) [
  | bad_syntax ↦ pos 0
  | out_of_range ↦ if negative then negsuc (2 ^ 63 - 1) else pos (2 ^ 63 - 1)
  | number n ↦
      if negative
      then (if leb (2 ^ 63) n
          then negsuc (2 ^ 63 - 1)
          else if n == 0
          then pos 0
          else negsuc (n - 1))
      else if leb (2 ^ 63) n
      then pos (2 ^ 63 - 1)
      else pos n
]

-- `n, _ := ParseInt(s, 10, 64)`, and `Atoi` where an int has 64 bits.
unfoldable pub parse_int : Bytes → ℤ
unfolding signed scan
parse_int [] = pos 0
parse_int (c ∷ cs) =
    if c == b'-'
    then signed true cs
    else if c == b'+'
    then signed false cs
    else signed false (c ∷ cs)

parse_int_tests :
    (parse_int (codes "-12") ≡ negsuc 11)
    × (parse_int (codes "12x") ≡ pos 0)
    × (parse_int (codes "99999999999999999999x") ≡ pos (2 ^ 63 - 1))
    × (parse_uint 16 32 (codes "cbf43926") ≡ 0xcbf43926)
    × (format_hex8 0xcbf43926 ≡ codes "cbf43926")
    × (format_int (negsuc 11) ≡ codes "-12")
unfolding parse_int parse_uint format_hex8 format_int
parse_int_tests = (refl, refl, refl, refl, refl, refl)

abbrev pub IsDigit : ℕ → Type 0
IsDigit c = (b'0' ≤ c) × (c ≤ b'9')

digits-IsDigit : (f n : ℕ) (out : Bytes) → All IsDigit out → All IsDigit (digits f n out)
unfolding digits
digits-IsDigit zero n out h = h
digits-IsDigit (suc f) n out h = ground (arith, digits-IsDigit f (n / 10) ((b'0' + n % 10) ∷ out))

pub format_nat-IsDigit : (n : ℕ) → All IsDigit (format_nat n)
unfolding format_nat
format_nat-IsDigit n = ground (arith, digits-IsDigit n n [] tt)

scan_last :
    (n : ℕ) (out : Bytes)
    → n < 2 ^ 64
    → scan 10 (2 ^ 64 - 1) ((b'0' + n % 10) ∷ out) (n / 10) ≡ scan 10 (2 ^ 64 - 1) out n
unfolding scan
scan_last n out h = ground arith

scan-digits :
    (f n : ℕ) (out : Bytes)
    → n ≤ f
    → n < 2 ^ 64
    → scan 10 (2 ^ 64 - 1) (digits f n out) 0 ≡ scan 10 (2 ^ 64 - 1) out n
unfolding digits
scan-digits zero n out h k = ground arith
scan-digits (suc f) n out h k =
    ground (arith, scan-digits f (n / 10) ((b'0' + n % 10) ∷ out), scan_last n out)
