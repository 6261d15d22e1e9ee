-- ===== src/Go/Numbers/RoundTrip.antt =====
-- Reading back what "%d" and "%08x" print.
use ol1n_super_app.Base.{
  ℕ, zero, suc, ◌+◌, ◌-◌, ◌*◌, ◌/◌, ◌%◌, ◌^◌, ◌<◌, ◌≡◌, refl, [], ◌∷◌, arith, ==-eq_false, some,
  Bytes, ◌∙◌, ◌==◌, inl, inr, Bool-cases,
}
use ol1n_super_app.Base.Ints.{pos}
use ol1n_super_app.Go.Numbers.{
  digits, format_nat, format_int, format_hex8, hex_digit, scan, number, parse_int, parse_uint,
  scan-digits, IsDigit, digit_value,
}

pub scan-format_nat : (n : ℕ) → n < 2 ^ 64 → scan 10 (2 ^ 64 - 1) (format_nat n) 0 ≡ number n
unfolding format_nat scan
scan-format_nat n h = ground (arith, scan-digits n n [] (omega arith) h)

-- The first byte printed is a digit, hence no sign.
pub data StartsWithDigit : Bytes → Type 0 where
  starts : {c : ℕ} {s : Bytes} → IsDigit c → StartsWithDigit (c ∷ s)

digits-starts : (f n : ℕ) (out : Bytes) → StartsWithDigit out → StartsWithDigit (digits f n out)
unfolding digits
digits-starts zero n out h = h
digits-starts (suc f) n out h = elim (Bool-cases (n == 0)) [
  | inl e ↦ rw e h
  | inr e ↦ rw e (digits-starts f (n / 10) ((b'0' + n % 10) ∷ out) (starts (omega arith)))
]

pub format_nat-starts : (n : ℕ) → StartsWithDigit (format_nat n)
unfolding format_nat digits
format_nat-starts zero = starts (omega arith)
format_nat-starts (suc n) =
    rw ((==-eq_false (suc n) 0 (omega arith)))
      (digits-starts n (suc n / 10) ((b'0' + suc n % 10) ∷ []) (starts (omega arith)))

parse_int_digits :
    (s : Bytes) (n : ℕ)
    → StartsWithDigit s
    → n < 2 ^ 63
    → scan 10 (2 ^ 64 - 1) s 0 ≡ number n
    → parse_int s ≡ pos n
unfolding parse_int
parse_int_digits [] n d h e = elim d [ ]
parse_int_digits (c ∷ s) n (starts d) h e = ground arith

-- Every int64 that is not negative is read back from its decimal print.
pub parse_int-format_int : (n : ℕ) → n < 2 ^ 63 → parse_int (format_int (pos n)) ≡ pos n
unfolding format_int
parse_int-format_int n h =
    parse_int_digits (format_nat n) n (format_nat-starts n) h (scan-format_nat n (omega arith))

digit_value-hex_digit : (d : ℕ) → d < 16 → digit_value (hex_digit d) ≡ some d
unfolding digit_value
digit_value-hex_digit d h = ground arith

scan_hex :
    (n m d : ℕ) (s : Bytes)
    → d < 16
    → m ≡ n * 16 + d
    → m < 2 ^ 32
    → scan 16 (2 ^ 32 - 1) (hex_digit d ∷ s) n ≡ scan 16 (2 ^ 32 - 1) s m
unfolding scan
scan_hex n m d s h e k = ground (arith, digit_value-hex_digit d h)

scan-format_hex8 : (n : ℕ) → n < 2 ^ 32 → scan 16 (2 ^ 32 - 1) (format_hex8 n) 0 ≡ number n
unfolding format_hex8
scan-format_hex8 n h =
    scan_hex _ (n / 2 ^ 28) _ _ (omega arith) (omega arith) (omega arith)
    ∙ scan_hex _ (n / 2 ^ 24) _ _ (omega arith) (omega arith) (omega arith)
    ∙ scan_hex _ (n / 2 ^ 20) _ _ (omega arith) (omega arith) (omega arith)
    ∙ scan_hex _ (n / 2 ^ 16) _ _ (omega arith) (omega arith) (omega arith)
    ∙ scan_hex _ (n / 2 ^ 12) _ _ (omega arith) (omega arith) (omega arith)
    ∙ scan_hex _ (n / 2 ^ 8) _ _ (omega arith) (omega arith) (omega arith)
    ∙ scan_hex _ (n / 2 ^ 4) _ _ (omega arith) (omega arith) (omega arith)
    ∙ scan_hex _ n _ _ (omega arith) (omega arith) (omega arith)
    ∙ unfold scan in refl

parse_uint_number :
    (base bits c : ℕ) (s : Bytes) {n : ℕ}
    → scan base (2 ^ bits - 1) (c ∷ s) 0 ≡ number n
    → parse_uint base bits (c ∷ s) ≡ n
unfolding parse_uint
parse_uint_number base bits c s h = ground (arith, h)

-- Every uint32 is read back from its eight hexadecimal digits.
pub parse_uint-format_hex8 : (n : ℕ) → n < 2 ^ 32 → parse_uint 16 32 (format_hex8 n) ≡ n
unfolding format_hex8
parse_uint-format_hex8 n h = parse_uint_number 16 32 _ _ (scan-format_hex8 n h)
