-- ===== src/Cli/Decimal.antt =====
-- Numbers in decimal on the command line: what parse_u16, parse_u8 and parse_i32 of src/main.cpp read.
use s4_mk1_usb2midi.Common.{
  ◌≡◌, ◌∙◌, ◌^◌, ◌+◌, ◌*◌, ◌/◌, ◌%◌, ◌≤◌, ◌<◌, [], ◌∷◌, ℕ, zero, suc, refl, arith, some, none, true,
  false, Text, decimal, decimal_before, if◌then◌else◌, ltb, ◌==◌, pos, ap, Bool-cases, inl, inr,
}
use s4_mk1_usb2midi.Cli.{
  digit_value, scan_digits, is_digit, after_hex_prefix, digits_of, magnitude, signed_number,
  base_of, skip_spaces, is_space, stoul, parse_u16, unsigned_long, parse_u8, parsed, parse_i32,
  rejected, stoi, out_of_range, in_int, Bool, then_parse,
}

scan-digit :
    (acc d : ℕ) (rest : Text)
    → d < 10
    → scan_digits 10 acc ((48 + d) ∷ rest) ≡ scan_digits 10 (acc * 10 + d) rest
unfolding scan_digits is_digit digit_value
scan-digit acc d rest h =
    let is : is_digit 10 (48 + d) ≡ true = ground arith in
    let value : digit_value (48 + d) ≡ d = ground arith in rw (is, scan_digits, value) refl

-- Reading the digits of a number gives the number back.
scan-decimal_before :
    (fuel n : ℕ) (rest : Text)
    → n < fuel
    → scan_digits 10 0 (decimal_before fuel n rest) ≡ scan_digits 10 n rest
unfolding decimal_before
scan-decimal_before zero n rest h = elim h [ ]
scan-decimal_before (suc fuel) n rest h = elim (Bool-cases (n / 10 == 0)) [
  | inl e ↦
      let small : n % 10 ≡ n = ground arith in
      let zero_first : 0 * 10 + n ≡ n = omega arith in
      rw (e, decimal_before, small)
        (scan-digit 0 n rest (ground arith) ∙ ap (λ (m : ℕ). scan_digits 10 m rest) zero_first)
  | inr e ↦
      let whole : n / 10 * 10 + n % 10 ≡ n = omega arith in
      rw (e, decimal_before)
        (scan-decimal_before fuel (n / 10) ((48 + n % 10) ∷ rest) (ground arith)
          ∙ scan-digit (n / 10) (n % 10) rest (omega arith)
          ∙ ap (λ (m : ℕ). scan_digits 10 m rest) whole)
]

-- The first digit of a number that is not 0 is not `0`.
decimal_before-first :
    (fuel n : ℕ) (rest : Text)
    → n < fuel
    → 1 ≤ n
    → (c : ℕ) × (cs : Text) × (decimal_before fuel n rest ≡ c ∷ cs) × (49 ≤ c) × (c ≤ 57)
unfolding decimal_before
decimal_before-first zero n rest h p = elim h [ ]
decimal_before-first (suc fuel) n rest h p = elim (Bool-cases (n / 10 == 0)) [
  | inl e ↦ (48 + n % 10, rest, rw (e, decimal_before) refl, ground arith, ground arith)
  | inr e ↦
      rw (e, decimal_before)
        (decimal_before-first fuel (n / 10) ((48 + n % 10) ∷ rest) (ground arith) (ground arith))
]

after_hex_prefix-digit : (c : ℕ) (cs : Text) → 49 ≤ c → after_hex_prefix (c ∷ cs) ≡ none
unfolding after_hex_prefix
after_hex_prefix-digit c [] h = refl
after_hex_prefix-digit c (x ∷ []) h = refl
after_hex_prefix-digit c (x ∷ d ∷ cs) h =
    let other : (c == 48) ≡ false = ground arith in rw other refl

module _ (c : ℕ) (cs : Text) (lo : 49 ≤ c) (hi : c ≤ 57) where
  digits_of-digit : digits_of 10 (c ∷ cs) ≡ some (scan_digits 10 0 (c ∷ cs))
  unfolding digits_of scan_digits is_digit digit_value
  digits_of-digit =
      let is : is_digit 10 c ≡ true = ground arith in
      let first : 0 * 10 + digit_value c ≡ digit_value c = omega arith in
      rw (is, scan_digits, first) refl

  magnitude-digit : magnitude 0 (c ∷ cs) ≡ some (scan_digits 10 0 (c ∷ cs))
  unfolding magnitude base_of
  magnitude-digit =
      let other : (c == 48) ≡ false = ground arith in
      rw (after_hex_prefix-digit c cs lo, magnitude, other) digits_of-digit

  signed_number-digit :
      signed_number 0 (skip_spaces (c ∷ cs)) ≡ some (false, scan_digits 10 0 (c ∷ cs))
  unfolding signed_number skip_spaces
  signed_number-digit =
      let here : is_space c ≡ false = ground arith in
      let unsigned : (c == 45) ≡ false = ground arith in
      let bare : (c == 43) ≡ false = ground arith in
      rw (here, skip_spaces, unsigned, bare, magnitude-digit) refl

scan-decimal : (n : ℕ) → scan_digits 10 0 (decimal n) ≡ n
unfolding decimal scan_digits
scan-decimal n = scan-decimal_before (suc n) n [] (omega arith)

decimal-first : (n : ℕ) → 1 ≤ n → (c : ℕ) × (cs : Text) × (decimal n ≡ c ∷ cs) × (49 ≤ c) × (c ≤ 57)
unfolding decimal
decimal-first n h = decimal_before-first (suc n) n [] (omega arith) h

signed_number_0 : signed_number 0 (skip_spaces (decimal 0)) ≡ some (false, 0)
unfolding decimal signed_number skip_spaces magnitude
signed_number_0 = refl

-- The whole number, as the library functions read it.
signed_number-decimal : (n : ℕ) → signed_number 0 (skip_spaces (decimal n)) ≡ some (false, n)
signed_number-decimal zero = signed_number_0
signed_number-decimal (suc n) =
    let (c, cs, e, lo, hi) = decimal-first (suc n) (omega arith) in
    rw (e, signed_number-digit c cs lo hi, ← e, scan-decimal (suc n)) refl

stoul-decimal :
    (n : ℕ) → stoul 0 (decimal n) ≡ (if ltb n (2 ^ 64) then parsed n else rejected out_of_range)
unfolding stoul unsigned_long
stoul-decimal n = rw (signed_number-decimal n, stoul) refl

stoi-decimal :
    (n : ℕ)
    → stoi 0 (decimal n) ≡ (if ltb n (2 ^ 31) then parsed (pos n) else rejected out_of_range)
unfolding stoi in_int
stoi-decimal n = rw (signed_number-decimal n, stoi) refl

-- A number in decimal is read by `parse_u16` and `parse_u8` as its remainder by 2 ^ 16 and 2 ^ 8, up
-- to the 64 bits of `stoul`, and by `parse_i32` as itself below 2 ^ 31; above, it is out of range.
pub parse-decimal :
    (n : ℕ)
    → (parse_u16 (decimal n)
        ≡ (if ltb n (2 ^ 64) then parsed (n % 2 ^ 16) else rejected out_of_range))
      × (parse_u8 (decimal n)
          ≡ (if ltb n (2 ^ 64) then parsed (n % 2 ^ 8) else rejected out_of_range))
      × (parse_i32 (decimal n) ≡ (if ltb n (2 ^ 31) then parsed (pos n) else rejected out_of_range))
unfolding parse_u16 parse_u8 parse_i32
parse-decimal n = (
  rw (stoul-decimal n) (through (ltb n (2 ^ 64)) (λ m. m % 2 ^ 16)),
  rw (stoul-decimal n) (through (ltb n (2 ^ 64)) (λ m. m % 2 ^ 8)),
  stoi-decimal n,
)
  where
    through :
        (b : Bool) (f : ℕ → ℕ)
        → then_parse (if b then parsed n else rejected out_of_range) (λ m. parsed (f m))
          ≡ (if b then parsed (f n) else rejected out_of_range)
    through true f = refl
    through false f = refl
