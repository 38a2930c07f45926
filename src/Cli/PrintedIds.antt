-- ===== src/Cli/PrintedIds.antt =====
-- The ids and the endpoints that print_descriptors of src/usb_device.cpp prints, read as arguments.
use s4_mk1_usb2midi.Common.{
  two_digits, hex_digit, ◌++◌, ◌/◌, ◌%◌, ◌∙◌, ap, u8, shr, bit_and, shr_8, bit_and_255, ◌≡◌, ◌^◌,
  ◌+◌, ◌*◌, ◌<◌, [], ◌∷◌, ℕ, refl, arith, some, true, Text, ltb, ◌==◌, passes_to, ◌&&◌, &&_left,
  ==_iff, passes_to_sound, &&_right,
}
use s4_mk1_usb2midi.Cli.{
  is_digit, digit_value, scan_digits, stoul, signed_number, skip_spaces, magnitude,
  after_hex_prefix, digits_of, unsigned_long, parsed, parse_u16, parse_u8, then_parse,
}
use s4_mk1_usb2midi.Usb.Descriptors.{hex_byte, id_text}

digits_table :
    passes_to 15 (λ d. is_digit 16 (hex_digit d) && digit_value (hex_digit d) == d) ≡ true
unfolding passes_to hex_digit is_digit digit_value
digits_table = refl

hex_digit-is_digit : (d : ℕ) → d < 16 → is_digit 16 (hex_digit d) ≡ true
hex_digit-is_digit d h = &&_left _ _ (passes_to_sound _ 15 d digits_table (omega arith))

hex_digit-digit_value : (d : ℕ) → d < 16 → digit_value (hex_digit d) ≡ d
hex_digit-digit_value d h =
    (==_iff _ _).0 (&&_right _ _ (passes_to_sound _ 15 d digits_table (omega arith)))

scan-hex_digit :
    (acc d : ℕ) (rest : Text)
    → d < 16
    → scan_digits 16 acc (hex_digit d ∷ rest) ≡ scan_digits 16 (acc * 16 + d) rest
unfolding scan_digits
scan-hex_digit acc d rest h =
    rw (hex_digit-is_digit d h, scan_digits, hex_digit-digit_value d h) refl

-- Digits behind the prefix `0x` are read in base 16, from the first of them.
digits_of-hex_digit :
    (d : ℕ) (rest : Text)
    → d < 16
    → digits_of 16 (hex_digit d ∷ rest) ≡ some (scan_digits 16 d rest)
unfolding digits_of
digits_of-hex_digit d rest h =
    let small : ltb d 16 ≡ true = ground arith in
    rw (hex_digit-digit_value d h, digits_of, small) refl

after_hex_prefix-hex_digit :
    (d : ℕ) (rest : Text)
    → d < 16
    → after_hex_prefix (48 ∷ 120 ∷ hex_digit d ∷ rest) ≡ some (hex_digit d ∷ rest)
unfolding after_hex_prefix
after_hex_prefix-hex_digit d rest h =
    let small : ltb d 16 ≡ true = ground arith in
    rw (hex_digit-digit_value d h, after_hex_prefix, small) refl

magnitude-hex_digit :
    (d : ℕ) (rest : Text)
    → d < 16
    → magnitude 0 (48 ∷ 120 ∷ hex_digit d ∷ rest) ≡ some (scan_digits 16 d rest)
unfolding magnitude
magnitude-hex_digit d rest h =
    rw (after_hex_prefix-hex_digit d rest h, magnitude) (digits_of-hex_digit d rest h)

stoul-hex_digit :
    (d : ℕ) (rest : Text)
    → d < 16
    → scan_digits 16 d rest < 2 ^ 64
    → stoul 0 (48 ∷ 120 ∷ hex_digit d ∷ rest) ≡ parsed (scan_digits 16 d rest)
unfolding stoul signed_number skip_spaces unsigned_long
stoul-hex_digit d rest h small =
    let fits : ltb (scan_digits 16 d rest) (2 ^ 64) ≡ true = ground arith in
    rw (magnitude-hex_digit d rest h, stoul, fits) refl

scan-two_digits :
    (acc b : ℕ) (rest : Text)
    → b < 256
    → scan_digits 16 acc (two_digits b ++ rest) ≡ scan_digits 16 (acc * 256 + b) rest
unfolding two_digits
scan-two_digits acc b rest h =
    let whole : (acc * 16 + b / 16) * 16 + b % 16 ≡ acc * 256 + b = omega arith in
    scan-hex_digit acc (b / 16) _ (omega arith)
    ∙ scan-hex_digit (acc * 16 + b / 16) (b % 16) rest (omega arith)
    ∙ ap (λ (m : ℕ). scan_digits 16 m rest) whole

stoul-hex_byte :
    (b : ℕ) (rest : Text)
    → b < 256
    → scan_digits 16 b rest < 2 ^ 64
    → stoul 0 (hex_byte b ++ rest) ≡ parsed (scan_digits 16 b rest)
unfolding hex_byte two_digits
stoul-hex_byte b rest h small =
    let whole : b / 16 * 16 + b % 16 ≡ b = omega arith in
    let last : scan_digits 16 (b / 16) (hex_digit (b % 16) ∷ rest) ≡ scan_digits 16 b rest =
      scan-hex_digit (b / 16) (b % 16) rest (omega arith)
      ∙ ap (λ (m : ℕ). scan_digits 16 m rest) whole in
    stoul-hex_digit (b / 16) (hex_digit (b % 16) ∷ rest) (omega arith) (omega (arith, last, small))
    ∙ ap parsed last

scan-two_digits_end : (acc b : ℕ) → b < 256 → scan_digits 16 acc (two_digits b) ≡ acc * 256 + b
unfolding two_digits scan_digits
scan-two_digits_end acc b h = scan-two_digits acc b [] h

stoul-hex_byte_end : (b : ℕ) → b < 256 → stoul 0 (hex_byte b) ≡ parsed b
unfolding hex_byte two_digits scan_digits
stoul-hex_byte_end b h = stoul-hex_byte b [] h (omega arith)

stoul-id_text : (v : ℕ) → v < 2 ^ 16 → stoul 0 (id_text v) ≡ parsed v
unfolding id_text hex_byte
stoul-id_text v h =
    let hi : ℕ = u8 (shr v 8) in
    let lo : ℕ = u8 (bit_and v 0xff) in
    let value : scan_digits 16 hi (two_digits lo) ≡ v =
      scan-two_digits_end hi lo (omega arith) ∙ omega (arith, shr_8 v, bit_and_255 v) in
    stoul-hex_byte hi (two_digits lo) (omega arith) (omega (arith, value)) ∙ ap parsed value

-- The ids and the endpoint addresses that `print_descriptors` prints are read by `--vid`, `--pid`,
-- `--in-ep` and `--out-ep` as the numbers that were printed.
pub parse-print :
    (v b : ℕ)
    → v < 2 ^ 16
    → b < 256
    → (parse_u16 (id_text v) ≡ parsed v) × (parse_u8 (hex_byte b) ≡ parsed b)
unfolding parse_u16 parse_u8
parse-print v b hv hb =
    let word : v % 2 ^ 16 ≡ v = omega arith in
    let byte : b % 2 ^ 8 ≡ b = omega arith in
    (
      ap (λ p. then_parse p (λ n. parsed (n % 2 ^ 16))) (stoul-id_text v hv) ∙ ap parsed word,
      ap (λ p. then_parse p (λ n. parsed (n % 2 ^ 8))) (stoul-hex_byte_end b hb) ∙ ap parsed byte,
    )
