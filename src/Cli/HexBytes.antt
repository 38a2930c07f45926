-- ===== src/Cli/HexBytes.antt =====
-- Hex text: what hex_dump of src/main.cpp prints, parse_hex_bytes reads.
use s4_mk1_usb2midi.Common.{
  two_digits, hex_digit, ◌/◌, ◌%◌, ◌∷◌, u8, ltb, passes_to, not, ◌<◌, ◌≡◌, All, ◌==◌,
  passes_to_sound, IsByte, arith, ap, map, refl, ==_iff, cons, nil,
}
use s4_mk1_usb2midi.Cli.{
  push_byte, Parsed, parsed, rejected, dump_rest, hex_dump, stoul, is_space, split_word, add_word,
  tokens, hex_bytes, nonempty_bytes, parse_hex_bytes, ℕ, List, Bool, true, false, [],
}

-- Every digit is no space, and every pair of digits is read as its byte: two tables.
digit_table : passes_to 15 (λ d. not (is_space (hex_digit d))) ≡ true
unfolding passes_to hex_digit
digit_table = refl

not-true : (b : Bool) → not b ≡ true → b ≡ false
not-true b h = ground arith

hex_digit-is_space : (d : ℕ) → d < 16 → is_space (hex_digit d) ≡ false
hex_digit-is_space d h = not-true _ (passes_to_sound _ 15 d digit_table (omega arith))

reads : ℕ → Parsed ℕ → Bool
reads b (parsed n) = n == b
reads b (rejected e) = false

byte_table : passes_to 255 (λ b. reads b (stoul 16 (two_digits b))) ≡ true
unfolding passes_to hex_digit two_digits reads stoul
byte_table = refl

reads_sound : (b : ℕ) (p : Parsed ℕ) → reads b p ≡ true → p ≡ parsed b
unfolding reads
reads_sound b (parsed n) h = ap parsed ((==_iff n b).0 h)
reads_sound b (rejected e) h = ground arith

stoul-two_digits : (b : ℕ) → b < 256 → stoul 16 (two_digits b) ≡ parsed b
stoul-two_digits b h = reads_sound b _ (passes_to_sound _ 255 b byte_table (omega arith))

-- The words of a dump are its pairs.
split_word-dump_rest :
    {bs : List ℕ} → All IsByte bs → split_word (dump_rest bs) ≡ ([], map two_digits bs)
unfolding split_word dump_rest two_digits add_word
split_word-dump_rest nil = refl
split_word-dump_rest (cons {x = b} {xs = bs} h hs) =
    rw
      (
        split_word-dump_rest hs,
        hex_digit-is_space (b / 16) (omega arith),
        hex_digit-is_space (b % 16) (omega arith),
      )
      refl

tokens-hex_dump : {bs : List ℕ} → All IsByte bs → tokens (hex_dump bs) ≡ map two_digits bs
unfolding tokens split_word hex_dump two_digits add_word
tokens-hex_dump nil = refl
tokens-hex_dump (cons {x = b} {xs = bs} h hs) =
    rw
      (
        split_word-dump_rest hs,
        hex_digit-is_space (b / 16) (omega arith),
        hex_digit-is_space (b % 16) (omega arith),
      )
      refl

push_byte-byte :
    (b : ℕ) (bs : List ℕ) → b < 256 → push_byte (ltb 0xff b) b (parsed bs) ≡ parsed (b ∷ bs)
unfolding push_byte
push_byte-byte b bs h =
    let small : ltb 0xff b ≡ false = ground arith in
    let kept : u8 b ≡ b = omega arith in rw (small, kept) refl

hex_bytes-two_digits : {bs : List ℕ} → All IsByte bs → hex_bytes (map two_digits bs) ≡ parsed bs
unfolding hex_bytes
hex_bytes-two_digits nil = refl
hex_bytes-two_digits (cons {x = b} {xs = bs} h hs) =
    rw (stoul-two_digits b h, hex_bytes-two_digits hs, push_byte-byte b bs h) refl

-- The hex text that `hex_dump` writes for one byte or more is read back by `parse_hex_bytes` as the
-- same bytes.
pub parse_hex_bytes-hex_dump :
    (b : ℕ) (bs : List ℕ)
    → All IsByte (b ∷ bs)
    → parse_hex_bytes (hex_dump (b ∷ bs)) ≡ parsed (b ∷ bs)
unfolding parse_hex_bytes nonempty_bytes
parse_hex_bytes-hex_dump b bs h = rw (tokens-hex_dump h, hex_bytes-two_digits h) refl
