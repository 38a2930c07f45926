-- ===== src/Cli.antt =====
-- The command line of src/main.cpp: hex_dump, the parse functions and parse_args. An argument is the
-- list of its character codes.
pub mod HexBytes
pub mod Decimal
pub mod PrintedIds
pub mod Arguments
mod Tests
use Prim.Native.String.{String}
use Prim.Native.Char.{code}
use s4_mk1_usb2midi.Common.{
  ℕ, zero, suc, ◌+◌, ◌-◌, ◌*◌, ◌/◌, ◌%◌, ◌^◌, Bool, true, false, ◌&&◌, ◌||◌, Option, none, some,
  List, [], ◌∷◌, ◌++◌, ℤ, pos, negsuc, ltb, leb, ltb_ℤ, leb_ℤ, ◌==◌, if◌then◌else◌, u8, u16,
  pos_part, Text, two_digits,
}
use s4_mk1_usb2midi.Usb.{UsbOptions}
use s4_mk1_usb2midi.Protocol.{InputDecodeMode, byte, bit, hybrid}

pub is_text : Text → String → Bool
is_text [] String.[] = true
is_text [] (String.◌∷◌ d ds) = false
is_text (c ∷ cs) String.[] = false
is_text (c ∷ cs) (String.◌∷◌ d ds) = c == code d && is_text cs ds

-- What the parse functions throw; the first two come from `stoul` and `stoi`.
pub data ParseError : Type 0 where
  invalid_argument out_of_range : ParseError
  missing_mode unknown_mode missing_value unknown_flag : ParseError
  bad_decode_mode hex_out_of_range hex_empty : ParseError
  bad_repeat bad_interval bad_channel bad_deadzone : ParseError
  ids_required bridge_needs_input : ParseError

pub data Parsed {ℓ} (A : Type ℓ) : Type ℓ where
  parsed : A → Parsed A
  rejected : ParseError → Parsed A

abbrev pub then_parse {ℓ κ} : {A : Type ℓ} {B : Type κ} → Parsed A → (A → Parsed B) → Parsed B
then_parse (parsed a) f = f a
then_parse (rejected e) f = rejected e

-- `hex_dump`: two digits for each byte, and a space between two bytes.
pub dump_rest : List ℕ → Text
dump_rest [] = []
dump_rest (b ∷ bs) = 32 ∷ (two_digits b ++ dump_rest bs)

pub hex_dump : List ℕ → Text
hex_dump [] = []
hex_dump (b ∷ bs) = two_digits b ++ dump_rest bs

-- The library functions `stoul` and `stoi`: spaces, a sign, a prefix, digits; what follows the
-- digits is ignored. Base 0 lets the prefix decide.
abbrev is_space : ℕ → Bool
is_space c = c == 32 || (leb 9 c && leb c 13)

digit_value : ℕ → ℕ
digit_value c =
    if leb 48 c && leb c 57
    then c - 48
    else (if leb 97 c && leb c 122 then c - 87 else (if leb 65 c && leb c 90 then c - 55 else 36))

is_digit : ℕ → ℕ → Bool
unfolding digit_value
is_digit base c = ltb (digit_value c) base

scan_digits : ℕ → ℕ → Text → ℕ
unfolding digit_value is_digit
scan_digits base acc [] = acc
scan_digits base acc (c ∷ cs) = elim (is_digit base c) [
  | true ↦ scan_digits base (acc * base + digit_value c) cs
  | false ↦ acc
]

digits_of : ℕ → Text → Option ℕ
unfolding scan_digits is_digit digit_value
digits_of base [] = none
digits_of base (c ∷ cs) =
    if is_digit base c then some (scan_digits base (digit_value c) cs) else none

after_hex_prefix : Text → Option Text
unfolding is_digit
after_hex_prefix (z ∷ x ∷ d ∷ cs) =
    if z == 48 && (x == 120 || x == 88) && is_digit 16 d then some (d ∷ cs) else none
after_hex_prefix cs = none

base_of : Text → ℕ
base_of [] = 10
base_of (c ∷ cs) = if c == 48 then 8 else 10

magnitude : ℕ → Text → Option ℕ
unfolding after_hex_prefix digits_of base_of
magnitude base cs = elim (after_hex_prefix cs) [
  | some rest ↦ digits_of 16 rest
  | none ↦ digits_of (if base == 0 then base_of cs else base) cs
]

signed_number : ℕ → Text → Option (Bool × ℕ)
unfolding magnitude
signed_number base [] = none
signed_number base (c ∷ cs) =
    if c == 45
    then mathlib.Core.Option.map (λ n. (true, n)) (magnitude base cs)
    else mathlib.Core.Option.map (λ n. (false, n)) (magnitude base (if c == 43 then cs else c ∷ cs))

skip_spaces : Text → Text
skip_spaces [] = []
skip_spaces (c ∷ cs) = let rest = skip_spaces cs in if is_space c then rest else c ∷ cs

-- `unsigned long` has 64 bits; a sign negates in it.
unsigned_long : Bool → ℕ → ℕ
unsigned_long negative n = if negative then (2 ^ 64 - n) % 2 ^ 64 else n

pub stoul : ℕ → Text → Parsed ℕ
unfolding signed_number skip_spaces unsigned_long
stoul base text = elim (signed_number base (skip_spaces text)) [
  | none ↦ rejected invalid_argument
  | some (negative, n) ↦
      if ltb n (2 ^ 64) then parsed (unsigned_long negative n) else rejected out_of_range
]

-- `int` has 32 bits.
minus : ℕ → ℤ
minus zero = pos 0
minus (suc n) = negsuc n

in_int : Bool → ℕ → Parsed ℤ
unfolding minus
in_int true n = if leb n (2 ^ 31) then parsed (minus n) else rejected out_of_range
in_int false n = if ltb n (2 ^ 31) then parsed (pos n) else rejected out_of_range

stoi : ℕ → Text → Parsed ℤ
unfolding signed_number skip_spaces in_int
stoi base text = elim (signed_number base (skip_spaces text)) [
  | none ↦ rejected invalid_argument
  | some (negative, n) ↦ in_int negative n
]

pub parse_u16 : Text → Parsed ℕ
parse_u16 text = then_parse (stoul 0 text) λ n. parsed (u16 n)

pub parse_u8 : Text → Parsed ℕ
parse_u8 text = then_parse (stoul 0 text) λ n. parsed (u8 n)

pub parse_i32 : Text → Parsed ℤ
unfolding stoi
parse_i32 text = stoi 0 text

pub parse_decode_mode : Text → Parsed InputDecodeMode
unfolding is_text
parse_decode_mode text =
    if is_text text "byte"
    then parsed byte
    else (if is_text text "bit"
        then parsed bit
        else (if is_text text "hybrid" then parsed hybrid else rejected bad_decode_mode))

-- `stream >> token`: the words between white space. The first part of the pair is the word that the
-- text begins with, empty where it begins with a space.
add_word : Text → List Text → List Text
add_word [] ws = ws
add_word (c ∷ w) ws = (c ∷ w) ∷ ws

split_word : Text → Text × List Text
unfolding add_word
split_word [] = ([], [])
split_word (c ∷ cs) =
    let (w, ws) = split_word cs in if is_space c then ([], add_word w ws) else (c ∷ w, ws)

tokens : Text → List Text
unfolding split_word add_word
tokens cs = let (w, ws) = split_word cs in add_word w ws

-- A token above 0xFF throws.
push_byte : Bool → ℕ → Parsed (List ℕ) → Parsed (List ℕ)
push_byte true n rest = rejected hex_out_of_range
push_byte false n rest = then_parse rest λ bs. parsed (u8 n ∷ bs)

pub hex_bytes : List Text → Parsed (List ℕ)
unfolding push_byte
hex_bytes [] = parsed []
hex_bytes (t ∷ ts) =
    let rest = hex_bytes ts in then_parse (stoul 16 t) λ n. push_byte (ltb 0xff n) n rest

nonempty_bytes : List ℕ → Parsed (List ℕ)
nonempty_bytes [] = rejected hex_empty
nonempty_bytes (b ∷ bs) = parsed (b ∷ bs)

pub parse_hex_bytes : Text → Parsed (List ℕ)
unfolding tokens nonempty_bytes
parse_hex_bytes text = then_parse (hex_bytes (tokens text)) nonempty_bytes
