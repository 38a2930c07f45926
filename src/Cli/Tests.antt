-- ===== src/Cli/Tests.antt =====
-- Runs of the parse functions.
use s4_mk1_usb2midi.Common.{
  two_digits, hex_digit, decimal, if◌then◌else◌, ltb, ◌^◌, ◌%◌, pos, ◌≡◌, refl, ◌∷◌, [], cons,
  arith, nil, text,
}
use s4_mk1_usb2midi.Cli.{
  hex_dump, parse_hex_bytes, parse_u16, parse_i32, parse_u8, hex_bytes, stoul, parsed, rejected,
  dump_rest, hex_out_of_range, hex_empty, negsuc, out_of_range, invalid_argument,
}
use s4_mk1_usb2midi.Cli.HexBytes.{parse_hex_bytes-hex_dump}
use s4_mk1_usb2midi.Usb.Descriptors.{id_text, hex_byte}
use s4_mk1_usb2midi.Cli.PrintedIds.{parse-print}
use s4_mk1_usb2midi.Cli.Decimal.{parse-decimal}

dump : hex_dump (0 ∷ 0x7f ∷ 0xfa ∷ []) ≡ text "00 7f fa"
unfolding hex_dump two_digits dump_rest hex_digit
dump = refl

read_hex : parse_hex_bytes (text " 00  0x7f FA ") ≡ parsed (0 ∷ 0x7f ∷ 0xfa ∷ [])
unfolding parse_hex_bytes hex_bytes stoul
read_hex = refl

hex_too_large : parse_hex_bytes (text "00 100") ≡ rejected hex_out_of_range
unfolding parse_hex_bytes hex_bytes stoul
hex_too_large = refl

no_hex : parse_hex_bytes (text "  ") ≡ rejected hex_empty
unfolding parse_hex_bytes hex_bytes stoul
no_hex = refl

octal : parse_u16 (text "010") ≡ parsed 8
unfolding parse_u16 stoul
octal = refl

-- A value above 65535 is cut, and a sign is taken.
cut : parse_u16 (text "65537") ≡ parsed 1
unfolding parse_u16 stoul
cut = refl

negated : parse_u16 (text "-1") ≡ parsed 65535
unfolding parse_u16 stoul
negated = refl

negative : parse_i32 (text "-12x") ≡ parsed (negsuc 11)
unfolding parse_i32
negative = refl

int_too_large : parse_i32 (text "2147483648") ≡ rejected out_of_range
unfolding parse_i32
int_too_large = refl

no_number : parse_u8 (text "x") ≡ rejected invalid_argument
unfolding parse_u8 stoul
no_number = refl

parse_hex_bytes-hex_dump_example :
    parse_hex_bytes (hex_dump (0xfa ∷ 7 ∷ [])) ≡ parsed (0xfa ∷ 7 ∷ [])
parse_hex_bytes-hex_dump_example =
    parse_hex_bytes-hex_dump 0xfa (7 ∷ []) (cons (omega arith) (cons (omega arith) nil))

parse-decimal_example :
    (parse_u16 (decimal 65537)
      ≡ (if ltb 65537 (2 ^ 64) then parsed (65537 % 2 ^ 16) else rejected out_of_range))
    × (parse_u8 (decimal 65537)
        ≡ (if ltb 65537 (2 ^ 64) then parsed (65537 % 2 ^ 8) else rejected out_of_range))
    × (parse_i32 (decimal 65537)
        ≡ (if ltb 65537 (2 ^ 31) then parsed (pos 65537) else rejected out_of_range))
parse-decimal_example = parse-decimal 65537

parse-print_example :
    (parse_u16 (id_text 0x17cc) ≡ parsed 0x17cc) × (parse_u8 (hex_byte 0x84) ≡ parsed 0x84)
parse-print_example = parse-print 0x17cc 0x84 (omega arith) (omega arith)
