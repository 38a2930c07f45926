-- ===== src/Common/Printing.antt =====
-- What the program writes, as lists of character codes.
use Prim.Native.Nat.{ℕ, zero, suc, ◌+◌, ◌/◌, ◌%◌}
use Prim.Native.Char.{code}
use Prim.Native.String.{String}
use mathlib.Core.List.{List, [], ◌∷◌, ◌++◌}
use s4_mk1_usb2midi.Common.Tests.{ltb, ◌==◌, if◌then◌else◌}

abbrev pub Text : Type 0
Text = List ℕ

abbrev pub text : String → Text
text String.[] = []
text (String.◌∷◌ c cs) = code c ∷ text cs

-- A digit of a stream in `hex`, and a byte with `setw(2)` and `setfill('0')`.
unfoldable pub hex_digit : ℕ → ℕ
hex_digit d = if ltb d 10 then 48 + d else 87 + d

unfoldable pub two_digits : ℕ → Text
unfolding hex_digit
two_digits b = hex_digit (b / 16) ∷ hex_digit (b % 16) ∷ []

-- A byte in `hex` with no width.
unfoldable pub short_hex : ℕ → Text
unfolding hex_digit two_digits
short_hex b = if ltb b 16 then hex_digit b ∷ [] else two_digits b

-- A number in `dec`, in front of a text. The fuel is the number and one more, above the number of
-- its digits.
unfoldable pub decimal_before : ℕ → ℕ → Text → Text
decimal_before zero n rest = rest
decimal_before (suc fuel) n rest =
    let more = decimal_before fuel (n / 10) ((48 + n % 10) ∷ rest) in
    if n / 10 == 0 then (48 + n % 10) ∷ rest else more

unfoldable pub decimal : ℕ → Text
unfolding decimal_before
decimal n = decimal_before (suc n) n []

abbrev pub join : List Text → Text
join [] = []
join (t ∷ ts) = t ++ join ts
