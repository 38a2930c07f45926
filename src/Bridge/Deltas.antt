-- ===== src/Bridge/Deltas.antt =====
-- print_input_deltas of src/main.cpp, which run_bridge calls with `--input-debug`: the changes
-- between two reports, and the lines that are written for them.
pub mod Readback
pub mod Buttons
mod Tests
use s4_mk1_usb2midi.Common.{
  ℕ, List, suc, Bool, Option, Text, ◌%◌, [], u8, some, if◌then◌else◌, join, ◌∷◌, map, ◌==◌, ◌+◌,
  bit_at, bit_xor, ◌&&◌, text, ◌++◌, none, ◌/◌, not, ltb, decimal, zero, two_digits, bit_and, shr,
}
use s4_mk1_usb2midi.Cli.Arguments.{AppOptions}

-- What one line shows: the byte's place, its two values, and the bits that flipped with their new
-- values.
pub record Change : Type 0 where
  pub byte_index : ℕ
  pub previous : ℕ
  pub current : ℕ
  pub bits : List (ℕ × ℕ)

pub changed_bytes : List ℕ → List ℕ → ℕ
changed_bytes (p ∷ ps) (c ∷ cs) =
    let rest = changed_bytes ps cs in if p == c then rest else suc rest
changed_bytes [] cs = 0
changed_bytes (p ∷ ps) [] = 0

-- `std::popcount` of the lowest bits.
pub popcount : ℕ → ℕ → ℕ
popcount zero n = 0
popcount (suc k) n = n % 2 + popcount k (n / 2)

-- The loop over the bits, from `b` on for the given number of rounds.
pub bit_changes : ℕ → ℕ → ℕ → ℕ → List (ℕ × ℕ)
bit_changes zero b diff cur = []
bit_changes (suc rounds) b diff cur =
    let rest = bit_changes rounds (suc b) diff cur in
    if bit_at diff b == 0 then rest else (b, bit_at cur b) ∷ rest

pub flipped : ℕ → ℕ → ℕ → ℕ → Change
unfolding bit_changes
flipped index prev cur diff = record {
  byte_index = index;
  previous = prev;
  current = cur;
  bits = bit_changes 8 0 diff cur;
}

pub change_at : Bool → ℕ → ℕ → ℕ → Option Change
unfolding popcount flipped
change_at buttons_only index prev cur =
    let diff = u8 (bit_xor prev cur) in
    if diff == 0
    then none
    else (if buttons_only && not (popcount 8 diff == 1)
        then none
        else some (flipped index prev cur diff))

add_change : Option Change → List Change → List Change
add_change none rest = rest
add_change (some ch) rest = ch ∷ rest

pub changes_from : Bool → ℕ → List ℕ → List ℕ → List Change
unfolding change_at add_change
changes_from buttons_only index (p ∷ ps) (c ∷ cs) =
    add_change (change_at buttons_only index p c) (changes_from buttons_only (suc index) ps cs)
changes_from buttons_only index [] cs = []
changes_from buttons_only index (p ∷ ps) [] = []

-- With `buttons_only`, reports that differ in more than two bytes are passed over.
pub input_changes : List ℕ → List ℕ → Bool → List Change
unfolding changed_bytes changes_from
input_changes previous current buttons_only =
    if buttons_only && ltb 2 (changed_bytes previous current)
    then []
    else changes_from buttons_only 0 previous current

bit_text : ℕ × ℕ → Text
bit_text (b, v) =
    join (text "b" ∷ decimal b ∷ text "=" ∷ (if v == 0 then text "0" else text "1") ∷ [])

bits_rest : List (ℕ × ℕ) → Text
unfolding bit_text
bits_rest [] = []
bits_rest (b ∷ bs) = text "," ++ bit_text b ++ bits_rest bs

bits_text : List (ℕ × ℕ) → Text
unfolding bit_text bits_rest
bits_text [] = []
bits_text (b ∷ bs) = bit_text b ++ bits_rest bs

change_text : Bool → Change → Text
unfolding bits_text
change_text buttons_only ch = join (
    (if buttons_only then text "[btn] " else text "[raw] ")
    ∷ text "byte="
    ∷ decimal ch.byte_index
    ∷ text " prev=0x"
    ∷ two_digits ch.previous
    ∷ text " cur=0x"
    ∷ two_digits ch.current
    ∷ text " v7="
    ∷ decimal (bit_and (shr ch.previous 1) 0x7f)
    ∷ text "->"
    ∷ decimal (bit_and (shr ch.current 1) 0x7f)
    ∷ text " bits="
    ∷ bits_text ch.bits
    ∷ [])

pub print_input_deltas : List ℕ → List ℕ → Bool → List Text
unfolding input_changes change_text
print_input_deltas previous current buttons_only =
    map (change_text buttons_only) (input_changes previous current buttons_only)

-- What the main loop writes for a packet.
pub debug_lines : AppOptions → List ℕ → List ℕ → List Text
unfolding print_input_deltas
debug_lines o [] packet = []
debug_lines o (b ∷ bs) packet =
    if o.input_debug then print_input_deltas (b ∷ bs) packet o.input_debug_buttons_only else []
