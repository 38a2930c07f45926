-- ===== src/Bridge/Deltas/Buttons.antt =====
-- `--input-debug-buttons` in print_input_deltas of src/main.cpp: which changes it leaves out.
use native.Mathlib.Decide.{ℕ_discrete}
use s4_mk1_usb2midi.Common.{
  cons, List, ℕ, ◌∷◌, shr, ◌≡◌, suc, length, u8, All, true, if◌then◌else◌, ◌==◌, ◌/◌, bit_xor,
  IsByte, false, ◌∙◌, arith, Bool-cases, zero, [], ap, ==_iff, inl, refl, bit_at, inr, ◌%◌,
  bit_and_1, bit_at-lt, ◌<◌, from_bits, bit_at-u8, sym, ltb, flipped_test, from_bits-bit_at,
}
use s4_mk1_usb2midi.Bridge.Deltas.{
  Change, bit_changes, changed_bytes, changes_from, popcount, change_at, input_changes, flipped,
}
use s4_mk1_usb2midi.Bridge.Deltas.Readback.{no_flip}

-- The changes of a single bit.
pub one_bit : List Change → List Change
one_bit [] = []
one_bit (ch ∷ chs) = let rest = one_bit chs in if length ch.bits == 1 then ch ∷ rest else rest

shr-suc : (x b : ℕ) → shr x (suc b) ≡ shr x b / 2
shr-suc x zero = refl
shr-suc x (suc b) = shr-suc (x / 2) b

-- The bits that are listed are as many as the mask has.
length-bit_changes : (n b diff c : ℕ) → length (bit_changes n b diff c) ≡ popcount n (shr diff b)
unfolding bit_changes popcount
length-bit_changes zero b diff c = refl
length-bit_changes (suc n) b diff c =
    let rest : length (bit_changes n (suc b) diff c) ≡ popcount n (shr diff b / 2) =
      length-bit_changes n (suc b) diff c ∙ ap (popcount n) (shr-suc diff b) in
    let low : bit_at diff b ≡ shr diff b % 2 = bit_and_1 (shr diff b) in
    elim (Bool-cases (bit_at diff b == 0)) [
      | inl e ↦
          let clear : bit_at diff b ≡ 0 = (==_iff _ 0).0 e in
          rw (e, bit_changes) (omega (arith, rest, low, clear))
      | inr e ↦
          let set : bit_at diff b ≡ 1 = ground (arith, e, bit_at-lt diff b) in
          rw (e, bit_changes) (omega (arith, rest, low, set))
    ]

-- Two equal bytes have no line.
same_bit : (p k : ℕ) → k < 8 → bit_at (u8 (bit_xor p p)) k ≡ 0
same_bit p k h =
    let equal : (bit_at p k == bit_at p k) ≡ true = ground arith in
    bit_at-u8 (bit_xor p p) k h ∙ (==_iff _ 0).0 (flipped_test p p k ∙ equal)

same_byte : (p c : ℕ) → p ≡ c → u8 (bit_xor p c) ≡ 0
same_byte p c e = rw (← e) (sym (from_bits-bit_at (u8 (bit_xor p p)) (omega arith)) ∙ clear)
  where
    clear : from_bits (bit_at (u8 (bit_xor p p))) ≡ 0
    clear =
        rw
          (
            same_bit p 0 (omega arith),
            same_bit p 1 (omega arith),
            same_bit p 2 (omega arith),
            same_bit p 3 (omega arith),
            same_bit p 4 (omega arith),
            same_bit p 5 (omega arith),
            same_bit p 6 (omega arith),
            same_bit p 7 (omega arith),
          )
          refl

length-changes_from :
    (i : ℕ) (ps cs : List ℕ)
    → All IsByte ps
    → All IsByte cs
    → changed_bytes ps cs ≡ length (changes_from false i ps cs)
unfolding changed_bytes changes_from change_at
length-changes_from i [] cs hp hc = refl
length-changes_from i (p ∷ ps) [] hp hc = refl
length-changes_from i (p ∷ ps) (c ∷ cs) (cons p_byte hp) (cons c_byte hc) =
    let rest : changed_bytes ps cs ≡ length (changes_from false (suc i) ps cs) =
      length-changes_from (suc i) ps cs hp hc in
    elim (ℕ_discrete p c) [
      | yes e ↦
          let equal : (p == c) ≡ true = ground arith in
          let still : (u8 (bit_xor p c) == 0) ≡ true = (==_iff _ 0).1 (same_byte p c e) in
          rw (equal, changed_bytes, still, changes_from) rest
      | no apart ↦
          let other : (p == c) ≡ false = ground arith in
          let moved : (u8 (bit_xor p c) == 0) ≡ false = elim (Bool-cases (u8 (bit_xor p c) == 0)) [
            | inl e ↦ absurd (apart (no_flip p c p_byte c_byte ((==_iff _ 0).0 e)))
            | inr e ↦ e
          ] in
          rw (other, changed_bytes, moved, changes_from) (ap suc rest)
    ]

one_bit-changes_from :
    (i : ℕ) (ps cs : List ℕ) → changes_from true i ps cs ≡ one_bit (changes_from false i ps cs)
unfolding changes_from change_at one_bit
one_bit-changes_from i [] cs = refl
one_bit-changes_from i (p ∷ ps) [] = refl
one_bit-changes_from i (p ∷ ps) (c ∷ cs) =
    let rest : changes_from true (suc i) ps cs ≡ one_bit (changes_from false (suc i) ps cs) =
      one_bit-changes_from (suc i) ps cs in
    elim (Bool-cases (u8 (bit_xor p c) == 0)) [
      | inl e ↦ rw (e, changes_from) rest
      | inr e ↦
          let count : (length (bit_changes 8 0 (u8 (bit_xor p c)) c) == 1)
              ≡ (popcount 8 (u8 (bit_xor p c)) == 1) =
            ap (λ m. m == 1) (length-bit_changes 8 0 (u8 (bit_xor p c)) c) in
          elim (Bool-cases (popcount 8 (u8 (bit_xor p c)) == 1)) [
            | inl one ↦
                rw (e, changes_from, one, one_bit, count, one)
                  (ap (◌∷◌ (flipped i p c (u8 (bit_xor p c)))) rest)
            | inr many ↦ rw (e, changes_from, many, one_bit, count, many) rest
          ]
    ]

-- With `buttons_only`, between two reports of bytes, the changes that are written are those of a
-- single bit among the changes without it, and none where these are more than two.
pub input_changes-buttons :
    (ps cs : List ℕ)
    → All IsByte ps
    → All IsByte cs
    → input_changes ps cs true ≡ (
        let changes = input_changes ps cs false in
        if ltb 2 (length changes) then [] else one_bit changes)
unfolding input_changes
input_changes-buttons ps cs hp hc =
    rw (length-changes_from 0 ps cs hp hc, one_bit-changes_from 0 ps cs) refl
