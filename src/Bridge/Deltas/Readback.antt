-- ===== src/Bridge/Deltas/Readback.antt =====
-- Reading the lines of print_input_deltas of src/main.cpp back.
use s4_mk1_usb2midi.Common.{
  cons, ==_iff, ap₂, ℕ, List, from_bits, bit_at, ◌∷◌, ◌<◌, ◌≤◌, ◌==◌, ◌≡◌, ◌+◌, if◌then◌else◌, suc,
  arith, [], false, true, Bool-cases, inl, inr, zero, refl, u8, bit_xor, bit_at-u8,
  from_bits-bit_at, flipped_test, sym, ◌∙◌, ap, Bool, length, ◌&&◌, All, not, IsByte,
}
use native.Mathlib.Decide.{ℕ_discrete}
use s4_mk1_usb2midi.Bridge.Deltas.{
  Change, bit_changes, changes_from, change_at, popcount, input_changes, flipped,
}

-- A bit as a reader of the line knows it: the value that is listed, or the one before.
read_bit : List (ℕ × ℕ) → ℕ → ℕ → ℕ
read_bit [] old k = old
read_bit ((b, v) ∷ bs) old k = if b == k then v else read_bit bs old k

read_byte : Change → ℕ → ℕ
unfolding read_bit
read_byte ch p = from_bits (λ k. read_bit ch.bits (bit_at p k) k)

-- The report that a reader of the lines has, from the one before and the places and bits of the
-- lines.
pub read_changes : List Change → ℕ → List ℕ → List ℕ
unfolding read_byte
read_changes [] i ps = ps
read_changes (ch ∷ chs) i [] = []
read_changes (ch ∷ chs) i (p ∷ ps) = elim (ch.byte_index == i) [
  | true ↦ read_byte ch p ∷ read_changes chs (suc i) ps
  | false ↦ p ∷ read_changes (ch ∷ chs) (suc i) ps
]

read_bit-later : (n b diff c old k : ℕ) → k < b → read_bit (bit_changes n b diff c) old k ≡ old
unfolding read_bit bit_changes
read_bit-later zero b diff c old k h = refl
read_bit-later (suc n) b diff c old k h =
    let rest : read_bit (bit_changes n (suc b) diff c) old k ≡ old =
      read_bit-later n (suc b) diff c old k (omega arith) in
    let other : (b == k) ≡ false = ground arith in
    elim (Bool-cases (bit_at diff b == 0)) [
      | inl e ↦ rw (e, bit_changes) rest
      | inr e ↦ rw (e, bit_changes, other) rest
    ]

-- A bit that flipped is listed with its new value; another is not listed.
read_bit-bit_changes :
    (n b diff c old k : ℕ)
    → b ≤ k
    → k < b + n
    → read_bit (bit_changes n b diff c) old k ≡ (if bit_at diff k == 0 then old else bit_at c k)
unfolding read_bit bit_changes
read_bit-bit_changes zero b diff c old k lo hi = absurd (omega arith)
read_bit-bit_changes (suc n) b diff c old k lo hi = elim (ℕ_discrete b k) [
  | yes same ↦ here k same
  | no apart ↦
      let other : (b == k) ≡ false = ground arith in
      let rest : read_bit (bit_changes n (suc b) diff c) old k
          ≡ (if bit_at diff k == 0 then old else bit_at c k) =
        read_bit-bit_changes n (suc b) diff c old k (omega arith) (omega arith) in
      elim (Bool-cases (bit_at diff b == 0)) [
        | inl e ↦ rw (e, bit_changes) rest
        | inr e ↦ rw (e, bit_changes, other) rest
      ]
]
  where
    here :
        (k : ℕ)
        → b ≡ k
        → read_bit (bit_changes (suc n) b diff c) old k
          ≡ (if bit_at diff k == 0 then old else bit_at c k)
    here k same =
        let found : (b == k) ≡ true = ground arith in
        elim (Bool-cases (bit_at diff b == 0)) [
          | inl e ↦
              let at : (bit_at diff k == 0) ≡ true = rw (← same) e in
              rw (e, bit_changes, at) (read_bit-later n (suc b) diff c old k (omega arith))
          | inr e ↦
              let at : (bit_at diff k == 0) ≡ false = rw (← same) e in
              rw (e, bit_changes, at, found, ← same) refl
        ]

choose-same : (x y : ℕ) → (if x == y then x else y) ≡ y
choose-same x y = ground arith

-- The bits of a byte's line, put on the byte before, give the byte after.
read_flipped :
    (p c k : ℕ)
    → k < 8
    → read_bit (bit_changes 8 0 (u8 (bit_xor p c)) c) (bit_at p k) k ≡ bit_at c k
read_flipped p c k h =
    rw
      (
        read_bit-bit_changes 8 0 (u8 (bit_xor p c)) c (bit_at p k) k (omega arith) h,
        bit_at-u8 (bit_xor p c) k h,
        flipped_test p c k,
      )
      (choose-same (bit_at p k) (bit_at c k))

from_bits-read_bit :
    (p c : ℕ)
    → c < 256
    → from_bits (λ k. read_bit (bit_changes 8 0 (u8 (bit_xor p c)) c) (bit_at p k) k) ≡ c
from_bits-read_bit p c h =
    rw
      (
        read_flipped p c 0 (omega arith),
        read_flipped p c 1 (omega arith),
        read_flipped p c 2 (omega arith),
        read_flipped p c 3 (omega arith),
        read_flipped p c 4 (omega arith),
        read_flipped p c 5 (omega arith),
        read_flipped p c 6 (omega arith),
        read_flipped p c 7 (omega arith),
      )
      (from_bits-bit_at c h)

-- Bytes without a flipped bit are equal.
pub no_flip : (p c : ℕ) → p < 256 → c < 256 → u8 (bit_xor p c) ≡ 0 → p ≡ c
unfolding read_bit bit_changes
no_flip p c hp hc e =
    sym (from_bits-bit_at p hp)
    ∙ sym (ap (λ (d : ℕ). from_bits (λ k. read_bit (bit_changes 8 0 d c) (bit_at p k) k)) e)
    ∙ from_bits-read_bit p c hc

data Later (i : ℕ) : List Change → Type 0 where
  none_left : Later i []
  later : {ch : Change} {chs : List Change} → i ≤ ch.byte_index → Later i (ch ∷ chs)

changes_from-Later :
    (only : Bool) (j i : ℕ) (ps cs : List ℕ) → j ≤ i → Later j (changes_from only i ps cs)
unfolding changes_from change_at
changes_from-Later only j i [] cs h = none_left
changes_from-Later only j i (p ∷ ps) [] h = none_left
changes_from-Later only j i (p ∷ ps) (c ∷ cs) h = elim (Bool-cases (u8 (bit_xor p c) == 0)) [
  | inl e ↦ rw (e, changes_from) (changes_from-Later only j (suc i) ps cs (omega arith))
  | inr e ↦ elim (Bool-cases (only && not (popcount 8 (u8 (bit_xor p c)) == 1))) [
    | inl e' ↦ rw (e, changes_from, e') (changes_from-Later only j (suc i) ps cs (omega arith))
    | inr e' ↦ rw (e, changes_from, e') (later h)
  ]
]

read_changes-Later :
    (chs : List Change) (i p : ℕ) (ps : List ℕ)
    → Later (suc i) chs
    → read_changes chs i (p ∷ ps) ≡ p ∷ read_changes chs (suc i) ps
unfolding read_changes
read_changes-Later [] i p ps none_left = refl
read_changes-Later (ch ∷ chs) i p ps (later h) =
    let other : (ch.byte_index == i) ≡ false = ground arith in rw (other, read_changes) refl

-- The line of a byte is read as its new value, and the rest of the lines behind it.
read_changes-first :
    (i p c : ℕ) (chs : List Change) (ps cs : List ℕ)
    → c < 256
    → read_changes chs (suc i) ps ≡ cs
    → read_changes (flipped i p c (u8 (bit_xor p c)) ∷ chs) i (p ∷ ps) ≡ c ∷ cs
unfolding read_changes flipped
read_changes-first i p c chs ps cs h rest =
    let here : (i == i) ≡ true = ground arith in
    rw (here, read_changes) (ap₂ (◌∷◌) (from_bits-read_bit p c h) rest)

read_changes-from :
    (i : ℕ) (ps cs : List ℕ)
    → length ps ≡ length cs
    → All IsByte ps
    → All IsByte cs
    → read_changes (changes_from false i ps cs) i ps ≡ cs
unfolding changes_from change_at read_changes
read_changes-from i [] [] same hp hc = refl
read_changes-from i [] (c ∷ cs) same hp hc = absurd (omega arith)
read_changes-from i (p ∷ ps) [] same hp hc = absurd (omega arith)
read_changes-from i (p ∷ ps) (c ∷ cs) same (cons p_byte hp) (cons c_byte hc) =
    let rest : read_changes (changes_from false (suc i) ps cs) (suc i) ps ≡ cs =
      read_changes-from (suc i) ps cs (omega arith) hp hc in
    elim (Bool-cases (u8 (bit_xor p c) == 0)) [
      | inl e ↦
          let equal : p ≡ c = no_flip p c p_byte c_byte ((==_iff _ 0).0 e) in
          rw (e, changes_from)
            (read_changes-Later (changes_from false (suc i) ps cs) i p ps
                (changes_from-Later false (suc i) (suc i) ps cs (omega arith))
              ∙ ap₂ (◌∷◌) equal rest)
      | inr e ↦
          rw (e, changes_from)
            (read_changes-first i p c (changes_from false (suc i) ps cs) ps cs c_byte rest)
    ]

-- Without `buttons_only`, between two reports of bytes of one length, a reader that knows the first
-- and takes the places and the bits of the changes that are written gets the second.
pub read_changes-input_changes :
    (ps cs : List ℕ)
    → length ps ≡ length cs
    → All IsByte ps
    → All IsByte cs
    → read_changes (input_changes ps cs false) 0 ps ≡ cs
unfolding input_changes
read_changes-input_changes ps cs same hp hc = read_changes-from 0 ps cs same hp hc
