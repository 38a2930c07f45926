-- ===== src/Midi/Sanitize.antt =====
-- What `send` does to the bytes of a message.
use s4_mk1_usb2midi.Common.{
  ℕ, ◌%◌, ◌<◌, true, false, not, List, [], ◌∷◌, map, ltb, leb, ◌==◌, ◌&&◌, if◌then◌else◌, ◌≡◌, refl,
  arith, bit_and, bit_and_127, passes_to, passes_to_sound, u8, length, All, nil, cons, ap, ap₂,
  Bool-cases, inl, length-map, inr,
}
use s4_mk1_usb2midi.Midi.{is_channel_status, sanitize}

high_bit_table :
    passes_to 255 (λ s. if ltb s 128 then bit_and s 0x80 == 0 else not (bit_and s 0x80 == 0)) ≡ true
unfolding passes_to
high_bit_table = refl

pub is_channel_status_lem : (s : ℕ) → s < 256 → is_channel_status s ≡ (leb 128 s && ltb s 240)
unfolding is_channel_status
is_channel_status_lem s h = ground (arith, passes_to_sound _ 255 s high_bit_table (omega arith))

abbrev pub IsData : ℕ → Type 0
IsData b = b < 128

abbrev pub clear_high : ℕ → ℕ
clear_high b = u8 (bit_and b 0x7f)

clear_high_lem : (b : ℕ) → clear_high b ≡ b % 128
clear_high_lem b = omega (arith, bit_and_127 b)

map-clear_high-All : (xs : List ℕ) → All IsData (map clear_high xs)
map-clear_high-All [] = nil
map-clear_high-All (x ∷ xs) = cons (omega (arith, clear_high_lem x)) (map-clear_high-All xs)

map-clear_high-id : {xs : List ℕ} → All IsData xs → map clear_high xs ≡ xs
map-clear_high-id nil = refl
map-clear_high-id (cons {x = x} h hs) =
    ap₂ ◌∷◌ (omega (arith, clear_high_lem x)) (map-clear_high-id hs)

-- The bytes after the first, in a message of a channel (first byte 0x80 to 0xEF) all below 128 and
-- otherwise as they were; the first byte is kept.
pub sanitize_lem :
    (status : ℕ) (xs : List ℕ)
    → status < 256
    → (ys : List ℕ) × (sanitize (status ∷ xs) ≡ status ∷ ys)
      × (length ys ≡ length xs)
      × (if leb 128 status && ltb status 240 then All IsData ys else (ys ≡ xs))
unfolding sanitize
sanitize_lem status xs h = elim (Bool-cases (is_channel_status status)) [
  | inl channel ↦ (
    map clear_high xs,
    rw channel refl,
    length-map clear_high xs,
    rw (← is_channel_status_lem status h, channel) (map-clear_high-All xs),
  )
  | inr other ↦ (xs, rw other refl, refl, rw (← is_channel_status_lem status h, other) refl)
]

-- A message whose later bytes are data bytes is kept as it is.
pub sanitize-id : (status : ℕ) {xs : List ℕ} → All IsData xs → sanitize (status ∷ xs) ≡ status ∷ xs
unfolding sanitize
sanitize-id status {xs} h = elim (Bool-cases (is_channel_status status)) [
  | inl channel ↦ rw channel (ap (◌∷◌ status) (map-clear_high-id h))
  | inr other ↦ rw other refl
]

-- So is one whose first byte starts no channel message, such as a SysEx message.
pub sanitize-other :
    (status : ℕ) (xs : List ℕ)
    → is_channel_status status ≡ false
    → sanitize (status ∷ xs) ≡ status ∷ xs
unfolding sanitize
sanitize-other status xs h = rw h refl

-- Sanitizing twice is sanitizing once.
pub sanitize_idem : (m : List ℕ) → sanitize (sanitize m) ≡ sanitize m
unfolding sanitize
sanitize_idem [] = refl
sanitize_idem (status ∷ xs) = elim (Bool-cases (is_channel_status status)) [
  | inl channel ↦ rw channel (ap (◌∷◌ status) (map-clear_high-id (map-clear_high-All xs)))
  | inr other ↦ rw other refl
]
