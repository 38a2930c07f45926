-- ===== src/Protocol/BitView.antt =====
-- The bit view against an independent description: the bits in which two reports differ.
use s4_mk1_usb2midi.Common.{
  ap, ℕ, zero, suc, ◌+◌, ◌≤◌, Bool, true, false, not, List, [], ◌∷◌, ◌++◌, ◌==◌, if◌then◌else◌, ◌≡◌,
  refl, arith, flipped_test, bit_at-u8, bit_at, u8, bit_xor, append_assoc, append-nil, ==_iff,
  Bool-cases, inl, inr,
}
use s4_mk1_usb2midi.Protocol.{
  MidiMessage, MapTables, S4GenericProtocol, bit_message, bit_loop, byte_messages, decode_from,
  decode_input, bit, decode_messages, emits_bytes, emits_bits,
}

-- Bit `bit` of byte `index` has turned to `on`.
pub record Flip : Type 0 where
  pub index : ℕ
  pub bit : ℕ
  pub on : Bool

abbrev flip_at : ℕ → ℕ → ℕ → Flip
flip_at i b current = record { index = i; bit = b; on = not (bit_at current b == 0) }

-- The flips of one byte, from bit `b` up, `left` bits to go.
unfoldable pub byte_flips : ℕ → ℕ → ℕ → ℕ → ℕ → List Flip
byte_flips zero b i previous current = []
byte_flips (suc left) b i previous current =
    (if bit_at previous b == bit_at current b then [] else flip_at i b current ∷ [])
    ++ byte_flips left (suc b) i previous current

unfoldable pub flips : ℕ → List ℕ → List ℕ → List Flip
flips i [] report = []
flips i (p ∷ ps) [] = []
flips i (p ∷ ps) (c ∷ cs) = byte_flips 8 0 i p c ++ flips (suc i) ps cs

module _ (t : MapTables) (s : S4GenericProtocol) where
  unfoldable pub messages_of : List Flip → List MidiMessage
  messages_of [] = []
  messages_of (f ∷ fs) = bit_message t s f.index f.bit f.on ++ messages_of fs

  pub messages_of-append :
      (fs gs : List Flip) → messages_of (fs ++ gs) ≡ messages_of fs ++ messages_of gs
  unfolding messages_of
  messages_of-append [] gs = refl
  messages_of-append (f ∷ fs) gs = simp (messages_of-append fs gs, append_assoc)

  messages_of-if :
      (b : Bool) (f : Flip)
      → messages_of (if b then [] else f ∷ [])
        ≡ (if b then [] else bit_message t s f.index f.bit f.on)
  unfolding messages_of
  messages_of-if true f = refl
  messages_of-if false f = append-nil _

  bit_loop-messages_of :
      (left b i p c : ℕ)
      → b + left ≤ 8
      → bit_loop t s left b i (u8 (bit_xor p c)) c ≡ messages_of (byte_flips left b i p c)
  unfolding bit_loop byte_flips messages_of
  bit_loop-messages_of zero b i p c h = refl
  bit_loop-messages_of (suc left) b i p c h =
      rw
        (
          messages_of-append (if bit_at p b == bit_at c b then [] else flip_at i b c ∷ [])
              (byte_flips left (suc b) i p c),
          messages_of-if (bit_at p b == bit_at c b) (flip_at i b c),
          bit_at-u8 (bit_xor p c) b (omega arith),
          flipped_test p c b,
          bit_loop-messages_of left (suc b) i p c (omega arith),
        )
        refl

  byte_flips_same : (left b i c : ℕ) → byte_flips left b i c c ≡ []
  unfolding byte_flips
  byte_flips_same zero b i c = refl
  byte_flips_same (suc left) b i c =
      rw ((==_iff (bit_at c b) (bit_at c b)).1 refl) (byte_flips_same left (suc b) i c)

  byte_messages-flips :
      (i p c : ℕ)
      → s.decode_mode ≡ bit
      → byte_messages t s i p c ≡ messages_of (byte_flips 8 0 i p c)
  unfolding byte_messages
  byte_messages-flips i p c h = elim (Bool-cases (p == c)) [
    | inl same ↦
        rw (same, (==_iff p c).0 same, byte_flips_same 8 0 i c) (unfold messages_of in refl)
    | inr other ↦
        rw (other, ap emits_bytes h, ap emits_bits h) (bit_loop-messages_of 8 0 i p c (omega arith))
  ]

  decode_from-flips :
      (i : ℕ) (ps cs : List ℕ)
      → s.decode_mode ≡ bit
      → decode_from t s i ps cs ≡ messages_of (flips i ps cs)
  unfolding decode_from flips
  decode_from-flips i [] cs h = unfold messages_of in refl
  decode_from-flips i (p ∷ ps) [] h = unfold messages_of in refl
  decode_from-flips i (p ∷ ps) (c ∷ cs) h =
      rw
        (
          byte_messages-flips i p c h,
          decode_from-flips (suc i) ps cs h,
          messages_of-append (byte_flips 8 0 i p c) (flips (suc i) ps cs),
        )
        refl

pub decode_input-messages_of :
    (t : MapTables) (s : S4GenericProtocol) (report : List ℕ)
    → s.decode_mode ≡ bit
    → (decode_input t s report).1 ≡ messages_of t s (flips 0 s.previous_report report)
unfolding decode_input decode_messages
decode_input-messages_of t s report h = go s.previous_report
  where
    go : (ps : List ℕ) → decode_messages t s ps report ≡ messages_of t s (flips 0 ps report)
    go [] = unfold messages_of flips in refl
    go (p ∷ ps) = decode_from-flips t s 0 (p ∷ ps) report h
