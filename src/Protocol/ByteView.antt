-- ===== src/Protocol/ByteView.antt =====
-- The byte view against an independent description: the positions that moved past the deadzone.
use s4_mk1_usb2midi.Common.{
  ℕ, suc, ◌+◌, ◌/◌, ◌%◌, Bool, true, List, [], ◌∷◌, ◌++◌, ltb, ◌||◌, if◌then◌else◌, ◌≡◌, refl,
  arith, bit_and_127, Bool-cases, ap, map, append-nil, inl, inr, ◌==◌, ==_iff,
}
use s4_mk1_usb2midi.Protocol.{
  MidiMessage, MapTables, S4GenericProtocol, byte, raw_byte, byte_view, mapped_byte, with_fallback,
  byte_messages, decode_from, decode_messages, decode_input, value7, delta7, emits_bytes,
  emits_bits, find_byte_mapping,
}

-- The 7-bit position that a report byte stands for.
abbrev pub position : ℕ → ℕ
position x = x / 2 % 128

pub value7_lem : (x : ℕ) → value7 x ≡ position x
unfolding value7
value7_lem x = omega (arith, bit_and_127 (x / 2))

-- `c` lies more than `deadzone` away from `p`, on either side.
abbrev pub moved : ℕ → ℕ → ℕ → Bool
moved deadzone p c =
    ltb (position p + deadzone) (position c) || ltb (position c + deadzone) (position p)

pub delta7_test : (deadzone p c : ℕ) → ltb deadzone (delta7 p c) ≡ moved deadzone p c
unfolding delta7
delta7_test deadzone p c = ground (arith, value7_lem p, value7_lem c)

pub record Move : Type 0 where
  pub index : ℕ
  pub value : ℕ

unfoldable pub moves : ℕ → ℕ → List ℕ → List ℕ → List Move
moves deadzone i [] cs = []
moves deadzone i (p ∷ ps) [] = []
moves deadzone i (p ∷ ps) (c ∷ cs) =
    (if moved deadzone p c then record { index = i; value = position c } ∷ [] else [])
    ++ moves deadzone (suc i) ps cs

abbrev pub move_message : S4GenericProtocol → Move → MidiMessage
move_message s m = raw_byte s m.index m.value

module _ (t : MapTables) (s : S4GenericProtocol) (mode : s.decode_mode ≡ byte)
    (unmapped : t.byte_mappings ≡ []) (emits : t.emit_unmapped_byte ≡ true) where
  mapped_byte-nil : (i delta raw : ℕ) → mapped_byte t s i delta raw ≡ []
  unfolding mapped_byte find_byte_mapping
  mapped_byte-nil i delta raw = rw (ap (λ es. find_byte_mapping es i) unmapped, mapped_byte)

  byte_view_unmapped :
      (i p c : ℕ)
      → byte_view t s i (delta7 p c) (value7 c)
        ≡ (if moved s.input_deadzone p c then raw_byte s i (position c) ∷ [] else [])
  unfolding byte_view with_fallback
  byte_view_unmapped i p c =
      rw
        (
          mapped_byte-nil i (delta7 p c) (value7 c),
          emits,
          delta7_test s.input_deadzone p c,
          value7_lem c,
        )
        refl

  byte_messages-moved :
      (i p c : ℕ)
      → byte_messages t s i p c
        ≡ (if moved s.input_deadzone p c then raw_byte s i (position c) ∷ [] else [])
  unfolding byte_messages
  byte_messages-moved i p c = elim (Bool-cases (p == c)) [
    | inl same ↦ ground (arith, (==_iff p c).0 same)
    | inr other ↦
        rw (other, ap emits_bytes mode, ap emits_bits mode, byte_view_unmapped i p c) (append-nil _)
  ]

  decode_from-moves :
      (i : ℕ) (ps cs : List ℕ)
      → decode_from t s i ps cs ≡ map (move_message s) (moves s.input_deadzone i ps cs)
  unfolding decode_from moves
  decode_from-moves i [] cs = refl
  decode_from-moves i (p ∷ ps) [] = refl
  decode_from-moves i (p ∷ ps) (c ∷ cs) = elim (Bool-cases (moved s.input_deadzone p c)) [
    | inl far ↦ rw (byte_messages-moved i p c, decode_from-moves (suc i) ps cs, far) refl
    | inr near ↦ rw (byte_messages-moved i p c, decode_from-moves (suc i) ps cs, near) refl
  ]

-- In byte mode without byte mappings, `decode_input` emits one fallback message for each byte whose
-- 7-bit position lies more than the deadzone away from its position in the last report, with the
-- new position as its value, in the order of the bytes, and nothing else.
pub decode_input-moves :
    (t : MapTables) (s : S4GenericProtocol) (report : List ℕ)
    → s.decode_mode ≡ byte
    → t.byte_mappings ≡ []
    → t.emit_unmapped_byte ≡ true
    → (decode_input t s report).1
      ≡ map (move_message s) (moves s.input_deadzone 0 s.previous_report report)
unfolding decode_input decode_messages
decode_input-moves t s report mode unmapped emits = go s.previous_report
  where
    go :
        (ps : List ℕ)
        → decode_messages t s ps report ≡ map (move_message s) (moves s.input_deadzone 0 ps report)
    go [] = unfold moves in refl
    go (p ∷ ps) = decode_from-moves t s mode unmapped emits 0 (p ∷ ps) report
