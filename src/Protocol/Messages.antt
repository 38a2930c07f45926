-- ===== src/Protocol/Messages.antt =====
-- What every message of `decode_input` looks like.
use s4_mk1_usb2midi.Common.{
  ℕ, zero, suc, ◌+◌, ◌%◌, ◌<◌, Bool, List, [], ◌∷◌, ◌≡◌, refl, inl, inr, arith, All, All-append,
  Option-cases, bit_and_15, bit_and_127, bit_or_status, All-if, nil, cons,
}
use s4_mk1_usb2midi.Protocol.{
  MidiMessage, MapTables, S4GenericProtocol, make_cc, mapped_byte, raw_byte, byte_view, raw_bit,
  bit_message, bit_loop, byte_messages, decode_from, decode_messages, decode_input,
  find_bit_mapping, find_byte_mapping, with_fallback,
}

-- A status byte of a control change and two data bytes.
abbrev pub IsControlChange : MidiMessage → Type 0
IsControlChange m =
    (channel : ℕ) × (controller : ℕ) × (value : ℕ) × (channel < 16)
    × (controller < 128)
    × (value < 128)
    × (m.bytes ≡ (0xb0 + channel) ∷ controller ∷ value ∷ [])

pub make_cc_lem :
    (channel controller value : ℕ)
    → make_cc channel controller value
      ≡ record { bytes = (0xb0 + channel % 16) ∷ controller % 128 ∷ value % 128 ∷ [] }
unfolding make_cc
make_cc_lem c n v =
    rw (bit_and_15 c, bit_and_127 n, bit_and_127 v, bit_or_status (c % 16) (omega arith))
      (ground arith)

pub make_cc-IsControlChange : (c n v : ℕ) → IsControlChange (make_cc c n v)
make_cc-IsControlChange c n v =
    rw (make_cc_lem c n v) (c % 16, n % 128, v % 128, omega arith, omega arith, omega arith, refl)

module _ (t : MapTables) (s : S4GenericProtocol) where
  mapped_byte-All : (i delta raw : ℕ) → All IsControlChange (mapped_byte t s i delta raw)
  unfolding mapped_byte
  mapped_byte-All i delta raw = elim (Option-cases (find_byte_mapping t.byte_mappings i)) [
    | inl e ↦ rw (e, mapped_byte) nil
    | inr (m, e) ↦
        rw (e, mapped_byte) (All-if _ (cons (make_cc-IsControlChange _ m.cc raw) nil) nil)
  ]

  fallback-All :
      (i delta raw : ℕ) {ms : List MidiMessage}
      → All IsControlChange ms
      → All IsControlChange (with_fallback t s i delta raw ms)
  unfolding with_fallback raw_byte
  fallback-All i delta raw nil = All-if _ (cons (make_cc-IsControlChange _ _ raw) nil) nil
  fallback-All i delta raw (cons p h) = cons p h

  byte_view-All : (i delta raw : ℕ) → All IsControlChange (byte_view t s i delta raw)
  unfolding byte_view
  byte_view-All i delta raw = fallback-All i delta raw (mapped_byte-All i delta raw)

  bit_message-All : (i b : ℕ) (on : Bool) → All IsControlChange (bit_message t s i b on)
  unfolding bit_message raw_bit
  bit_message-All i b on = elim (Option-cases (find_bit_mapping t.bit_mappings i b)) [
    | inl e ↦ rw (e, bit_message) (All-if _ (cons (make_cc-IsControlChange _ _ _) nil) nil)
    | inr (m, e) ↦ rw (e, bit_message) (cons (make_cc-IsControlChange _ m.cc _) nil)
  ]

  bit_loop-All :
      (left b i diff current : ℕ) → All IsControlChange (bit_loop t s left b i diff current)
  unfolding bit_loop
  bit_loop-All zero b i diff current = nil
  bit_loop-All (suc left) b i diff current =
      All-append (All-if _ nil (bit_message-All i b _)) (bit_loop-All left (suc b) i diff current)

  byte_messages-All : (i p c : ℕ) → All IsControlChange (byte_messages t s i p c)
  unfolding byte_messages
  byte_messages-All i p c =
      All-if _ nil
        (All-append (All-if _ (byte_view-All i _ _) nil) (All-if _ (bit_loop-All 8 0 i _ c) nil))

  decode_from-All : (i : ℕ) (ps cs : List ℕ) → All IsControlChange (decode_from t s i ps cs)
  unfolding decode_from
  decode_from-All i [] cs = nil
  decode_from-All i (p ∷ ps) [] = nil
  decode_from-All i (p ∷ ps) (c ∷ cs) =
      All-append (byte_messages-All i p c) (decode_from-All (suc i) ps cs)

  pub decode_messages-All :
      (ps report : List ℕ) → All IsControlChange (decode_messages t s ps report)
  unfolding decode_messages
  decode_messages-All [] report = nil
  decode_messages-All (p ∷ ps) report = decode_from-All 0 (p ∷ ps) report

-- Every message that `decode_input` emits is a control change: a status byte 0xB0 to 0xBF and two
-- data bytes below 128, whatever the tables, the state and the report.
pub decode_input-IsControlChange :
    (t : MapTables) (s : S4GenericProtocol) (report : List ℕ)
    → All IsControlChange (decode_input t s report).1
unfolding decode_input
decode_input-IsControlChange t s report = decode_messages-All t s s.previous_report report
