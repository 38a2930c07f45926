-- ===== src/Protocol.antt =====
-- src/s4_generic_protocol.cpp and its header, with include/midi_types.hpp and include/protocol.hpp.
-- A report and a MIDI message are lists of bytes. The mapping tables at the head of the source file
-- are an argument, `MapTables`; `s4_tables` holds those of the source.
pub mod Messages
pub mod Baseline
pub mod BitView
pub mod BitAnswers
pub mod Listening
pub mod ByteView
pub mod Addresses
pub mod Drift
pub mod Feedback
mod Tests
use s4_mk1_usb2midi.Common.{
  ℕ, zero, suc, ◌+◌, ◌-◌, ◌*◌, ◌/◌, ◌%◌, min, bit_and, bit_or, bit_xor, Bool, true, false, not,
  ◌&&◌, Option, none, some, List, [], ◌∷◌, ◌++◌, ℤ, pos, negsuc, ltb, leb, ◌==◌, if◌then◌else◌, u8,
  u16, shr, bit_at, length, take, drop, get_elem?,
}

pub record MidiMessage : Type 0 where
  pub bytes : List ℕ

pub data InputDecodeMode : Type 0 where
  byte bit hybrid : InputDecodeMode

pub make_cc : ℕ → ℕ → ℕ → MidiMessage
make_cc channel controller value = record {
  bytes =
      u8 (bit_or 0xb0 (bit_and channel 0x0f))
      ∷ u8 (bit_and controller 0x7f)
      ∷ u8 (bit_and value 0x7f)
      ∷ [];
}

pub record ByteMapEntry : Type 0 where
  pub byte_index : ℕ
  pub midi_channel : ℕ
  pub cc : ℕ
  pub deadzone_override : ℤ

pub record BitMapEntry : Type 0 where
  pub byte_index : ℕ
  pub bit_index : ℕ
  pub midi_channel : ℕ
  pub cc : ℕ
  pub invert : Bool

pub record MapTables : Type 0 where
  pub byte_mappings : List ByteMapEntry
  pub bit_mappings : List BitMapEntry
  pub emit_unmapped_byte : Bool
  pub emit_unmapped_bit : Bool

abbrev entry : ℕ → ℕ → ℕ → ℕ → BitMapEntry
entry i b channel cc = record {
  byte_index = i;
  bit_index = b;
  midi_channel = channel;
  cc = cc;
  invert = false;
}

abbrev pub s4_tables : MapTables
s4_tables = record {
  byte_mappings = [];
  bit_mappings =
      entry 4 7 1 20 ∷ entry 4 5 1 21 ∷ entry 4 3 1 22 ∷ entry 4 1 1 23 ∷ entry 7 3 1 24 ∷ [];
  emit_unmapped_byte = true;
  emit_unmapped_bit = true;
}

pub find_byte_mapping : List ByteMapEntry → ℕ → Option ByteMapEntry
find_byte_mapping [] i = none
find_byte_mapping (e ∷ es) i = if e.byte_index == i then some e else find_byte_mapping es i

pub find_bit_mapping : List BitMapEntry → ℕ → ℕ → Option BitMapEntry
find_bit_mapping [] i b = none
find_bit_mapping (e ∷ es) i b =
    if e.byte_index == i && e.bit_index == b then some e else find_bit_mapping es i b

pub ch1_to_status_nibble : ℕ → ℕ → ℕ
ch1_to_status_nibble channel fallback =
    if leb 1 channel && leb channel 16 then u8 (channel - 1) else fallback

pub record S4GenericProtocol : Type 0 where
  pub base_channel : ℕ
  pub input_deadzone : ℕ
  pub decode_mode : InputDecodeMode
  pub previous_report : List ℕ
  pub warned_about_led_protocol : Bool

pub new_protocol : ℕ → ℕ → InputDecodeMode → S4GenericProtocol
new_protocol base_channel input_deadzone decode_mode = record {
  base_channel = u8 (bit_and base_channel 0x0f);
  input_deadzone = u8 (min input_deadzone 127);
  decode_mode = decode_mode;
  previous_report = [];
  warned_about_led_protocol = false;
}

-- `max(0, min(127, dz))`, cast to `uint8_t`.
pub clamp_deadzone : ℤ → ℕ
clamp_deadzone (pos n) = u8 (min 127 n)
clamp_deadzone (negsuc n) = 0

-- A negative override stands for the global deadzone.
pub entry_deadzone : ℤ → ℕ → ℤ
entry_deadzone (pos n) global = pos n
entry_deadzone (negsuc n) global = pos global

-- `(x >> 1) & 0x7F`.
pub value7 : ℕ → ℕ
value7 x = u8 (bit_and (shr x 1) 0x7f)

pub delta7 : ℕ → ℕ → ℕ
unfolding value7
delta7 previous current =
    let p = value7 previous in let c = value7 current in u8 (if ltb c p then p - c else c - p)

pub on_value : Bool → ℕ
on_value on = if on then 127 else 0

pub emits_bytes : InputDecodeMode → Bool
emits_bytes byte = true
emits_bytes bit = false
emits_bytes hybrid = true

pub emits_bits : InputDecodeMode → Bool
emits_bits byte = false
emits_bits bit = true
emits_bits hybrid = true

-- The fallback messages of bytes and bits that have no mapping.
module _ (s : S4GenericProtocol) where
  pub raw_byte : ℕ → ℕ → MidiMessage
  raw_byte i raw = make_cc (u8 (bit_and (s.base_channel + u16 i / 128) 0x0f)) (u8 (u16 i % 128)) raw

  pub raw_bit : ℕ → ℕ → Bool → MidiMessage
  raw_bit i b is_on =
      let index = u16 (i * 8 + b) in
      make_cc (u8 (bit_and (s.base_channel + index / 128) 0x0f)) (u8 (index % 128)) (on_value is_on)

module _ (t : MapTables) (s : S4GenericProtocol) where
  -- The mapped half of the byte view: the message, if one is emitted.
  pub mapped_byte : ℕ → ℕ → ℕ → List MidiMessage
  mapped_byte i delta raw = elim (find_byte_mapping t.byte_mappings i) [
    | none ↦ []
    | some e ↦
        if ltb (clamp_deadzone (entry_deadzone e.deadzone_override s.input_deadzone)) delta
        then make_cc (ch1_to_status_nibble e.midi_channel s.base_channel) e.cc raw ∷ []
        else []
  ]

  -- The raw message, if the mapped half emitted none.
  pub with_fallback : ℕ → ℕ → ℕ → List MidiMessage → List MidiMessage
  with_fallback i delta raw (m ∷ ms) = m ∷ ms
  with_fallback i delta raw [] =
      if t.emit_unmapped_byte && ltb s.input_deadzone delta then raw_byte s i raw ∷ [] else []

  pub byte_view : ℕ → ℕ → ℕ → List MidiMessage
  byte_view i delta raw = with_fallback i delta raw (mapped_byte i delta raw)

  -- One flipped bit.
  pub bit_message : ℕ → ℕ → Bool → List MidiMessage
  bit_message i b is_on = elim (find_bit_mapping t.bit_mappings i b) [
    | some e ↦
        make_cc (ch1_to_status_nibble e.midi_channel s.base_channel) e.cc
          (on_value (if e.invert then not is_on else is_on))
        ∷ []
    | none ↦ if t.emit_unmapped_bit then raw_bit s i b is_on ∷ [] else []
  ]

  -- The loop over the bits, with `left` rounds to go.
  pub bit_loop : ℕ → ℕ → ℕ → ℕ → ℕ → List MidiMessage
  bit_loop zero b i diff current = []
  bit_loop (suc left) b i diff current =
      (if bit_at diff b == 0 then [] else bit_message i b (not (bit_at current b == 0)))
      ++ bit_loop left (suc b) i diff current

  -- One round of the loop over the bytes.
  pub byte_messages : ℕ → ℕ → ℕ → List MidiMessage
  unfolding emits_bytes emits_bits
  byte_messages i previous current =
      if previous == current
      then []
      else (if emits_bytes s.decode_mode
          then byte_view i (delta7 previous current) (value7 current)
          else [])
        ++ (if emits_bits s.decode_mode
            then bit_loop 8 0 i (u8 (bit_xor previous current)) current
            else [])

  -- The loop over the bytes that both reports have.
  pub decode_from : ℕ → List ℕ → List ℕ → List MidiMessage
  decode_from i [] report = []
  decode_from i (p ∷ ps) [] = []
  decode_from i (p ∷ ps) (c ∷ cs) = byte_messages i p c ++ decode_from (suc i) ps cs

  -- The first report is the baseline.
  pub decode_messages : List ℕ → List ℕ → List MidiMessage
  decode_messages [] report = []
  decode_messages (p ∷ ps) report = decode_from 0 (p ∷ ps) report

  pub decode_input : List ℕ → S4GenericProtocol × List MidiMessage
  decode_input report =
      (record s { previous_report = report }, decode_messages s.previous_report report)

abbrev pub byte_or_0 : Option ℕ → ℕ
byte_or_0 none = 0
byte_or_0 (some b) = b

-- Reads of the source that its length test keeps in range.
pub is_injection : List ℕ → Bool
is_injection m =
    leb 5 (length m)
    && byte_or_0 (get_elem? m 0) == 0xf0
    && byte_or_0 (get_elem? m (length m - 1)) == 0xf7
    && byte_or_0 (get_elem? m 1) == 0x7d
    && byte_or_0 (get_elem? m 2) == 0x53
    && byte_or_0 (get_elem? m 3) == 0x34

-- The result, and whether the warning is written to the error stream.
pub record EncodeResult : Type 0 where
  pub payload : Option (List ℕ)
  pub warns : Bool

pub encode_output : S4GenericProtocol → List ℕ → S4GenericProtocol × EncodeResult
unfolding is_injection
encode_output s m =
    if is_injection m
    then (s, record { payload = some (take (length m - 5) (drop 4 m)); warns = false })
    else (
      record s { warned_about_led_protocol = true },
      record { payload = none; warns = not s.warned_about_led_protocol },
    )
