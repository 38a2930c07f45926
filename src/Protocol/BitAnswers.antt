-- ===== src/Protocol/BitAnswers.antt =====
-- The messages of the bit view, written out: by the mapping of each bit that flips.
use s4_mk1_usb2midi.Protocol.BitView.{Flip, flips, messages_of, decode_input-messages_of}
use s4_mk1_usb2midi.Protocol.{
  bit_message, find_bit_mapping, ch1_to_status_nibble, on_value, BitMapEntry, MapTables,
  MidiMessage, S4GenericProtocol, bit, decode_input,
}
use s4_mk1_usb2midi.Protocol.Messages.{make_cc_lem}
use s4_mk1_usb2midi.Protocol.Addresses.{raw_bit_lem}
use s4_mk1_usb2midi.Common.{
  ℕ, Bool, List, ◌∷◌, Option, ◌≡◌, ◌%◌, true, false, if◌then◌else◌, ◌==◌, ◌+◌, leb, [], ◌++◌, none,
  arith, not, ◌&&◌, ◌*◌, some, refl, ◌-◌, ◌/◌, ◌∙◌, ap,
}

-- The mappings of a bit, in the order of the table.
unfoldable pub mappings_of : ℕ → ℕ → List BitMapEntry → List BitMapEntry
mappings_of i b [] = []
mappings_of i b (e ∷ es) =
    let rest = mappings_of i b es in
    if e.byte_index == i && e.bit_index == b then e ∷ rest else rest

-- A control change on a channel from 0 up.
abbrev pub control_change : ℕ → ℕ → ℕ → MidiMessage
control_change channel controller value = record {
  bytes = (0xb0 + channel) ∷ controller ∷ value ∷ [];
}

-- The channel of a mapping: its own, counted from 1, or the base channel where that is none.
unfoldable pub mapped_channel : ℕ → ℕ → ℕ
mapped_channel base channel = if leb 1 channel && leb channel 16 then channel - 1 else base % 16

-- The value of a press or a release, by whether the mapping is inverted.
unfoldable pub pressed : Bool → Bool → ℕ
pressed false true = 127
pressed false false = 0
pressed true true = 0
pressed true false = 127

-- What is sent for a flip: by the first of its mappings, or else, where unmapped bits are sent, at
-- the address of the bit, counted through the report from the base channel on.
unfoldable pub answer : Bool → ℕ → Flip → List BitMapEntry → List MidiMessage
answer emits base f (e ∷ es) =
    control_change (mapped_channel base e.midi_channel) (e.cc % 128) (pressed e.invert f.on) ∷ []
answer emits base f [] =
    let index = (f.index * 8 + f.bit) % 65536 in
    if emits
    then control_change ((base + index / 128) % 16) (index % 128) (pressed false f.on) ∷ []
    else []

unfoldable pub answers : MapTables → ℕ → List Flip → List MidiMessage
answers t base [] = []
answers t base (f ∷ fs) =
    answer t.emit_unmapped_bit base f (mappings_of f.index f.bit t.bit_mappings)
    ++ answers t base fs

first_of : List BitMapEntry → Option BitMapEntry
first_of [] = none
first_of (e ∷ es) = some e

find_bit_mapping-first :
    (es : List BitMapEntry) (i b : ℕ) → find_bit_mapping es i b ≡ first_of (mappings_of i b es)
unfolding find_bit_mapping mappings_of first_of
find_bit_mapping-first [] i b = refl
find_bit_mapping-first (e ∷ es) i b = ground (arith, find_bit_mapping-first es i b)

channel_lem : (base c : ℕ) → ch1_to_status_nibble c base % 16 ≡ mapped_channel base c
unfolding ch1_to_status_nibble mapped_channel
channel_lem base c = ground arith

pressed_lem :
    (invert on : Bool) → on_value (if invert then not on else on) % 128 ≡ pressed invert on
unfolding on_value pressed
pressed_lem true true = refl
pressed_lem true false = refl
pressed_lem false true = refl
pressed_lem false false = refl

unmapped_value : (on : Bool) → (if on then 127 else 0) ≡ pressed false on
unfolding pressed
unmapped_value true = refl
unmapped_value false = refl

module _ (t : MapTables) (s : S4GenericProtocol) where
  bit_message-answer :
      (f : Flip) (es : List BitMapEntry)
      → mappings_of f.index f.bit t.bit_mappings ≡ es
      → bit_message t s f.index f.bit f.on ≡ answer t.emit_unmapped_bit s.base_channel f es
  unfolding bit_message answer first_of
  bit_message-answer f [] h =
      let unmapped : find_bit_mapping t.bit_mappings f.index f.bit ≡ none =
        find_bit_mapping-first t.bit_mappings f.index f.bit ∙ ap first_of h in
      rw (unmapped, bit_message, raw_bit_lem s f.index f.bit f.on, unmapped_value f.on) refl
  bit_message-answer f (e ∷ es) h =
      let mapped : find_bit_mapping t.bit_mappings f.index f.bit ≡ some e =
        find_bit_mapping-first t.bit_mappings f.index f.bit ∙ ap first_of h in
      rw
        (
          mapped,
          bit_message,
          make_cc_lem (ch1_to_status_nibble e.midi_channel s.base_channel) e.cc
              (on_value (if e.invert then not f.on else f.on)),
          channel_lem s.base_channel e.midi_channel,
          pressed_lem e.invert f.on,
        )
        refl

  messages_of-answers : (fs : List Flip) → messages_of t s fs ≡ answers t s.base_channel fs
  unfolding messages_of answers
  messages_of-answers [] = refl
  messages_of-answers (f ∷ fs) = rw (bit_message-answer f _ refl, messages_of-answers fs) refl

-- In bit mode `decode_input` emits, for the bits that flip from the last report to the new one, byte
-- by byte and from the lowest bit up, and for nothing else: by the first mapping of the bit, its
-- controller on its channel, 127 for a bit that turns on and 0 for one that turns off, the other way
-- round where the mapping is inverted; for a bit with no mapping, and only where such bits are sent,
-- the same values at the address of the bit.
pub decode_input-flips :
    (t : MapTables) (s : S4GenericProtocol) (report : List ℕ)
    → s.decode_mode ≡ bit
    → (decode_input t s report).1 ≡ answers t s.base_channel (flips 0 s.previous_report report)
decode_input-flips t s report h =
    decode_input-messages_of t s report h
    ∙ messages_of-answers t s (flips 0 s.previous_report report)
