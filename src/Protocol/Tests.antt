-- ===== src/Protocol/Tests.antt =====
-- The unit tests of tools/tests/test_s4_generic_protocol.cpp, and the theorems at concrete inputs.
use s4_mk1_usb2midi.Protocol.Listening.{heard}
use s4_mk1_usb2midi.Protocol.BitAnswers.{
  decode_input-flips, answers, answer, mappings_of, mapped_channel, pressed,
}
use s4_mk1_usb2midi.Common.{
  ℕ, true, false, none, some, List, [], ◌∷◌, ◌≡◌, refl, arith, bit_at, map, pos, ◌↔◌, All,
}
use s4_mk1_usb2midi.Protocol.{
  MapTables, ByteMapEntry, S4GenericProtocol, InputDecodeMode, byte, bit, hybrid, new_protocol,
  s4_tables, decode_input, encode_output, decode_messages, decode_from, byte_messages, byte_view,
  bit_loop, mapped_byte, bit_message, with_fallback, find_bit_mapping, raw_byte, delta7, make_cc,
  value7, on_value, find_byte_mapping, ch1_to_status_nibble,
}
use s4_mk1_usb2midi.Protocol.Messages.{IsControlChange, decode_input-IsControlChange}
use s4_mk1_usb2midi.Protocol.Baseline.{decode_all, pairwise, last_or, decode_all-pairwise}
use s4_mk1_usb2midi.Protocol.BitView.{flips, byte_flips}
use s4_mk1_usb2midi.Protocol.ByteView.{moves, move_message, decode_input-moves}
use s4_mk1_usb2midi.Protocol.Addresses.{read_flip, listener_hears_report}
use s4_mk1_usb2midi.Protocol.Drift.{slow_drift_silent}
use s4_mk1_usb2midi.Protocol.Feedback.{injection, encode_output-payload_iff}

abbrev start : InputDecodeMode → ℕ → List ℕ → S4GenericProtocol
start mode deadzone previous = record {
  base_channel = 0;
  input_deadzone = deadzone;
  decode_mode = mode;
  previous_report = previous;
  warned_about_led_protocol = false;
}

abbrev quiet_tables : MapTables
quiet_tables = record s4_tables { bit_mappings = [] }

first_packet_is_baseline : (decode_input s4_tables (new_protocol 0 0 byte) (0 ∷ 0 ∷ 0 ∷ [])).1 ≡ []
unfolding decode_input decode_messages new_protocol
first_packet_is_baseline = refl

byte_mode_emits_raw_unmapped_cc :
    (decode_input s4_tables (start byte 0 (0 ∷ 0 ∷ [])) (4 ∷ 0 ∷ [])).1
    ≡ record { bytes = 0xb0 ∷ 0 ∷ 2 ∷ [] } ∷ []
unfolding decode_input decode_messages decode_from byte_messages byte_view mapped_byte with_fallback
    raw_byte make_cc delta7 value7 find_byte_mapping
byte_mode_emits_raw_unmapped_cc = refl

byte_deadzone_filters_small_change :
    (decode_input s4_tables (start byte 1 (0 ∷ [])) (2 ∷ [])).1 ≡ []
unfolding decode_input decode_messages decode_from byte_messages byte_view mapped_byte with_fallback
    delta7 value7 find_byte_mapping
byte_deadzone_filters_small_change = refl

bit_mode_emits_mapped_button :
    (decode_input s4_tables (start bit 0 (0 ∷ 0 ∷ 0 ∷ 0 ∷ 0 ∷ [])) (0 ∷ 0 ∷ 0 ∷ 0 ∷ 0x80 ∷ [])).1
    ≡ record { bytes = 0xb0 ∷ 20 ∷ 127 ∷ [] } ∷ []
unfolding decode_input decode_messages decode_from byte_messages bit_loop bit_message
    find_bit_mapping make_cc on_value ch1_to_status_nibble
bit_mode_emits_mapped_button = refl

encode_output_sysex_passthrough :
    (encode_output (start byte 0 []) (0xf0 ∷ 0x7d ∷ 0x53 ∷ 0x34 ∷ 0x10 ∷ 0x11 ∷ 0x12 ∷ 0xf7 ∷ [])).1
    ≡ record { payload = some (0x10 ∷ 0x11 ∷ 0x12 ∷ []); warns = false }
unfolding encode_output
encode_output_sysex_passthrough = refl

encode_output_rejects_regular_midi :
    (encode_output (start byte 0 []) (0x90 ∷ 0x3c ∷ 0x7f ∷ [])).1
    ≡ record { payload = none; warns = true }
unfolding encode_output
encode_output_rejects_regular_midi = refl

decode_input-IsControlChange_example :
    All IsControlChange (decode_input s4_tables (start hybrid 0 (0 ∷ [])) (0x84 ∷ [])).1
decode_input-IsControlChange_example =
    decode_input-IsControlChange s4_tables (start hybrid 0 (0 ∷ [])) (0x84 ∷ [])

decode_all-pairwise_example :
    decode_all s4_tables (start byte 0 []) ((1 ∷ []) ∷ (9 ∷ []) ∷ [])
    ≡ (start byte 0 (9 ∷ []), pairwise s4_tables (start byte 0 []) [] ((1 ∷ []) ∷ (9 ∷ []) ∷ []))
unfolding last_or
decode_all-pairwise_example =
    decode_all-pairwise s4_tables (start byte 0 []) ((1 ∷ []) ∷ (9 ∷ []) ∷ [])

-- Bit 1 of byte 0 is mapped, inverted, to controller 9 of channel 3.
abbrev inverted_tables : MapTables
inverted_tables = record s4_tables {
  bit_mappings =
      record { byte_index = 0; bit_index = 1; midi_channel = 3; cc = 9; invert = true } ∷ [];
}

inverted_bit_answers :
    answers inverted_tables 0 (flips 0 (0x01 ∷ []) (0x22 ∷ []))
    ≡ record { bytes = 0xb0 ∷ 0 ∷ 0 ∷ [] }
      ∷ record { bytes = 0xb2 ∷ 9 ∷ 0 ∷ [] }
      ∷ record { bytes = 0xb0 ∷ 5 ∷ 127 ∷ [] }
      ∷ []
unfolding answers answer mappings_of mapped_channel pressed flips byte_flips
inverted_bit_answers = refl

decode_input-flips_example :
    (decode_input inverted_tables (start bit 0 (0x01 ∷ [])) (0x22 ∷ [])).1
    ≡ answers inverted_tables 0 (flips 0 (0x01 ∷ []) (0x22 ∷ []))
decode_input-flips_example =
    decode_input-flips inverted_tables (start bit 0 (0x01 ∷ [])) (0x22 ∷ []) refl

listener_hears_report_example :
    heard 1 5
      (bit_at 0 5)
      (map (read_flip 0) (decode_input quiet_tables (start bit 0 (0 ∷ 0 ∷ [])) (0 ∷ 0x20 ∷ [])).1)
    ≡ bit_at 0x20 5
listener_hears_report_example =
    listener_hears_report quiet_tables (start bit 0 (0 ∷ 0 ∷ [])) (0 ∷ 0x20 ∷ []) 1 5 0 0x20 refl
      refl refl (omega arith) (omega arith) (omega arith) refl refl

decode_input-moves_example :
    (decode_input s4_tables (start byte 1 (0 ∷ 0 ∷ [])) (4 ∷ 2 ∷ [])).1
    ≡ map (move_message (start byte 1 (0 ∷ 0 ∷ []))) (moves 1 0 (0 ∷ 0 ∷ []) (4 ∷ 2 ∷ []))
decode_input-moves_example =
    decode_input-moves s4_tables (start byte 1 (0 ∷ 0 ∷ [])) (4 ∷ 2 ∷ []) refl refl refl

slow_drift_silent_example :
    (decode_all s4_tables
      (start byte 1 (0 ∷ []))
      ((2 ∷ []) ∷ (4 ∷ []) ∷ (6 ∷ []) ∷ (8 ∷ []) ∷ (10 ∷ []) ∷ [])).1
    ≡ []
slow_drift_silent_example =
    slow_drift_silent s4_tables (start byte 1 (0 ∷ []))
      ((2 ∷ []) ∷ (4 ∷ []) ∷ (6 ∷ []) ∷ (8 ∷ []) ∷ (10 ∷ []) ∷ []) refl refl refl (omega arith)

abbrev wide_entry : ByteMapEntry
wide_entry = record { byte_index = 83; midi_channel = 1; cc = 10; deadzone_override = pos 20 }

encode_output-payload_iff_example :
    ((encode_output (start byte 0 []) (injection (5 ∷ 6 ∷ []))).1.payload ≡ some (5 ∷ 6 ∷ []))
    ↔ (injection (5 ∷ 6 ∷ []) ≡ injection (5 ∷ 6 ∷ []))
encode_output-payload_iff_example =
    encode_output-payload_iff (start byte 0 []) (injection (5 ∷ 6 ∷ [])) (5 ∷ 6 ∷ [])
