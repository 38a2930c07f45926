-- ===== src/Midi/Tests.antt =====
-- The theorems on the CoreMIDI side at concrete inputs.
use s4_mk1_usb2midi.Common.{
  ℕ, ◌+◌, true, none, some, List, [], ◌∷◌, ◌≡◌, refl, arith, length, leb, All,
}
use s4_mk1_usb2midi.Protocol.{byte, new_protocol, s4_tables, decode_input}
use s4_mk1_usb2midi.Midi.{
  CoreMidiBridge, PacketApi, Outcome, returns, thrown, throws, no_source, no_destination, published,
  sanitize, send, read_proc, new_bridge,
}
use s4_mk1_usb2midi.Midi.Resources.{live, new_bridge_leaks}
use s4_mk1_usb2midi.Midi.Sanitize.{sanitize_idem}
use s4_mk1_usb2midi.Midi.Send.{send-decode_input}
use s4_mk1_usb2midi.Midi.Receive.{done, step, read_proc-thrown}

-- CoreMIDI with headers of 4 and 10 bytes, which takes what fits and accepts every packet.
abbrev packet_api : PacketApi
packet_api = record {
  packet_offset = 4;
  data_offset = 10;
  list_add = λ size bytes. leb (14 + length bytes) size;
  received = λ source bytes. true;
}

abbrev bridge : CoreMidiBridge
bridge = record { client = 1; source = 2; destination = 3 }

new_bridge_leaks_example :
    ((new_bridge (record { client = some 1; source = none; destination = none })).0
      ≡ throws no_source)
    × (live [] (new_bridge (record { client = some 1; source = none; destination = none })).1
        ≡ 1 ∷ [])
    × ((new_bridge (record { client = some 1; source = some 2; destination = none })).0
        ≡ throws no_destination)
    × (live [] (new_bridge (record { client = some 1; source = some 2; destination = none })).1
        ≡ 2 ∷ 1 ∷ [])
new_bridge_leaks_example = new_bridge_leaks 1 2 none

sanitize_idem_example :
    sanitize (sanitize (0x90 ∷ 0xc0 ∷ 0x7f ∷ [])) ≡ sanitize (0x90 ∷ 0xc0 ∷ 0x7f ∷ [])
sanitize_idem_example = sanitize_idem (0x90 ∷ 0xc0 ∷ 0x7f ∷ [])

send-decode_input_example :
    All
      (λ m. send packet_api bridge m.bytes ≡ published m.bytes)
      (decode_input s4_tables
        (decode_input s4_tables (new_protocol 0 0 byte) (0 ∷ [])).0
        (9 ∷ [])).1
send-decode_input_example =
    send-decode_input packet_api bridge s4_tables
      (decode_input s4_tables (new_protocol 0 0 byte) (0 ∷ [])).0 (9 ∷ [])
      (λ size bytes h. ground arith) (λ bytes. refl)

-- A callback that counts packets and throws at an empty one.
abbrev counting : List ℕ → ℕ → Outcome ℕ
counting [] n = thrown (n + 10)
counting (b ∷ bs) n = returns (n + 1)

read_proc-thrown_example :
    (read_proc (some counting) (some ((1 ∷ []) ∷ (2 ∷ []) ∷ [])) 0 ≡ 2)
    × (read_proc (some counting) (some ((1 ∷ []) ∷ (2 ∷ []) ∷ [] ∷ (3 ∷ []) ∷ [])) 0 ≡ 12)
read_proc-thrown_example =
    read_proc-thrown counting 0 2 12 [] ((1 ∷ []) ∷ (2 ∷ []) ∷ []) ((3 ∷ []) ∷ [])
      (step refl (step refl done)) refl
