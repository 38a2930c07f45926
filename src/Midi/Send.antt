-- ===== src/Midi/Send.antt =====
-- `send`: what reaches the virtual source.
use s4_mk1_usb2midi.Common.{
  ℕ, ◌+◌, ◌≤◌, true, List, [], ◌∷◌, if◌then◌else◌, ◌≡◌, ◌≢◌, refl, arith, length, All, nil, cons,
  All-mono, ◌∙◌, ap, Bool,
}
use s4_mk1_usb2midi.Protocol.{MidiMessage, MapTables, S4GenericProtocol, decode_input}
use s4_mk1_usb2midi.Protocol.Messages.{IsControlChange, decode_input-IsControlChange}
use s4_mk1_usb2midi.Midi.{
  CoreMidiBridge, PacketApi, published, publish_failed, send, sanitize, packet_list_size,
  is_channel_status,
}
use s4_mk1_usb2midi.Midi.Sanitize.{sanitize-id}

-- The documented behaviour of `MIDIPacketListAdd`: it takes what fits behind the two headers.
abbrev pub TakesWhatFits : PacketApi → Type 0
TakesWhatFits api =
    (size : ℕ) (bytes : List ℕ)
    → api.packet_offset + api.data_offset + length bytes ≤ size
    → api.list_add size bytes ≡ true

-- The buffer is large enough: the packet list is always built, and what is published is the
-- sanitized message.
pub send-TakesWhatFits :
    (api : PacketApi) (b : CoreMidiBridge) (m : List ℕ)
    → TakesWhatFits api
    → m ≢ []
    → send api b m
      ≡ (if api.received b.source (sanitize m) then published (sanitize m) else publish_failed)
unfolding send packet_list_size
send-TakesWhatFits api b [] fits h = absurd (h refl)
send-TakesWhatFits api b (x ∷ xs) fits h =
    ground
      (arith, fits (packet_list_size api (sanitize (x ∷ xs))) (sanitize (x ∷ xs)) (omega arith))

module _ (api : PacketApi) (b : CoreMidiBridge) (fits : TakesWhatFits api)
    (accepts : (bytes : List ℕ) → api.received b.source bytes ≡ true) where
  send_control_change :
      (m : MidiMessage) → IsControlChange m → send api b m.bytes ≡ published m.bytes
  send_control_change m (c, n, v, hc, hn, hv, e) =
      rw
        (
          e,
          send-TakesWhatFits api b ((176 + c) ∷ n ∷ v ∷ []) fits (λ e'. cc),
          accepts,
          sanitize-id (176 + c) (cons hn (cons hv nil)),
        )
        refl

-- Every message of the decoder is published byte for byte, where CoreMIDI takes packets that fit
-- and the source accepts them.
pub send-decode_input :
    (api : PacketApi) (b : CoreMidiBridge) (t : MapTables) (s : S4GenericProtocol) (report : List ℕ)
    → TakesWhatFits api
    → ((bytes : List ℕ) → api.received b.source bytes ≡ true)
    → All (λ m. send api b m.bytes ≡ published m.bytes) (decode_input t s report).1
send-decode_input api b t s report fits accepts =
    All-mono (send_control_change api b fits accepts) (decode_input-IsControlChange t s report)

-- A SysEx message is published byte for byte.
pub send-sysex :
    (api : PacketApi) (b : CoreMidiBridge) (body : List ℕ)
    → TakesWhatFits api
    → ((bytes : List ℕ) → api.received b.source bytes ≡ true)
    → send api b (0xf0 ∷ body) ≡ published (0xf0 ∷ body)
unfolding sanitize is_channel_status
send-sysex api b body fits accepts =
    send-TakesWhatFits api b (0xf0 ∷ body) fits (λ e. cc)
    ∙ ap (λ (x : Bool). if x then published (0xf0 ∷ body) else publish_failed)
        (accepts (0xf0 ∷ body))
