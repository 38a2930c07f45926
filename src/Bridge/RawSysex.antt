-- ===== src/Bridge/RawSysex.antt =====
-- The raw SysEx copy of a USB packet that run_bridge of src/main.cpp publishes.
use s4_mk1_usb2midi.Common.{
  ℕ, ◌+◌, ◌*◌, ◌/◌, ◌%◌, Option, none, some, List, [], ◌∷◌, ◌++◌, ◌==◌, ◌&&◌, if◌then◌else◌, ◌≡◌,
  refl, arith, bit_and, bit_and_15, shr, u8, All, nil, cons, IsByte, length, length-append, true,
}
use s4_mk1_usb2midi.Midi.Sanitize.{IsData, sanitize-other, is_channel_status_lem}
use s4_mk1_usb2midi.Midi.{PacketApi, CoreMidiBridge, send, published, sanitize}
use s4_mk1_usb2midi.Protocol.{S4GenericProtocol, encode_output}
use s4_mk1_usb2midi.Midi.Send.{TakesWhatFits, send-TakesWhatFits}
use s4_mk1_usb2midi.Protocol.Feedback.{encode_output-payload_iff}

pub nibbles : List ℕ → List ℕ
nibbles [] = []
nibbles (b ∷ bs) = u8 (bit_and (shr b 4) 0x0f) ∷ u8 (bit_and b 0x0f) ∷ nibbles bs

pub raw_sysex_message : List ℕ → List ℕ
raw_sysex_message packet = 0xf0 ∷ 0x7d ∷ 0x53 ∷ 0x34 ∷ 0x02 ∷ (nibbles packet ++ 0xf7 ∷ [])

nibbles-cons : (b : ℕ) (bs : List ℕ) → nibbles (b ∷ bs) ≡ (b / 16 % 16) ∷ (b % 16) ∷ nibbles bs
unfolding nibbles
nibbles-cons b bs = ground (arith, bit_and_15 (shr b 4), bit_and_15 b)

-- A reader of the pairs: to the end marker, high nibble first.
read_pairs : List ℕ → Option (List ℕ)
read_pairs [] = none
read_pairs (e ∷ []) = if e == 0xf7 then some [] else none
read_pairs (hi ∷ lo ∷ rest) = mathlib.Core.Option.map (λ bs. (hi * 16 + lo) ∷ bs) (read_pairs rest)

-- A reader of the whole message, which checks its five leading bytes.
pub read_raw_sysex : List ℕ → Option (List ℕ)
unfolding read_pairs
read_raw_sysex (a ∷ b ∷ c ∷ d ∷ e ∷ rest) =
    if a == 0xf0 && b == 0x7d && c == 0x53 && d == 0x34 && e == 0x02 then read_pairs rest else none
read_raw_sysex m = none

read_pairs-nibbles :
    {packet : List ℕ} → All IsByte packet → read_pairs (nibbles packet ++ 0xf7 ∷ []) ≡ some packet
unfolding read_pairs
read_pairs-nibbles nil = unfold nibbles in refl
read_pairs-nibbles (cons {x = b} {xs = bs} h hs) =
    rw (nibbles-cons b bs, read_pairs-nibbles hs) (ground arith)

-- The packet can be read back from its SysEx copy.
pub read_raw_sysex-raw_sysex_message :
    (packet : List ℕ) → All IsByte packet → read_raw_sysex (raw_sysex_message packet) ≡ some packet
unfolding read_raw_sysex raw_sysex_message
read_raw_sysex-raw_sysex_message packet h = read_pairs-nibbles h

nibbles-All : (bs : List ℕ) → All IsData (nibbles bs)
nibbles-All [] = unfold nibbles in nil
nibbles-All (b ∷ bs) =
    rw (nibbles-cons b bs) (cons (omega arith) (cons (omega arith) (nibbles-All bs)))

length-nibbles : (bs : List ℕ) → length (nibbles bs) ≡ 2 * length bs
length-nibbles [] = unfold nibbles in refl
length-nibbles (b ∷ bs) = rw (nibbles-cons b bs) (omega (arith, length-nibbles bs))

-- The copy is one well-formed SysEx message: F0, data bytes below 128 and F7, six bytes and two for
-- each byte of the packet, whatever the packet.
pub raw_sysex_message-IsSysex :
    (packet : List ℕ)
    → (body : List ℕ) × (raw_sysex_message packet ≡ 0xf0 ∷ (body ++ 0xf7 ∷ []))
      × All IsData body
      × (length (raw_sysex_message packet) ≡ 6 + 2 * length packet)
unfolding raw_sysex_message
raw_sysex_message-IsSysex packet = (
  0x7d ∷ 0x53 ∷ 0x34 ∷ 0x02 ∷ nibbles packet,
  refl,
  cons (omega arith)
      (cons (omega arith) (cons (omega arith) (cons (omega arith) (nibbles-All packet)))),
  omega (arith, length-append (nibbles packet) (0xf7 ∷ []), length-nibbles packet),
)

-- It passes `send` unchanged, where CoreMIDI takes packets that fit and the source accepts it.
pub send-raw_sysex_message :
    (api : PacketApi) (b : CoreMidiBridge) (packet : List ℕ)
    → TakesWhatFits api
    → api.received b.source (raw_sysex_message packet) ≡ true
    → send api b (raw_sysex_message packet) ≡ published (raw_sysex_message packet)
unfolding raw_sysex_message
send-raw_sysex_message api b packet fits accepts =
    let same : sanitize (raw_sysex_message packet) ≡ raw_sysex_message packet =
      sanitize-other 0xf0 (0x7d ∷ 0x53 ∷ 0x34 ∷ 0x02 ∷ (nibbles packet ++ 0xf7 ∷ []))
        (is_channel_status_lem 0xf0 (omega arith)) in
    rw (send-TakesWhatFits api b (raw_sysex_message packet) fits (λ e. cc), same, accepts) refl

-- The copy has the form of a feedback injection: sent back to the feedback port it is written to the
-- device, the type byte 02 first and then the nibbles.
pub encode_output-raw_sysex_message :
    (s : S4GenericProtocol) (packet : List ℕ)
    → (encode_output s (raw_sysex_message packet)).1.payload ≡ some (0x02 ∷ nibbles packet)
unfolding raw_sysex_message
encode_output-raw_sysex_message s packet =
    (encode_output-payload_iff s (raw_sysex_message packet) (0x02 ∷ nibbles packet)).1 refl
