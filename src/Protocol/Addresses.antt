-- ===== src/Protocol/Addresses.antt =====
-- Which control change stands for which byte or bit: where the fallback addresses are unique, how a
-- listener reads them back, and where they are shared.
use s4_mk1_usb2midi.Protocol.Listening.{heard, heard-flips}
use s4_mk1_usb2midi.Common.{
  ℕ, ◌+◌, ◌-◌, ◌*◌, ◌/◌, ◌%◌, Bool, true, false, List, [], ◌∷◌, ◌==◌, if◌then◌else◌, ◌≡◌, arith,
  bit_and_15, u8, u16, bit_and, ◌<◌, map, none, ap, ◌≤◌, ◌∙◌, suc, length, Bool-cases, get_elem?,
  bit_at, map-append, some, inl, inr, not, refl, take, zero,
}
use s4_mk1_usb2midi.Protocol.{
  MidiMessage, S4GenericProtocol, raw_bit, raw_byte, on_value, bit_message, MapTables,
  find_bit_mapping, bit, decode_input, ch1_to_status_nibble, s4_tables, make_cc,
}
use s4_mk1_usb2midi.Protocol.Messages.{make_cc_lem}
use s4_mk1_usb2midi.Protocol.BitView.{
  Flip, messages_of, byte_flips, flips, messages_of-append, decode_input-messages_of,
}

-- The fallback messages, written out.
pub raw_bit_lem :
    (s : S4GenericProtocol) (i b : ℕ) (on : Bool)
    → raw_bit s i b on ≡ record {
      bytes =
          (0xb0 + (s.base_channel + u16 (i * 8 + b) / 128) % 16)
          ∷ u16 (i * 8 + b) % 128
          ∷ (if on then 127 else 0)
          ∷ [];
    }
unfolding raw_bit on_value
raw_bit_lem s i b true =
    rw
      (
        make_cc_lem (u8 (bit_and (s.base_channel + u16 (i * 8 + b) / 128) 0x0f))
            (u8 (u16 (i * 8 + b) % 128)) 127,
        bit_and_15 (s.base_channel + u16 (i * 8 + b) / 128),
      )
      (ground arith)
raw_bit_lem s i b false =
    rw
      (
        make_cc_lem (u8 (bit_and (s.base_channel + u16 (i * 8 + b) / 128) 0x0f))
            (u8 (u16 (i * 8 + b) % 128)) 0,
        bit_and_15 (s.base_channel + u16 (i * 8 + b) / 128),
      )
      (ground arith)

pub raw_byte_lem :
    (s : S4GenericProtocol) (i raw : ℕ)
    → raw_byte s i raw ≡ record {
      bytes = (0xb0 + (s.base_channel + u16 i / 128) % 16) ∷ u16 i % 128 ∷ raw % 128 ∷ [];
    }
unfolding raw_byte
raw_byte_lem s i raw =
    rw
      (
        make_cc_lem (u8 (bit_and (s.base_channel + u16 i / 128) 0x0f)) (u8 (u16 i % 128)) raw,
        bit_and_15 (s.base_channel + u16 i / 128),
      )
      (ground arith)

read_bytes : ℕ → List ℕ → Flip
read_bytes base (status ∷ controller ∷ value ∷ rest) =
    let index = (status - 0xb0 + 16 - base) % 16 * 128 + controller in
    record { index = index / 8; bit = index % 8; on = value == 127 }
read_bytes base other = record { index = 0; bit = 0; on = false }

-- A listener that knows the base channel reads the flip back from the message.
pub read_flip : ℕ → MidiMessage → Flip
unfolding read_bytes
read_flip base m = read_bytes base m.bytes

read_flip-raw_bit :
    (s : S4GenericProtocol) (i b : ℕ) (on : Bool)
    → s.base_channel < 16
    → i < 256
    → b < 8
    → read_flip s.base_channel (raw_bit s i b on) ≡ record { index = i; bit = b; on = on }
unfolding read_flip
read_flip-raw_bit s i b true h hi hb = rw (raw_bit_lem s i b true) (ground arith)
read_flip-raw_bit s i b false h hi hb = rw (raw_bit_lem s i b false) (ground arith)

pub bit_message_unmapped :
    (t : MapTables) (s : S4GenericProtocol) (i b : ℕ) (on : Bool)
    → find_bit_mapping t.bit_mappings i b ≡ none
    → t.emit_unmapped_bit ≡ true
    → bit_message t s i b on ≡ raw_bit s i b on ∷ []
unfolding bit_message
bit_message_unmapped t s i b on h e = ground arith

nothing : (i b : ℕ) → find_bit_mapping [] i b ≡ none
unfolding find_bit_mapping
nothing i b = refl

module _ (t : MapTables) (s : S4GenericProtocol) (unmapped : t.bit_mappings ≡ [])
    (emits : t.emit_unmapped_bit ≡ true) (base : s.base_channel < 16) where
  read_flip_one :
      (i b : ℕ) (on : Bool)
      → i < 256
      → b < 8
      → map (read_flip s.base_channel) (bit_message t s i b on)
        ≡ record { index = i; bit = b; on = on } ∷ []
  read_flip_one i b on hi hb =
      rw
        (
          bit_message_unmapped t s i b on
              (ap (λ es. find_bit_mapping es i b) unmapped ∙ nothing i b) emits,
          read_flip-raw_bit s i b on base hi hb,
        )
        refl

  read_byte_flips :
      (left b i p c : ℕ)
      → b + left ≤ 8
      → i < 256
      → map (read_flip s.base_channel) (messages_of t s (byte_flips left b i p c))
        ≡ byte_flips left b i p c
  unfolding messages_of byte_flips
  read_byte_flips zero b i p c h hi = refl
  read_byte_flips (suc left) b i p c h hi = elim (Bool-cases (bit_at p b == bit_at c b)) [
    | inl same ↦ rw (same) (read_byte_flips left (suc b) i p c (omega arith) hi)
    | inr other ↦
        rw
          (
            other,
            map-append (read_flip s.base_channel) (bit_message t s i b (not (bit_at c b == 0)))
                (messages_of t s (byte_flips left (suc b) i p c)),
            read_flip_one i b (not (bit_at c b == 0)) hi (omega arith),
            read_byte_flips left (suc b) i p c (omega arith) hi,
          )
          refl
  ]

  read_flips :
      (i : ℕ) (ps cs : List ℕ)
      → i + length ps ≤ 256
      → map (read_flip s.base_channel) (messages_of t s (flips i ps cs)) ≡ flips i ps cs
  unfolding flips
  read_flips i [] cs h = unfold messages_of in refl
  read_flips i (p ∷ ps) [] h = unfold messages_of in refl
  read_flips i (p ∷ ps) (c ∷ cs) h =
      rw
        (
          messages_of-append t s (byte_flips 8 0 i p c) (flips (suc i) ps cs),
          map-append (read_flip s.base_channel) (messages_of t s (byte_flips 8 0 i p c))
              (messages_of t s (flips (suc i) ps cs)),
          read_byte_flips 8 0 i p c (omega arith) (omega arith),
          read_flips (suc i) ps cs (omega arith),
        )
        refl

-- Without bit mappings, in bit mode and for reports of at most 256 bytes, a listener that knows the
-- base channel and the bits of the last report gets every bit of the new report from the messages,
-- in each byte that both reports have.
pub listener_hears_report :
    (t : MapTables) (s : S4GenericProtocol) (report : List ℕ) (k b p c : ℕ)
    → t.bit_mappings ≡ []
    → t.emit_unmapped_bit ≡ true
    → s.decode_mode ≡ bit
    → s.base_channel < 16
    → length s.previous_report ≤ 256
    → b < 8
    → get_elem? s.previous_report k ≡ some p
    → get_elem? report k ≡ some c
    → heard k b (bit_at p b) (map (read_flip s.base_channel) (decode_input t s report).1)
      ≡ bit_at c b
listener_hears_report t s report k b p c unmapped emits mode base size hb e e' =
    rw
      (
        decode_input-messages_of t s report mode,
        read_flips t s unmapped emits base 0 s.previous_report report (omega arith),
      )
      (heard-flips 0 k k b p c s.previous_report report (omega arith) hb e e')

-- The status and controller bytes of a message.
abbrev pub address : MidiMessage → List ℕ
address m = take 2 m.bytes

-- The address of a byte does not depend on its value.
pub raw_byte-address_same :
    (s : S4GenericProtocol) (i v w : ℕ) → address (raw_byte s i v) ≡ address (raw_byte s i w)
raw_byte-address_same s i v w = ground (arith, raw_byte_lem s i v, raw_byte_lem s i w)

-- The fallback of the byte view gives different addresses to different bytes below 2048.
pub raw_byte-address_injective :
    (s : S4GenericProtocol) (i j v w : ℕ)
    → i < 2048
    → j < 2048
    → address (raw_byte s i v) ≡ address (raw_byte s j w)
    → i ≡ j
raw_byte-address_injective s i j v w hi hj e =
    ground (arith, raw_byte_lem s i v, raw_byte_lem s j w)

-- The two fallbacks share addresses: byte `i` and bit `i % 8` of byte `i / 8` use the same status
-- and controller bytes, for every byte index below 65536.
pub raw_byte-raw_bit-address :
    (s : S4GenericProtocol) (i v : ℕ) (on : Bool)
    → i < 65536
    → address (raw_byte s i v) ≡ address (raw_bit s (i / 8) (i % 8) on)
raw_byte-raw_bit-address s i v on h =
    rw (raw_byte_lem s i v, raw_bit_lem s (i / 8) (i % 8) on) (ground arith)

raw_bit-eq-make_cc :
    (s : S4GenericProtocol) (i b n : ℕ) (on : Bool)
    → s.base_channel ≡ 0
    → i * 8 + b ≡ n
    → n < 128
    → make_cc 0 n (on_value on) ≡ raw_bit s i b on
unfolding on_value
raw_bit-eq-make_cc s i b n true h e lt = ground (arith, raw_bit_lem s i b true, make_cc_lem 0 n 127)
raw_bit-eq-make_cc s i b n false h e lt = ground (arith, raw_bit_lem s i b false, make_cc_lem 0 n 0)

-- With base channel 0 each button of the source's bit table shares its message with an unmapped bit:
-- Shift, Sync, Cue and Play with bits 4, 5, 6 and 7 of byte 2, and the extra toggle with bit 0 of
-- byte 3, on and off alike.
pub s4_tables_shared :
    (s : S4GenericProtocol) (on : Bool)
    → s.base_channel ≡ 0
    → (bit_message s4_tables s 4 7 on ≡ bit_message s4_tables s 2 4 on)
      × (bit_message s4_tables s 4 5 on ≡ bit_message s4_tables s 2 5 on)
      × (bit_message s4_tables s 4 3 on ≡ bit_message s4_tables s 2 6 on)
      × (bit_message s4_tables s 4 1 on ≡ bit_message s4_tables s 2 7 on)
      × (bit_message s4_tables s 7 3 on ≡ bit_message s4_tables s 3 0 on)
unfolding bit_message find_bit_mapping ch1_to_status_nibble on_value
s4_tables_shared s on h = (
  ap (λ m. m ∷ []) (raw_bit-eq-make_cc s 2 4 20 on h refl (omega arith)),
  ap (λ m. m ∷ []) (raw_bit-eq-make_cc s 2 5 21 on h refl (omega arith)),
  ap (λ m. m ∷ []) (raw_bit-eq-make_cc s 2 6 22 on h refl (omega arith)),
  ap (λ m. m ∷ []) (raw_bit-eq-make_cc s 2 7 23 on h refl (omega arith)),
  ap (λ m. m ∷ []) (raw_bit-eq-make_cc s 3 0 24 on h refl (omega arith)),
)
