-- ===== src/Protocol/Baseline.antt =====
-- The state of the protocol across reports.
use s4_mk1_usb2midi.Common.{
  ℕ, suc, ◌≤◌, ◌<◌, List, [], ◌∷◌, ◌++◌, ◌≡◌, refl, arith, ==_iff, bit_and_15, ap₂, ap, Bool,
}
use s4_mk1_usb2midi.Protocol.{
  MidiMessage, MapTables, InputDecodeMode, S4GenericProtocol, new_protocol, byte_messages,
  decode_from, decode_messages, decode_input, encode_output, byte_view, mapped_byte, with_fallback,
  raw_byte, bit_loop, bit_message, raw_bit,
}

-- The settings that the constructor clamps.
pub record IsConfigured (s : S4GenericProtocol) : Type 0 where
  pub channel : s.base_channel < 16
  pub deadzone : s.input_deadzone ≤ 127

-- The reports of one connection, in order: the last state and all messages.
unfoldable pub decode_all :
    MapTables → S4GenericProtocol → List (List ℕ) → S4GenericProtocol × List MidiMessage
decode_all t s [] = (s, [])
decode_all t s (r ∷ rs) =
    let (s', ms) = decode_input t s r in let (s'', rest) = decode_all t s' rs in (s'', ms ++ rest)

-- The messages of a list of reports, each against the one before it.
pub pairwise : MapTables → S4GenericProtocol → List ℕ → List (List ℕ) → List MidiMessage
pairwise t s previous [] = []
pairwise t s previous (r ∷ rs) = decode_messages t s previous r ++ pairwise t s r rs

unfoldable pub last_or : List ℕ → List (List ℕ) → List ℕ
last_or d [] = d
last_or d (r ∷ rs) = last_or r rs

-- Decoding against a given report does not read the stored one.
module _ (t : MapTables) (s : S4GenericProtocol) (q : List ℕ) where
  decode_from-settings :
      (i : ℕ) (ps cs : List ℕ)
      → decode_from t (record s { previous_report = q }) i ps cs ≡ decode_from t s i ps cs
  unfolding decode_from byte_messages byte_view mapped_byte with_fallback raw_byte bit_loop
      bit_message raw_bit
  decode_from-settings i [] cs = refl
  decode_from-settings i (p ∷ ps) [] = refl
  decode_from-settings i (p ∷ ps) (c ∷ cs) =
      ap (◌++◌ (byte_messages t s i p c)) (decode_from-settings (suc i) ps cs)

  pub decode_messages-settings :
      (ps cs : List ℕ)
      → decode_messages t (record s { previous_report = q }) ps cs ≡ decode_messages t s ps cs
  unfolding decode_messages
  decode_messages-settings [] cs = refl
  decode_messages-settings (p ∷ ps) cs = decode_from-settings 0 (p ∷ ps) cs

pairwise-settings :
    (t : MapTables) (s : S4GenericProtocol) (q ps : List ℕ) (rs : List (List ℕ))
    → pairwise t (record s { previous_report = q }) ps rs ≡ pairwise t s ps rs
unfolding pairwise
pairwise-settings t s q ps [] = refl
pairwise-settings t s q ps (r ∷ rs) =
    ap₂ ◌++◌ (decode_messages-settings t s q ps r) (pairwise-settings t s q r rs)

-- Nor does it read whether a warning was written.
module _ (t : MapTables) (s : S4GenericProtocol) (w : Bool) where
  decode_from-warned :
      (i : ℕ) (ps cs : List ℕ)
      → decode_from t (record s { warned_about_led_protocol = w }) i ps cs ≡ decode_from t s i ps cs
  unfolding decode_from byte_messages byte_view mapped_byte with_fallback raw_byte bit_loop
      bit_message raw_bit
  decode_from-warned i [] cs = refl
  decode_from-warned i (p ∷ ps) [] = refl
  decode_from-warned i (p ∷ ps) (c ∷ cs) =
      ap (◌++◌ (byte_messages t s i p c)) (decode_from-warned (suc i) ps cs)

  decode_messages-warned :
      (ps cs : List ℕ)
      → decode_messages t (record s { warned_about_led_protocol = w }) ps cs
        ≡ decode_messages t s ps cs
  unfolding decode_messages
  decode_messages-warned [] cs = refl
  decode_messages-warned (p ∷ ps) cs = decode_from-warned 0 (p ∷ ps) cs

  pub decode_input-warned :
      (r : List ℕ)
      → decode_input t (record s { warned_about_led_protocol = w }) r
        ≡ (record (decode_input t s r).0 { warned_about_led_protocol = w }, (decode_input t s r).1)
  unfolding decode_input
  decode_input-warned r =
      ap (λ ms. (record s { previous_report = r; warned_about_led_protocol = w }, ms))
        (decode_messages-warned s.previous_report r)

-- Over any sequence of reports the stateful decoder compares each report with the one just before
-- it, the first with the stored one, and ends with the last as its stored report and its settings
-- and warning flag as they were.
pub decode_all-pairwise :
    (t : MapTables) (s : S4GenericProtocol) (rs : List (List ℕ))
    → decode_all t s rs ≡ (
      record s { previous_report = last_or s.previous_report rs },
      pairwise t s s.previous_report rs,
    )
unfolding decode_all decode_input pairwise last_or
decode_all-pairwise t s [] = refl
decode_all-pairwise t s (r ∷ rs) =
    rw (decode_all-pairwise t (record s { previous_report = r }) rs, pairwise-settings t s r r rs)
      refl

-- A report equal to the stored one gives no message.
decode_from_same :
    (t : MapTables) (s : S4GenericProtocol) (i : ℕ) (r : List ℕ) → decode_from t s i r r ≡ []
unfolding decode_from byte_messages
decode_from_same t s i [] = refl
decode_from_same t s i (c ∷ cs) = rw ((==_iff c c).1 refl) (decode_from_same t s (suc i) cs)

-- Sending a report twice in a row: the second time it gives no message and changes nothing.
pub decode_input_again :
    (t : MapTables) (s : S4GenericProtocol) (r : List ℕ)
    → let s' = (decode_input t s r).0 in decode_input t s' r ≡ (s', [])
unfolding decode_input decode_messages
decode_input_again t s [] = refl
decode_input_again t s (c ∷ cs) =
    ap (λ ms. (record s { previous_report = c ∷ cs }, ms))
      (decode_from_same t (record s { previous_report = c ∷ cs }) 0 (c ∷ cs))

pub new_protocol-IsConfigured :
    (base deadzone : ℕ) (mode : InputDecodeMode) → IsConfigured (new_protocol base deadzone mode)
unfolding new_protocol
new_protocol-IsConfigured base deadzone mode = omega (arith, bit_and_15 base)

pub encode_output-IsConfigured :
    (s : S4GenericProtocol) (m : List ℕ) → IsConfigured s → IsConfigured (encode_output s m).0
unfolding encode_output
encode_output-IsConfigured s m h = ground arith

pub decode_input-IsConfigured :
    (t : MapTables) (s : S4GenericProtocol) (r : List ℕ)
    → IsConfigured s
    → IsConfigured (decode_input t s r).0
unfolding decode_input
decode_input-IsConfigured t s r h = record { channel = h.channel; deadzone = h.deadzone }

-- Whatever the constructor is given, after any reports and then a feedback message the base channel
-- is below 16 and the deadzone at most 127.
pub decode_all-IsConfigured :
    (t : MapTables) (base deadzone : ℕ) (mode : InputDecodeMode) (rs : List (List ℕ)) (m : List ℕ)
    → IsConfigured (encode_output (decode_all t (new_protocol base deadzone mode) rs).0 m).0
decode_all-IsConfigured t base deadzone mode rs m = encode_output-IsConfigured _ m (
    rw (decode_all-pairwise t (new_protocol base deadzone mode) rs) (
      let h = new_protocol-IsConfigured base deadzone mode in
      record { channel = h.channel; deadzone = h.deadzone }))
