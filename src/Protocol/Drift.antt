-- ===== src/Protocol/Drift.antt =====
-- Two consequences of how the deadzone is compared: slow movements, and overrides.
use s4_mk1_usb2midi.Common.{
  ℕ, suc, ◌+◌, ◌≤◌, ◌<◌, true, some, List, [], ◌∷◌, ◌++◌, ◌≡◌, refl, arith, ap₂,
}
use s4_mk1_usb2midi.Protocol.{
  ByteMapEntry, MapTables, S4GenericProtocol, byte, raw_byte, byte_view, mapped_byte, with_fallback,
  find_byte_mapping, clamp_deadzone, entry_deadzone, decode_input,
}
use s4_mk1_usb2midi.Protocol.ByteView.{position, moves, decode_input-moves}
use s4_mk1_usb2midi.Protocol.Baseline.{decode_all}

-- No position of the second report is more than `deadzone` away from the first.
abbrev pub Near : ℕ → List ℕ → List ℕ → Type 0
Near deadzone [] cs = Unit {0}
Near deadzone (p ∷ ps) [] = Unit {0}
Near deadzone (p ∷ ps) (c ∷ cs) =
    (position c ≤ position p + deadzone)
    × (position p ≤ position c + deadzone)
    × Near deadzone ps cs

-- Each report is near the one before it.
abbrev pub IsSlow : ℕ → List ℕ → List (List ℕ) → Type 0
IsSlow deadzone previous [] = Unit {0}
IsSlow deadzone previous (r ∷ rs) = Near deadzone previous r × IsSlow deadzone r rs

moves-Near : (deadzone i : ℕ) (ps cs : List ℕ) → Near deadzone ps cs → moves deadzone i ps cs ≡ []
unfolding moves
moves-Near deadzone i [] cs h = refl
moves-Near deadzone i (p ∷ ps) [] h = refl
moves-Near deadzone i (p ∷ ps) (c ∷ cs) h = ground (arith, moves-Near deadzone (suc i) ps cs h.2)

module _ (t : MapTables) (unmapped : t.byte_mappings ≡ [])
    (emits : t.emit_unmapped_byte ≡ true) where
  decode-Near :
      (s : S4GenericProtocol) (r : List ℕ)
      → s.decode_mode ≡ byte
      → Near s.input_deadzone s.previous_report r
      → (decode_input t s r).1 ≡ []
  decode-Near s r mode near =
      rw
        (
          decode_input-moves t s r mode unmapped emits,
          moves-Near s.input_deadzone 0 s.previous_report r near,
        )
        refl

  decode_all_slow :
      (s : S4GenericProtocol) (rs : List (List ℕ))
      → s.decode_mode ≡ byte
      → IsSlow s.input_deadzone s.previous_report rs
      → (decode_all t s rs).1 ≡ []
  unfolding decode_all decode_input
  decode_all_slow s [] mode slow = refl
  decode_all_slow s (r ∷ rs) mode slow =
      ap₂ ◌++◌ (decode-Near s r mode slow.0)
        (decode_all_slow (record s { previous_report = r }) rs mode slow.1)

-- A control that moves by at most the deadzone from each report to the next is never heard, however
-- far it gets in all: in byte mode without byte mappings such a sequence of reports gives no message.
pub slow_drift_silent :
    (t : MapTables) (s : S4GenericProtocol) (rs : List (List ℕ))
    → s.decode_mode ≡ byte
    → t.byte_mappings ≡ []
    → t.emit_unmapped_byte ≡ true
    → IsSlow s.input_deadzone s.previous_report rs
    → (decode_all t s rs).1 ≡ []
slow_drift_silent t s rs mode unmapped emits slow = decode_all_slow t unmapped emits s rs mode slow

-- A byte with a mapping whose deadzone filters a change still gives the fallback message when the
-- change passes the global deadzone: the entry's wider deadzone does not silence the byte.
pub byte_view-override_falls_through :
    (t : MapTables) (s : S4GenericProtocol) (i delta raw : ℕ) (e : ByteMapEntry)
    → find_byte_mapping t.byte_mappings i ≡ some e
    → t.emit_unmapped_byte ≡ true
    → delta ≤ clamp_deadzone (entry_deadzone e.deadzone_override s.input_deadzone)
    → s.input_deadzone < delta
    → byte_view t s i delta raw ≡ raw_byte s i raw ∷ []
unfolding byte_view with_fallback mapped_byte
byte_view-override_falls_through t s i delta raw e found emits filtered passes = ground arith
