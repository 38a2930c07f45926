-- ===== src/Bridge/Loop/Published.antt =====
-- What run_bridge of src/main.cpp is to publish for the packets that it reads.
use s4_mk1_usb2midi.Common.{
  ◌≡◌, ◌∙◌, ap, ap₂, map, map-append, refl, sym, [], ◌∷◌, List, true, false, ◌++◌, Bool, arith,
  if◌then◌else◌, ==_iff, ◌&&◌, &&_left, not, ◌==◌, Bool-cases, &&_right, inl, inr,
}
use s4_mk1_usb2midi.Protocol.{MapTables}
use s4_mk1_usb2midi.Bridge.Loop.{ℕ, decode_input, S4GenericProtocol, same_bytes}
use s4_mk1_usb2midi.Protocol.Baseline.{decode_all}
use s4_mk1_usb2midi.Bridge.Loop.Steps.{copies}

-- What is published for a list of packets: before the messages of the decoder for a packet, with
-- `--raw-sysex`, the copy of the packet where it differs from the packet before it.
unfoldable pub published_all :
    MapTables → Bool → S4GenericProtocol → List ℕ → List (List ℕ) → List (List ℕ)
published_all t raw p previous [] = []
published_all t raw p previous (packet ∷ packets) =
    let d = decode_input t p packet in
    (copies raw packet previous ++ map (λ m. m.bytes) d.1) ++ published_all t raw d.0 packet packets

same_bytes_sound : (xs ys : List ℕ) → same_bytes xs ys ≡ true → xs ≡ ys
same_bytes_sound [] [] h = refl
same_bytes_sound [] (y ∷ ys) h = ground arith
same_bytes_sound (x ∷ xs) [] h = ground arith
same_bytes_sound (x ∷ xs) (y ∷ ys) h =
    ap₂ (◌∷◌) ((==_iff x y).0 (&&_left (x == y) (same_bytes xs ys) h))
      (same_bytes_sound xs ys (&&_right (x == y) (same_bytes xs ys) h))

-- With the copies on, the state holds the last packet.
unfoldable pub Tracks : Bool → List ℕ → List ℕ → Type 0
Tracks raw stored previous = raw ≡ true → stored ≡ previous

pub copies-Tracks :
    (raw : Bool) (packet stored previous : List ℕ)
    → Tracks raw stored previous
    → copies raw packet stored ≡ copies raw packet previous
unfolding Tracks
copies-Tracks true packet stored previous h = ap (copies true packet) (h refl)
copies-Tracks false packet stored previous h = refl

pub stored-Tracks :
    (raw : Bool) (packet stored : List ℕ)
    → Tracks raw (if raw && not (same_bytes packet stored) then packet else stored) packet
unfolding Tracks
stored-Tracks false packet stored h = ground arith
stored-Tracks true packet stored h = elim (Bool-cases (same_bytes packet stored)) [
  | inl e ↦ rw (e) (sym (same_bytes_sound packet stored e))
  | inr e ↦ rw (e) refl
]

-- Without the copies that is what the decoder gives.
pub published_all-decode_all :
    (t : MapTables) (p : S4GenericProtocol) (previous : List ℕ) (packets : List (List ℕ))
    → published_all t false p previous packets ≡ map (λ m. m.bytes) (decode_all t p packets).1
unfolding published_all decode_all
published_all-decode_all t p previous [] = refl
published_all-decode_all t p previous (packet ∷ packets) =
    let d = decode_input t p packet in
    ap (λ rest. map (λ m. m.bytes) d.1 ++ rest) (published_all-decode_all t d.0 packet packets)
    ∙ sym (map-append (λ m. m.bytes) d.1 (decode_all t d.0 packets).1)
