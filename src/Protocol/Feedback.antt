-- ===== src/Protocol/Feedback.antt =====
-- `encode_output`: which feedback messages reach the USB device, and the warning.
use s4_mk1_usb2midi.Common.{
  ℕ, suc, ◌+◌, ◌-◌, Bool, true, Option, some, List, [], ◌∷◌, ◌++◌, ◌&&◌, if◌then◌else◌, ◌≡◌, refl,
  ◌↔◌, arith, length, take, drop, get_elem?, ap, length-append, take-length_append, ◌||◌,
  Bool-cases, inl, inr,
}
use s4_mk1_usb2midi.Protocol.{S4GenericProtocol, encode_output, is_injection, byte_or_0}

-- The SysEx message `F0 7D 53 34 <payload> F7` of the README.
abbrev pub injection : List ℕ → List ℕ
injection payload = 0xf0 ∷ 0x7d ∷ 0x53 ∷ 0x34 ∷ (payload ++ 0xf7 ∷ [])

last_of : (xs : List ℕ) (v : ℕ) → byte_or_0 (get_elem? (xs ++ v ∷ []) (length xs)) ≡ v
last_of [] v = refl
last_of (x ∷ xs) v = last_of xs v

-- A list whose last byte is `v` ends in it.
ends_in :
    (x : ℕ) (xs : List ℕ) (v : ℕ)
    → byte_or_0 (get_elem? (x ∷ xs) (length xs)) ≡ v
    → take (length xs) (x ∷ xs) ++ v ∷ [] ≡ x ∷ xs
ends_in x [] v h = cc
ends_in x (y ∷ ys) v h = ap (◌∷◌ x) (ends_in y ys v h)

injection-is_injection : (p : List ℕ) → is_injection (injection p) ≡ true
unfolding is_injection
injection-is_injection p =
    let n : length (p ++ 0xf7 ∷ []) ≡ suc (length p) = omega (arith, length-append p (0xf7 ∷ [])) in
    let last : suc (suc (suc (suc (suc (length p))))) - 1 ≡ suc (suc (suc (suc (length p)))) =
      omega arith in
    rw (n, last, last_of p 0xf7) (ground arith)

is_injection-injection :
    (m : List ℕ) → is_injection m ≡ true → injection (take (length m - 5) (drop 4 m)) ≡ m
unfolding is_injection
is_injection-injection (a ∷ b ∷ c ∷ d ∷ e ∷ rest) h =
    let n : suc (suc (suc (suc (suc (length rest))))) - 5 ≡ length rest = omega arith in
    let k : suc (suc (suc (suc (suc (length rest))))) - 1 ≡ suc (suc (suc (suc (length rest)))) =
      omega arith in
    let h' = rw k at h in rw n (ground (arith, ends_in e rest 0xf7))
is_injection-injection m h = cc

-- A message is turned into a USB payload exactly when it is `F0 7D 53 34 <payload> F7`, and then
-- into that payload; the state of the protocol does not matter.
pub encode_output-payload_iff :
    (s : S4GenericProtocol) (m payload : List ℕ)
    → ((encode_output s m).1.payload ≡ some payload) ↔ (m ≡ injection payload)
unfolding encode_output
encode_output-payload_iff s m payload = (forward, λ e. rw (e, injection-is_injection payload) whole)
  where
    n : length (payload ++ 0xf7 ∷ []) ≡ suc (length payload)
    n = omega (arith, length-append payload (0xf7 ∷ []))

    k : suc (suc (suc (suc (suc (length payload))))) - 5 ≡ length payload
    k = omega arith

    whole :
        Option.some
          (take (suc (suc (suc (suc (length (payload ++ 0xf7 ∷ []))))) - 5) (payload ++ 0xf7 ∷ []))
        ≡ some payload
    whole = rw (n, k, take-length_append payload (0xf7 ∷ [])) refl

    forward : (encode_output s m).1.payload ≡ some payload → m ≡ injection payload
    forward h = elim (Bool-cases (is_injection m)) [
      | inl wrapped ↦ ground (arith, is_injection-injection m wrapped)
      | inr other ↦ ground arith
    ]

-- A message changes the flag that a warning was written at most.
pub encode_output-warned :
    (p : S4GenericProtocol) (m : List ℕ)
    → (w : Bool) × ((encode_output p m).0 ≡ record p { warned_about_led_protocol = w })
unfolding encode_output
encode_output-warned p m = elim (Bool-cases (is_injection m)) [
  | inl e ↦ rw (e, encode_output) (p.warned_about_led_protocol, refl)
  | inr e ↦ rw (e, encode_output) (true, refl)
]

-- Feedback messages one after another: the number of warnings written.
pub warnings : S4GenericProtocol → List (List ℕ) → ℕ
warnings s [] = 0
warnings s (m ∷ ms) = let (s', r) = encode_output s m in (if r.warns then 1 else 0) + warnings s' ms

unfoldable pub all_injections : List (List ℕ) → Bool
all_injections [] = true
all_injections (m ∷ ms) = is_injection m && all_injections ms

warned :
    (s : S4GenericProtocol) (ms : List (List ℕ))
    → s.warned_about_led_protocol ≡ true
    → warnings s ms ≡ 0
unfolding warnings encode_output
warned s [] h = refl
warned s (m ∷ ms) h =
    ground (arith, warned s ms, warned (record s { warned_about_led_protocol = true }) ms)

-- The warning is written once, at the first feedback message that is no injection, and never if all
-- of them are or if it was written before.
pub warnings-once :
    (s : S4GenericProtocol) (ms : List (List ℕ))
    → warnings s ms ≡ (if s.warned_about_led_protocol || all_injections ms then 0 else 1)
unfolding warnings encode_output all_injections
warnings-once s [] = ground arith
warnings-once s (m ∷ ms) =
    ground (arith, warnings-once s ms, warned (record s { warned_about_led_protocol = true }) ms)
