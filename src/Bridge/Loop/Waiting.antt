-- ===== src/Bridge/Loop/Waiting.antt =====
-- `connect` of run_bridge of src/main.cpp while the device is away.
use s4_mk1_usb2midi.Usb.{device_not_found, multiple_devices, ◌>>◌, UsbOptions, ListedDevice}
use s4_mk1_usb2midi.Common.{
  [], ◌==◌, ◌∷◌, if◌then◌else◌, cons, nil, List, Option, ◌≡◌, All, some, length, ap₂, ◌≢◌, arith,
  map, ap, ◌++◌, ◌∙◌, ℕ, refl,
}
use s4_mk1_usb2midi.Usb.Connection.{close}
use s4_mk1_usb2midi.Bridge.Loop.{
  try_once, connect, Attempt, try_init, connect_end, UsbDevice, tried_open, open_usb, Drain84, err,
  retried, ok, s4_mk1_init, Result, returned, connected, Tried, TryRun,
}
use s4_mk1_usb2midi.Usb.Connection.Opening.{matching, open_usb-refuses}
use s4_mk1_usb2midi.Bridge.Loop.Reconnection.{try_once-succeeds}

-- The attempt lists the devices, and none of them is asked for.
unfoldable pub IsAway : UsbOptions → Attempt → Type 0
IsAway o a =
    (ds : List ListedDevice) × (a.open_replies.devices ≡ some ds) × (length (matching o ds) ≡ 0)

-- Such an attempt is retried: it only closes the device.
away-view :
    (a : Attempt) (d : UsbDevice)
    → IsAway d.options a
    → ((close >> open_usb a.open_replies) d).result ≡ err device_not_found
unfolding IsAway close
away-view a d (ds, listed, empty) =
    let other : length (matching d.options ds) ≢ 1 = λ e. absurd (omega (arith, e, empty)) in
    ap (λ r. r.result) (open_usb-refuses a.open_replies (close d).device ds listed other)
    ∙ ap (λ (n : ℕ). err (if n == 0 then device_not_found else multiple_devices)) empty

away-device :
    (a : Attempt) (d : UsbDevice)
    → IsAway d.options a
    → ((close >> open_usb a.open_replies) d).device ≡ (close d).device
unfolding IsAway close
away-device a d (ds, listed, empty) =
    let other : length (matching d.options ds) ≢ 1 = λ e. absurd (omega (arith, e, empty)) in
    ap (λ r. r.device) (open_usb-refuses a.open_replies (close d).device ds listed other)

try_once-away :
    (a : Attempt) (d : UsbDevice) (drain : Drain84)
    → IsAway d.options a
    → try_once a d drain ≡ record { device = (close d).device; drain = drain; tried = retried }
unfolding try_once try_init tried_open
try_once-away a d drain h =
    ap₂ (λ (res : Result (Unit {0})) (x : UsbDevice). try_init res a.init_replies x drain)
      (away-view a d h) (away-device a d h)

-- However many attempts list their devices and find no matching one, an attempt after them that opens
-- the device, as `close` leaves it, and whose initialization returns makes `connect` return true.
pub connect-waits :
    (away : List Attempt) (a : Attempt) (rest : List (Option Attempt)) (d : UsbDevice)
    (drain : Drain84)
    → All (IsAway d.options) away
    → (open_usb a.open_replies (close d).device).result ≡ ok tt
    → (s4_mk1_init a.init_replies drain).ending ≡ returned
    → (connect (map some away ++ some a ∷ rest) d drain).outcome ≡ connected
unfolding connect connect_end close
connect-waits [] a rest d drain nil opens starts =
    let r = try_once a d drain in
    ap (λ (t : Tried). (connect_end t r (connect rest r.device r.drain)).outcome)
      (try_once-succeeds a d drain refl opens starts)
connect-waits (b ∷ away) a rest d drain (cons h hs) opens starts =
    ap
      (λ (r : TryRun).
        (connect_end r.tried r (connect (map some away ++ some a ∷ rest) r.device r.drain)).outcome)
      (try_once-away b d drain h)
    ∙ connect-waits away a rest (close d).device drain hs opens starts

-- The device after a first attempt that succeeds.
pub connect-device :
    (a : Attempt) (rest : List (Option Attempt)) (d : UsbDevice) (drain : Drain84)
    → (open_usb a.open_replies (close d).device).result ≡ ok tt
    → (s4_mk1_init a.init_replies drain).ending ≡ returned
    → (connect (some a ∷ rest) d drain).device ≡ (try_once a d drain).device
unfolding connect connect_end close
connect-device a rest d drain opens starts =
    let r = try_once a d drain in
    ap (λ (t : Tried). (connect_end t r (connect rest r.device r.drain)).device)
      (try_once-succeeds a d drain refl opens starts)

pub try_once-device :
    (a : Attempt) (d : UsbDevice) (drain : Drain84)
    → (open_usb a.open_replies (close d).device).result ≡ ok tt
    → (try_once a d drain).device ≡ (open_usb a.open_replies (close d).device).device
unfolding try_once try_init close
try_once-device a d drain opens =
    let r = (close >> open_usb a.open_replies) d in
    ap (λ (x : Result (Unit {0})). (try_init x a.init_replies r.device drain).device) opens
