-- ===== src/Bridge/Loop/Connecting.antt =====
-- `connect` of run_bridge of src/main.cpp.
use s4_mk1_usb2midi.Common.{refl, List, ◌≡◌, Option, ℕ, some, ◌∙◌, arith, ap, false, ◌∷◌, [], none}
use s4_mk1_usb2midi.Usb.{◌>>◌, UsbOptions, multiple_devices, undefined}
use s4_mk1_usb2midi.Usb.Connection.{close}
use s4_mk1_usb2midi.Bridge.Loop.{
  tried_open, try_init, try_once, connect_end, connect, UsbDevice, OpenReplies, UsbError,
  tried_init, Attempt, Tried, open_usb, Result, Drain84, TryRun, ok, succeeded, ConnectRun,
  connected, StepReplies, err, retried, several_devices, hangs, reads_outside,
}
use s4_mk1_usb2midi.Usb.Connection.Options.{open_usb-Keeps, open_usb-IsOpen, close-Keeps}

-- An attempt keeps the options, and one that succeeds leaves the device open and connected.
pub record IsUsable (u : UsbOptions) (d : UsbDevice) : Type 0 where
  pub options : d.options ≡ u
  pub opened : (h : ℕ) × (d.handle ≡ some h)
  pub connected : d.disconnected ≡ false

opening-Keeps :
    (r : OpenReplies) (d : UsbDevice) → ((close >> open_usb r) d).device.options ≡ d.options
unfolding close
opening-Keeps r d = open_usb-Keeps r (close d).device ∙ close-Keeps d

opening-IsUsable :
    (r : OpenReplies) (d : UsbDevice) (u : UsbOptions)
    → d.options ≡ u
    → ((close >> open_usb r) d).result ≡ ok tt
    → IsUsable u ((close >> open_usb r) d).device
unfolding close
opening-IsUsable r d u h e =
    let handles = open_usb-IsOpen r (close d).device e in
    record {
      options = opening-Keeps r d ∙ h;
      opened = (r.handle, handles.0);
      connected = handles.1;
    }

open_fails : (e : UsbError) → ¬ (tried_open e ≡ succeeded)
unfolding tried_open
open_fails multiple_devices h = ground arith
open_fails e h = ground arith

try_init-device :
    (res : Result (Unit {0})) (replies : ℕ → StepReplies) (d : UsbDevice) (drain : Drain84)
    → ((try_init res replies d drain).device ≡ d)
      × ((try_init res replies d drain).tried ≡ succeeded → res ≡ ok tt)
unfolding try_init tried_init tried_open
try_init-device (ok u) replies d drain = (refl, λ h. refl)
try_init-device (err e) replies d drain = (refl, λ h. absurd (open_fails e h))
try_init-device undefined replies d drain = (refl, λ h. ground arith)

try_once-IsUsable :
    (a : Attempt) (d : UsbDevice) (drain : Drain84) (u : UsbOptions)
    → d.options ≡ u
    → ((try_once a d drain).device.options ≡ u)
      × ((try_once a d drain).tried ≡ succeeded → IsUsable u (try_once a d drain).device)
unfolding try_once
try_once-IsUsable a d drain u h =
    let r = (close >> open_usb a.open_replies) d in
    let view = try_init-device r.result a.init_replies r.device drain in
    (
      ap (λ (x : UsbDevice). x.options) view.0 ∙ opening-Keeps a.open_replies d ∙ h,
      λ e. rw (view.0) (opening-IsUsable a.open_replies d u h (view.1 e)),
    )

connect_end-IsUsable :
    (tried : Tried) (r : TryRun) (rest : ConnectRun) (u : UsbOptions)
    → (tried ≡ succeeded → IsUsable u r.device)
    → (rest.outcome ≡ connected → IsUsable u rest.device)
    → (connect_end tried r rest).outcome ≡ connected
    → IsUsable u (connect_end tried r rest).device
unfolding connect_end
connect_end-IsUsable succeeded r rest u now later e = now refl
connect_end-IsUsable retried r rest u now later e = later e
connect_end-IsUsable several_devices r rest u now later e = ground arith
connect_end-IsUsable hangs r rest u now later e = ground arith
connect_end-IsUsable reads_outside r rest u now later e = ground arith

-- When `connect` returns true the device is open and connected, and has its options.
pub connect-IsUsable :
    (attempts : List (Option Attempt)) (d : UsbDevice) (drain : Drain84) (u : UsbOptions)
    → d.options ≡ u
    → (connect attempts d drain).outcome ≡ connected
    → IsUsable u (connect attempts d drain).device
unfolding connect
connect-IsUsable [] d drain u h e = ground arith
connect-IsUsable (none ∷ attempts) d drain u h e = ground arith
connect-IsUsable (some a ∷ attempts) d drain u h e =
    let r = try_once a d drain in
    let view = try_once-IsUsable a d drain u h in
    connect_end-IsUsable r.tried r (connect attempts r.device r.drain) u view.1
      (connect-IsUsable attempts r.device r.drain u view.0) e
