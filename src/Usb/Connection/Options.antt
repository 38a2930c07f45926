-- ===== src/Usb/Connection/Options.antt =====
-- What `open` and `close` of src/usb_device.cpp do to the options and to the handle.
use s4_mk1_usb2midi.Common.{
  refl, ◌≡◌, List, ◌∙◌, Option, ℕ, some, Bool-cases, ltb, none, inl, inr, false, arith, ap, sym,
}
use s4_mk1_usb2midi.Usb.{
  M, UsbDevice, ◌>>=◌, Rc, LibusbError, UsbError, ListedDevice, check_libusb, failure, success, ok,
  UsbOptions, Result,
}
use s4_mk1_usb2midi.Usb.Connection.{
  only_target, choose_target, select, acquire, configure, open_usb, close, list_devices,
  store_handle, OpenReplies, set_connected, scan_devices, resolve_endpoint_types, new_device,
}
use s4_mk1_usb2midi.Usb.Connection.Opening.{configure-Keeps, resolve_endpoint_types-Keeps}
use s4_mk1_usb2midi.Usb.Preserving.{Related, bind-Related, bind-ok}

abbrev SameOptions : UsbDevice → UsbDevice → Type 0
SameOptions d e = e.options ≡ d.options

abbrev Keeps : {A : Type 0} → M A → Type 0
Keeps m = Related SameOptions m

bind-Keeps :
    {A B : Type 0} (m : M A) (f : A → M B) → Keeps m → ((a : A) → Keeps (f a)) → Keeps (m >>= f)
bind-Keeps m f h k = bind-Related SameOptions (λ d e f h k. k ∙ h) m f h k

check-Keeps : (rc : Rc) (e : LibusbError → UsbError) → Keeps (check_libusb rc e)
check-Keeps success e d = refl
check-Keeps (failure c) e d = refl

only_target-Keeps : (t : Option ℕ) → Keeps (only_target t)
unfolding only_target
only_target-Keeps none d = refl
only_target-Keeps (some t) d = refl

choose_target-Keeps : (c : ℕ × Option ℕ) → Keeps (choose_target c)
unfolding choose_target
choose_target-Keeps (n, t) d = elim (Bool-cases (ltb 1 n)) [
  | inl e ↦ rw (e, choose_target) refl
  | inr e ↦ rw (e, choose_target) (only_target-Keeps t d)
]

pub select-Keeps : (listed : Option (List ListedDevice)) → Keeps (select listed)
unfolding select list_devices
select-Keeps none d = refl
select-Keeps (some ds) d = choose_target-Keeps (scan_devices d.options ds 0 none) d

pub acquire-Keeps : (target : ℕ) (rc : Rc) (h : ℕ) → Keeps (acquire target rc h)
unfolding acquire store_handle set_connected
acquire-Keeps target success h d = refl
acquire-Keeps target (failure e) h d = refl

pub open_usb-Keeps : (r : OpenReplies) (d : UsbDevice) → (open_usb r d).device.options ≡ d.options
unfolding open_usb
open_usb-Keeps r = bind-Keeps (select r.devices) _ (select-Keeps r.devices) λ t.
    bind-Keeps (acquire t r.open_rc r.handle) _ (acquire-Keeps t r.open_rc r.handle) λ _.
      bind-Keeps (configure r.handle r.auto_detach_rc r.claim_rc r.alt_setting_rc) _
        (λ d. (configure-Keeps r.handle r.auto_detach_rc r.claim_rc r.alt_setting_rc d).1)
        λ _ d. (resolve_endpoint_types-Keeps r d).1

pub close-Keeps : (d : UsbDevice) → (close d).device.options ≡ d.options
unfolding close
close-Keeps d = refl

acquire-opens :
    (target : ℕ) (rc : Rc) (h : ℕ) (d : UsbDevice)
    → (acquire target rc h d).result ≡ ok tt
    → ((acquire target rc h d).device.handle ≡ some h)
      × ((acquire target rc h d).device.disconnected ≡ false)
unfolding acquire store_handle set_connected
acquire-opens target success h d e = (refl, refl)
acquire-opens target (failure x) h d e = ground arith

-- An `open` that returns leaves the device open and connected.
pub open_usb-IsOpen :
    (r : OpenReplies) (d : UsbDevice)
    → (open_usb r d).result ≡ ok tt
    → ((open_usb r d).device.handle ≡ some r.handle) × ((open_usb r d).device.disconnected ≡ false)
unfolding open_usb
open_usb-IsOpen r d h =
    let (t, _, h1, e1) = bind-ok (select r.devices) _ d tt h in
    let d1 = (select r.devices d).device in
    let (_, got, h2, e2) = bind-ok (acquire t r.open_rc r.handle) _ d1 tt h1 in
    let d2 = (acquire t r.open_rc r.handle d1).device in
    let setup : M (Unit {0}) = configure r.handle r.auto_detach_rc r.claim_rc r.alt_setting_rc in
    let (_, _, _, e3) = bind-ok setup (λ _. resolve_endpoint_types r) d2 tt h2 in
    let first = acquire-opens t r.open_rc r.handle d1 got in
    let second = configure-Keeps r.handle r.auto_detach_rc r.claim_rc r.alt_setting_rc d2 in
    let third = resolve_endpoint_types-Keeps r (setup d2).device in
    let same : (open_usb r d).device ≡ (resolve_endpoint_types r (setup d2).device).device =
      e1 ∙ e2 ∙ e3 in
    (
      ap (λ (x : UsbDevice). x.handle) same ∙ third.0 ∙ second.0 ∙ first.0,
      ap (λ (x : UsbDevice). x.disconnected) same ∙ third.2 ∙ second.2 ∙ first.1,
    )

pub new_device-options :
    (u : UsbOptions) (rc : Rc) (d : UsbDevice) → new_device u rc ≡ ok d → d.options ≡ u
unfolding new_device
new_device-options u success d h = sym (ap (options_or u) h)
  where
    options_or : UsbOptions → Result UsbDevice → UsbOptions
    options_or v (ok x) = x.options
    options_or v r = v
new_device-options u (failure e) d h = ground arith
