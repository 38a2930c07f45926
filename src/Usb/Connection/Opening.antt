-- ===== src/Usb/Connection/Opening.antt =====
-- What `open` and `close` promise.
use native.Mathlib.Nat.{zero-add}
use s4_mk1_usb2midi.Common.{
  true, false, ℕ, ◌+◌, Option, none, some, List, [], ◌∷◌, if◌then◌else◌, ◌≡◌, arith, length,
  Bool-cases, refl, eqb_ℤ, pos, inl, inr, ◌∙◌, Bool, false, ◌==◌, ◌≢◌, ltb, suc,
}
use s4_mk1_usb2midi.Usb.{
  UsbOptions, ListedDevice, UsbDevice, EndpointDescriptor, AltSetting, M, err, ◌>>=◌,
  ConfigDescriptor, Rc, failure, success, get_device_list, free_device_list, device_not_found,
  multiple_devices,
}
use s4_mk1_usb2midi.Usb.Connection.{
  scan_devices, matches_ids, keep_first, note_output, scan_endpoints, scan_alts,
  resolve_endpoint_types, note_input, OpenReplies, Found, find_device, read_config, require_device,
  check_found, read_endpoints, configure, interface_at, select, open_usb, list_devices,
  choose_target, only_target, acquire, store_handle, set_connected,
}
use s4_mk1_usb2midi.Usb.Preserving.{bind-Related}

-- The devices of a list that have the vendor and the product asked for.
unfoldable pub matching : UsbOptions → List ListedDevice → List ℕ
matching o [] = []
matching o (d ∷ ds) = if matches_ids o d.ids then d.ref ∷ matching o ds else matching o ds

abbrev first_or : Option ℕ → List ℕ → Option ℕ
first_or (some r) rs = some r
first_or none [] = none
first_or none (r ∷ rs) = some r

-- The loop counts the matching devices and keeps the first.
scan_devices-matching :
    (o : UsbOptions) (ds : List ListedDevice) (n : ℕ) (target : Option ℕ)
    → scan_devices o ds n target ≡ (n + length (matching o ds), first_or target (matching o ds))
unfolding scan_devices matching keep_first
scan_devices-matching o [] n none = ground arith
scan_devices-matching o [] n (some r) = ground arith
scan_devices-matching o (d ∷ ds) n none =
    ground
      (arith, scan_devices-matching o ds (n + 1) (some d.ref), scan_devices-matching o ds n none)
scan_devices-matching o (d ∷ ds) n (some r) =
    ground
      (arith, scan_devices-matching o ds (n + 1) (some r), scan_devices-matching o ds n (some r))

-- Reading the endpoints changes the transfer types only.
note-keeps :
    (e : EndpointDescriptor) (f : Found)
    → let g = note_output e (note_input e f) in
      (g.device.handle ≡ f.device.handle)
      × (g.device.options ≡ f.device.options)
      × (g.device.disconnected ≡ f.device.disconnected)
unfolding note_output note_input
note-keeps e f = ground arith

abbrev Keeps : UsbDevice → UsbDevice → Type 0
Keeps d e = (e.handle ≡ d.handle) × (e.options ≡ d.options) × (e.disconnected ≡ d.disconnected)

scan_endpoints-Keeps :
    (es : List EndpointDescriptor) (f : Found) → Keeps f.device (scan_endpoints es f).device
unfolding scan_endpoints
scan_endpoints-Keeps [] f = (refl, refl, refl)
scan_endpoints-Keeps (e ∷ es) f =
    ground (arith, note-keeps e f, scan_endpoints-Keeps es (note_output e (note_input e f)))

scan_alts-Keeps : (as' : List AltSetting) (f : Found) → Keeps f.device (scan_alts as' f).device
unfolding scan_alts
scan_alts-Keeps [] f = (refl, refl, refl)
scan_alts-Keeps (a ∷ as') f =
    elim (Bool-cases (eqb_ℤ (pos a.alternate_setting) f.device.options.alternate_setting)) [
      | inl here ↦
          rw (here, scan_alts)
            (ground (
              arith,
              scan_endpoints-Keeps a.endpoints f,
              scan_alts-Keeps as' (scan_endpoints a.endpoints f),
            ))
      | inr other ↦ rw (other, scan_alts) (scan_alts-Keeps as' f)
    ]

-- A computation keeps the handle, the options and the flag.
abbrev KeepsAll : {A : Type 0} → M A → Type 0
KeepsAll m = (d : UsbDevice) → Keeps d (m d).device

Keeps-trans : (d e f : UsbDevice) → Keeps d e → Keeps e f → Keeps d f
Keeps-trans d e f h k = (k.0 ∙ h.0, k.1 ∙ h.1, k.2 ∙ h.2)

>>=-Keeps :
    {A B : Type 0} (m : M A) (f : A → M B)
    → KeepsAll m
    → ((a : A) → KeepsAll (f a))
    → KeepsAll (m >>= f)
>>=-Keeps m f h k = bind-Related Keeps Keeps-trans m f h k

pub find_device-Keeps : (ds : Option (List ListedDevice)) → KeepsAll (find_device ds)
unfolding find_device
find_device-Keeps none d = (refl, refl, refl)
find_device-Keeps (some ds) d = (refl, refl, refl)

pub read_config-Keeps :
    (active : Option ConfigDescriptor) (first : ConfigDescriptor) (rc : Rc)
    → KeepsAll (read_config active first rc)
unfolding read_config
read_config-Keeps (some c) first rc d = (refl, refl, refl)
read_config-Keeps none first success d = (refl, refl, refl)
read_config-Keeps none first (failure e) d = (refl, refl, refl)

pub require_device-Keeps : (found : Option ℕ) → KeepsAll (require_device found)
unfolding require_device
require_device-Keeps none d = (refl, refl, refl)
require_device-Keeps (some t) d = (refl, refl, refl)

check_found-Keeps : (input output : Bool) → KeepsAll (check_found input output)
unfolding check_found
check_found-Keeps true true d = (refl, refl, refl)
check_found-Keeps true false d = (refl, refl, refl)
check_found-Keeps false output d = (refl, refl, refl)

read_endpoints-Keeps : (alts : Option (List AltSetting)) → KeepsAll (read_endpoints alts)
unfolding read_endpoints
read_endpoints-Keeps none d = (refl, refl, refl)
read_endpoints-Keeps (some alts) d =
    let start : Found = record {
      device = d;
      input = false;
      output = d.options.output_endpoint == 0;
    } in
    let found : Found = scan_alts alts start in
    Keeps-trans d found.device (check_found found.input found.output found.device).device
      (scan_alts-Keeps alts start) (check_found-Keeps found.input found.output found.device)

pub resolve_endpoint_types-Keeps : (r : OpenReplies) → KeepsAll (resolve_endpoint_types r)
unfolding resolve_endpoint_types
resolve_endpoint_types-Keeps r =
    >>=-Keeps (find_device r.devices_again) _ (find_device-Keeps r.devices_again) λ found.
      >>=-Keeps (require_device found) _ (require_device-Keeps found) λ _.
        >>=-Keeps (read_config r.active_config r.first_config r.first_config_rc) _
          (read_config-Keeps r.active_config r.first_config r.first_config_rc)
          λ config d. read_endpoints-Keeps (interface_at config d.options.interface_number) d

pub configure-Keeps : (h : ℕ) (a c l : Rc) → KeepsAll (configure h a c l)
unfolding configure
configure-Keeps h success success success d = (refl, refl, refl)
configure-Keeps h success success (failure e) d = (refl, refl, refl)
configure-Keeps h success (failure e) l d = (refl, refl, refl)
configure-Keeps h (failure e) c l d = (refl, refl, refl)

select-lem :
    (ds : List ListedDevice) (d : UsbDevice)
    → select (some ds) d ≡ (
        let r =
          choose_target (length (matching d.options ds), first_or none (matching d.options ds)) d in
        record r { calls = get_device_list ∷ r.calls })
unfolding select list_devices
select-lem ds d = rw (scan_devices-matching d.options ds 0 none, zero-add) refl

choose_refuses :
    (ms : List ℕ) (d : UsbDevice)
    → length ms ≢ 1
    → choose_target (length ms, first_or none ms) d ≡ record {
      device = d;
      calls = free_device_list ∷ [];
      result = err (if length ms == 0 then device_not_found else multiple_devices);
    }
unfolding choose_target only_target
choose_refuses [] d h = refl
choose_refuses (m ∷ []) d h = absurd (h refl)
choose_refuses (m ∷ n ∷ ms) d h =
    let two : ltb 1 (suc (suc (length ms))) ≡ true = ground arith in
    let some_match : (suc (suc (length ms)) == 0) ≡ false = ground arith in
    rw (two, some_match) refl

-- With no matching device, or with more than one, `open` opens nothing: it frees the list, throws
-- and leaves the state as it was.
pub open_usb-refuses :
    (r : OpenReplies) (d : UsbDevice) (ds : List ListedDevice)
    → r.devices ≡ some ds
    → length (matching d.options ds) ≢ 1
    → open_usb r d ≡ record {
      device = d;
      calls = get_device_list ∷ free_device_list ∷ [];
      result =
          err (if length (matching d.options ds) == 0 then device_not_found else multiple_devices);
    }
unfolding open_usb
open_usb-refuses r d ds listed count =
    rw (listed, select-lem ds d, choose_refuses (matching d.options ds) d count) refl

-- With one matching device that libusb opens, the device is open and not marked disconnected when
-- `open` ends, with its options as they were, whether the set-up that follows returns or throws.
pub open_usb-opens :
    (r : OpenReplies) (d : UsbDevice) (ds : List ListedDevice) (t : ℕ)
    → r.devices ≡ some ds
    → matching d.options ds ≡ t ∷ []
    → r.open_rc ≡ success
    → let d' = (open_usb r d).device in
      (d'.handle ≡ some r.handle) × (d'.options ≡ d.options) × (d'.disconnected ≡ false)
unfolding open_usb choose_target only_target acquire store_handle set_connected
    resolve_endpoint_types
open_usb-opens r d ds t listed one opened =
    rw (listed, select-lem ds d, one, opened)
      (>>=-Keeps (configure r.handle r.auto_detach_rc r.claim_rc r.alt_setting_rc)
        (λ _. resolve_endpoint_types r)
        (configure-Keeps r.handle r.auto_detach_rc r.claim_rc r.alt_setting_rc)
        (λ _. resolve_endpoint_types-Keeps r)
        (record d { handle = some r.handle; disconnected = false }))
