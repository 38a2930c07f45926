-- ===== src/Usb/Connection/Silence.antt =====
-- `open` of src/usb_device.cpp transfers nothing.
use s4_mk1_usb2midi.Common.{
  refl, ℕ, Option, Bool, List, Bool-cases, some, true, false, ltb, none, inl, ◌==◌, inr, ◌≡◌, ◌++◌,
  ◌∷◌, [],
}
use s4_mk1_usb2midi.Usb.{
  Rc, ConfigDescriptor, ListedDevice, failure, AltSetting, success, UsbDevice, exit_context,
}
use s4_mk1_usb2midi.Usb.Connection.{
  choose_target, select, acquire, configure, find_device, require_device, read_config, check_found,
  read_endpoints, resolve_endpoint_types, open_usb, only_target, list_devices, store_handle,
  OpenReplies, set_connected, scan_devices, scan_alts, interface_at, delete_device, release_handle,
}
use s4_mk1_usb2midi.Usb.Mute.{Mute, bind-Mute, all_mute}

choose_target-Mute : (n : ℕ) (t : Option ℕ) → Mute (choose_target (n, t))
unfolding choose_target only_target
choose_target-Mute n none d = elim (Bool-cases (ltb 1 n)) [
  | inl e ↦ rw (e, choose_target) refl
  | inr e ↦ rw (e, choose_target) refl
]
choose_target-Mute n (some t) d = elim (Bool-cases (ltb 1 n)) [
  | inl e ↦ rw (e, choose_target) refl
  | inr e ↦ rw (e, choose_target) refl
]

select-Mute : (listed : Option (List ListedDevice)) → Mute (select listed)
unfolding select list_devices
select-Mute none d = refl
select-Mute (some ds) d =
    let chosen = scan_devices d.options ds 0 none in choose_target-Mute chosen.0 chosen.1 d

acquire-Mute : (target : ℕ) (rc : Rc) (h : ℕ) → Mute (acquire target rc h)
unfolding acquire store_handle set_connected
acquire-Mute target success h d = refl
acquire-Mute target (failure e) h d = refl

configure-Mute : (h : ℕ) (a b c : Rc) → Mute (configure h a b c)
unfolding configure
configure-Mute h success success success d = refl
configure-Mute h success success (failure e) d = refl
configure-Mute h success (failure e) c d = refl
configure-Mute h (failure e) b c d = refl

find_device-Mute : (listed : Option (List ListedDevice)) → Mute (find_device listed)
unfolding find_device
find_device-Mute none d = refl
find_device-Mute (some ds) d = refl

require_device-Mute : (t : Option ℕ) → Mute (require_device t)
unfolding require_device
require_device-Mute none d = refl
require_device-Mute (some t) d = refl

read_config-Mute :
    (active : Option ConfigDescriptor) (first : ConfigDescriptor) (rc : Rc)
    → Mute (read_config active first rc)
unfolding read_config
read_config-Mute (some c) first rc d = refl
read_config-Mute none first success d = refl
read_config-Mute none first (failure e) d = refl

check_found-Mute : (i o : Bool) → Mute (check_found i o)
unfolding check_found
check_found-Mute true true d = refl
check_found-Mute true false d = refl
check_found-Mute false o d = refl

read_endpoints-Mute : (alts : Option (List AltSetting)) → Mute (read_endpoints alts)
unfolding read_endpoints
read_endpoints-Mute none d = refl
read_endpoints-Mute (some alts) d =
    let found =
      scan_alts alts
        (record { device = d; input = false; output = d.options.output_endpoint == 0 }) in
    check_found-Mute found.input found.output found.device

resolve_endpoint_types-Mute : (r : OpenReplies) → Mute (resolve_endpoint_types r)
unfolding resolve_endpoint_types
resolve_endpoint_types-Mute r =
    bind-Mute (find_device r.devices_again) _ (find_device-Mute r.devices_again) λ t.
      bind-Mute (require_device t) _ (require_device-Mute t) λ _.
        bind-Mute (read_config r.active_config r.first_config r.first_config_rc) _
          (read_config-Mute r.active_config r.first_config r.first_config_rc)
          λ c d. read_endpoints-Mute (interface_at c d.options.interface_number) d

pub open_usb-Mute : (r : OpenReplies) → Mute (open_usb r)
unfolding open_usb
open_usb-Mute r = bind-Mute (select r.devices) _ (select-Mute r.devices) λ t.
    bind-Mute (acquire t r.open_rc r.handle) _ (acquire-Mute t r.open_rc r.handle) λ _.
      bind-Mute (configure r.handle r.auto_detach_rc r.claim_rc r.alt_setting_rc) _
        (configure-Mute r.handle r.auto_detach_rc r.claim_rc r.alt_setting_rc)
        λ _. resolve_endpoint_types-Mute r

pub delete_device-mute : (d : UsbDevice) → all_mute (delete_device d) ≡ true
unfolding delete_device release_handle
delete_device-mute d = at d.handle
  where
    at :
        (h : Option ℕ)
        → all_mute (release_handle h d.options.interface_number ++ exit_context ∷ []) ≡ true
    at none = refl
    at (some h) = refl
