-- ===== src/Usb/Connection/Range.antt =====
-- The index of resolve_endpoint_types of src/usb_device.cpp: what keeps it within the interfaces.
use s4_mk1_usb2midi.Usb.Connection.{
  open_usb, OpenReplies, select, acquire, configure, find_device, require_device, read_config,
  interface_at, read_endpoints, resolve_endpoint_types, list_devices, store_handle, check_found,
  choose_target, set_connected, only_target, scan_devices, Found, scan_alts,
}
use s4_mk1_usb2midi.Usb.{
  UsbDevice, undefined, ◌>>=◌, and_then, Run, M, Rc, ConfigDescriptor, ok, LibusbError,
  ListedDevice, success, Result, UsbError, failure, AltSetting, err, check_libusb, UsbOptions,
}
use s4_mk1_usb2midi.Common.{
  Option, List, ◌≡◌, ◌≢◌, ℕ, some, ℤ, arith, pos, none, refl, get_elem?, Bool, false, ◌∙◌, true,
  ◌==◌, ap₂, ap,
}
use s4_mk1_usb2midi.Usb.Connection.Opening.{
  read_config-Keeps, configure-Keeps, require_device-Keeps, find_device-Keeps,
}
use s4_mk1_usb2midi.Usb.Connection.Options.{acquire-Keeps, select-Keeps}

-- The computation does not read outside an array.
abbrev IsDefined : {A : Type 0} → Run A → Type 0
IsDefined r = r.result ≢ undefined

bind-IsDefined :
    {A B : Type 0} (m : M A) (f : A → M B) (d : UsbDevice)
    → IsDefined (m d)
    → ((a : A) → (m d).result ≡ ok a → IsDefined (f a (m d).device))
    → IsDefined ((m >>= f) d)
bind-IsDefined {A = A} {B = B} m f d h k = at (m d).result h k
  where
    at :
        (x : Result A)
        → x ≢ undefined
        → ((a : A) → x ≡ ok a → IsDefined (f a (m d).device))
        → IsDefined (and_then x (m d).calls (m d).device f)
    at (ok a) h k = k a refl
    at (err e) h k = λ e. ground arith
    at undefined h k = absurd (h refl)

check-IsDefined :
    (rc : Rc) (e : LibusbError → UsbError) (d : UsbDevice) → IsDefined (check_libusb rc e d)
check-IsDefined success e d = λ h. ground arith
check-IsDefined (failure c) e d = λ h. ground arith

select-IsDefined :
    (listed : Option (List ListedDevice)) (d : UsbDevice) → IsDefined (select listed d)
unfolding select list_devices choose_target only_target
select-IsDefined none d = λ h. ground arith
select-IsDefined (some ds) d = by_count (scan_devices d.options ds 0 none)
  where
    by_count : (c : ℕ × Option ℕ) → IsDefined (choose_target c d)
    by_count (n, none) = λ h. ground arith
    by_count (n, some t) = λ h. ground arith

acquire-IsDefined : (t : ℕ) (rc : Rc) (h : ℕ) (d : UsbDevice) → IsDefined (acquire t rc h d)
unfolding acquire store_handle set_connected
acquire-IsDefined t success h d = λ e. ground arith
acquire-IsDefined t (failure c) h d = λ e. ground arith

configure-IsDefined : (h : ℕ) (a c l : Rc) (d : UsbDevice) → IsDefined (configure h a c l d)
unfolding configure
configure-IsDefined h success success success d = λ e. ground arith
configure-IsDefined h success success (failure x) d = λ e. ground arith
configure-IsDefined h success (failure x) l d = λ e. ground arith
configure-IsDefined h (failure x) c l d = λ e. ground arith

-- The set-up returns only where the interface was claimed.
configure-claims :
    (h : ℕ) (a c l : Rc) (d : UsbDevice) → (configure h a c l d).result ≡ ok tt → c ≡ success
unfolding configure
configure-claims h a success l d e = refl
configure-claims h success (failure x) l d e = ground arith
configure-claims h (failure y) (failure x) l d e = ground arith

find_device-IsDefined :
    (ds : Option (List ListedDevice)) (d : UsbDevice) → IsDefined (find_device ds d)
unfolding find_device
find_device-IsDefined none d = λ h. ground arith
find_device-IsDefined (some ds) d = λ h. ground arith

require_device-IsDefined : (found : Option ℕ) (d : UsbDevice) → IsDefined (require_device found d)
unfolding require_device
require_device-IsDefined none d = λ h. ground arith
require_device-IsDefined (some t) d = λ h. ground arith

-- The configuration that is read: the active one, or else the first.
abbrev pub config_of : Option ConfigDescriptor → ConfigDescriptor → ConfigDescriptor
config_of (some c) first = c
config_of none first = first

read_config-IsDefined :
    (active : Option ConfigDescriptor) (first : ConfigDescriptor) (rc : Rc) (d : UsbDevice)
    → IsDefined (read_config active first rc d)
unfolding read_config
read_config-IsDefined (some c) first rc d = λ h. ground arith
read_config-IsDefined none first success d = λ h. ground arith
read_config-IsDefined none first (failure e) d = λ h. ground arith

read_config-config_of :
    (active : Option ConfigDescriptor) (first : ConfigDescriptor) (rc : Rc) (d : UsbDevice)
    (c : ConfigDescriptor)
    → (read_config active first rc d).result ≡ ok c
    → c ≡ config_of active first
unfolding read_config
read_config-config_of (some b) first rc d c h = ground arith
read_config-config_of none first success d c h = ground arith
read_config-config_of none first (failure e) d c h = ground arith

-- The configuration has an alternate setting of an interface of this number.
abbrev pub HasInterface : ConfigDescriptor → ℤ → Type 0
HasInterface config number =
    (k : ℕ) × (j : ℕ) × (alts : List AltSetting) × (a : AltSetting) × (get_elem? config k
      ≡ some alts)
    × (get_elem? alts j ≡ some a)
    × (number ≡ pos a.interface_number)

-- The number of each interface is its index, as the USB specification has it.
abbrev pub IsNumbered : ConfigDescriptor → Type 0
IsNumbered config =
    (k j : ℕ) (alts : List AltSetting) (a : AltSetting)
    → get_elem? config k ≡ some alts
    → get_elem? alts j ≡ some a
    → a.interface_number ≡ k

interface_at-HasInterface :
    (config : ConfigDescriptor) (number : ℤ)
    → IsNumbered config
    → HasInterface config number
    → (alts : List AltSetting) × (interface_at config number ≡ some alts)
unfolding interface_at
interface_at-HasInterface config number numbered (k, j, alts, a, at_k, at_j, e) =
    (alts, rw (e, numbered k j alts a at_k at_j) at_k)

check_found-IsDefined :
    (input output : Bool) (d : UsbDevice) → IsDefined (check_found input output d)
unfolding check_found
check_found-IsDefined true true d = λ h. ground arith
check_found-IsDefined true false d = λ h. ground arith
check_found-IsDefined false output d = λ h. ground arith

read_endpoints-IsDefined :
    (alts : List AltSetting) (d : UsbDevice) → IsDefined (read_endpoints (some alts) d)
unfolding read_endpoints check_found
read_endpoints-IsDefined alts d =
    let start : Found = record {
      device = d;
      input = false;
      output = d.options.output_endpoint == 0;
    } in
    let found : Found = scan_alts alts start in
    check_found-IsDefined found.input found.output found.device

resolve_endpoint_types-IsDefined :
    (r : OpenReplies) (d : UsbDevice)
    → IsNumbered (config_of r.active_config r.first_config)
    → HasInterface (config_of r.active_config r.first_config) d.options.interface_number
    → IsDefined (resolve_endpoint_types r d)
unfolding resolve_endpoint_types
resolve_endpoint_types-IsDefined r d numbered h =
    let find : M (Option ℕ) = find_device r.devices_again in
    let read : M ConfigDescriptor = read_config r.active_config r.first_config r.first_config_rc in
    bind-IsDefined find _ d (find_device-IsDefined r.devices_again d) λ found e1.
      let d1 : UsbDevice = (find d).device in
      bind-IsDefined (require_device found) _ d1 (require_device-IsDefined found d1) λ there e2.
        let d2 : UsbDevice = (require_device found d1).device in
        bind-IsDefined read
          (λ config e. read_endpoints (interface_at config e.options.interface_number) e) d2
          (read_config-IsDefined r.active_config r.first_config r.first_config_rc d2)
          λ config e3.
            let d3 : UsbDevice = (read d2).device in
            let same : d3.options ≡ d.options =
              (read_config-Keeps r.active_config r.first_config r.first_config_rc d2).1
              ∙ (require_device-Keeps found d1).1
              ∙ (find_device-Keeps r.devices_again d).1 in
            let which : config ≡ config_of r.active_config r.first_config =
              read_config-config_of r.active_config r.first_config r.first_config_rc d2 config e3 in
            let (alts, at) =
              interface_at-HasInterface (config_of r.active_config r.first_config)
                d.options.interface_number numbered h in
            rw
              (ap₂ (λ (x : ConfigDescriptor) (y : UsbOptions). interface_at x y.interface_number)
                  which same
                ∙ at)
              (read_endpoints-IsDefined alts d3)

-- `open` never reads outside the array of interfaces, whatever libusb answers, when the interfaces of
-- the configuration that is read last are numbered by their indices and libusb claims an interface
-- only where that configuration has one of its number.
pub open_usb-defined :
    (r : OpenReplies) (d : UsbDevice)
    → IsNumbered (config_of r.active_config r.first_config)
    → (r.claim_rc ≡ success
        → HasInterface (config_of r.active_config r.first_config) d.options.interface_number)
    → (open_usb r d).result ≢ undefined
unfolding open_usb
open_usb-defined r d numbered claims =
    bind-IsDefined (select r.devices) _ d (select-IsDefined r.devices d) λ t e1.
      let d1 : UsbDevice = (select r.devices d).device in
      bind-IsDefined (acquire t r.open_rc r.handle) _ d1 (acquire-IsDefined t r.open_rc r.handle d1)
        λ got e2.
          let d2 : UsbDevice = (acquire t r.open_rc r.handle d1).device in
          let setup : M (Unit {0}) =
            configure r.handle r.auto_detach_rc r.claim_rc r.alt_setting_rc in
          bind-IsDefined setup (λ _. resolve_endpoint_types r) d2
            (configure-IsDefined r.handle r.auto_detach_rc r.claim_rc r.alt_setting_rc d2)
            λ set e3.
              let same : (setup d2).device.options ≡ d.options =
                (configure-Keeps r.handle r.auto_detach_rc r.claim_rc r.alt_setting_rc d2).1
                ∙ acquire-Keeps t r.open_rc r.handle d1
                ∙ select-Keeps r.devices d in
              let (k, j, alts, a, at_k, at_j, number) =
                claims
                  (configure-claims r.handle r.auto_detach_rc r.claim_rc r.alt_setting_rc d2 e3) in
              resolve_endpoint_types-IsDefined r (setup d2).device numbered (
                k,
                j,
                alts,
                a,
                at_k,
                at_j,
                ap (λ (x : UsbOptions). x.interface_number) same ∙ number,
              )
