-- ===== src/Usb/Connection.antt =====
-- The constructor, the destructor, open, close, find_device and resolve_endpoint_types of
-- src/usb_device.cpp.
pub mod Opening
pub mod Resources
pub mod Range
pub mod Endpoints
pub mod Options
pub mod Silence
pub mod Tests
use s4_mk1_usb2midi.Common.{
  ℕ, zero, suc, ◌+◌, Bool, true, false, not, ◌&&◌, Option, none, some, List, [], ◌∷◌, ◌++◌, ltb,
  ◌==◌, if◌then◌else◌, ℤ, pos, negsuc, eqb_ℤ, bit_and, get_elem?,
}
use s4_mk1_usb2midi.Usb.{
  UsbOptions, UsbTransferType, bulk, interrupt, UsbDevice, Rc, success, failure, EndpointDescriptor,
  AltSetting, ConfigDescriptor, ListedDevice, UsbCall, get_device_list, free_device_list,
  open_device, close_device, set_auto_detach, claim_interface, release_interface, set_alt_setting,
  get_config, free_config, exit_context, LibusbError, UsbError, enumerate_failed, multiple_devices,
  device_not_found, open_failed, auto_detach_failed, claim_failed, alt_setting_failed,
  config_failed, device_gone, input_endpoint_missing, output_endpoint_missing, libusb_init_failed,
  Result, ok, err, Run, M, ◌>>=◌, ◌>>◌, pure, throw, fault, ask, get, put, check_libusb,
}

-- The constructor; a throwing constructor makes no object.
unfoldable pub new_device : UsbOptions → Rc → Result UsbDevice
new_device options success = ok (record {
  options = options;
  handle = none;
  disconnected = false;
  input_transfer_type = bulk;
  output_transfer_type = bulk;
})
new_device options (failure e) = err (libusb_init_failed e)

-- The calls that give a handle back.
pub release_handle : Option ℕ → ℤ → List UsbCall
release_handle none interface = []
release_handle (some h) interface = release_interface h interface ∷ close_device h ∷ []

-- The destructor; the context is never null here, since the constructor threw otherwise.
pub delete_device : UsbDevice → List UsbCall
delete_device d = release_handle d.handle d.options.interface_number ++ exit_context ∷ []

unfoldable pub close : M (Unit {0})
unfolding release_handle
close d = record {
  device = record d { handle = none; disconnected = false };
  calls = release_handle d.handle d.options.interface_number;
  result = ok tt;
}

unfoldable pub matches_ids : UsbOptions → Option (ℕ × ℕ) → Bool
matches_ids o none = false
matches_ids o (some (vendor, product)) = vendor == o.vendor_id && product == o.product_id

pub keep_first : Option ℕ → ℕ → Option ℕ
keep_first none ref = some ref
keep_first (some r) ref = some r

-- The loop of `open`: how many devices match, and the first of them.
pub scan_devices : UsbOptions → List ListedDevice → ℕ → Option ℕ → ℕ × Option ℕ
scan_devices o [] matches target = (matches, target)
scan_devices o (d ∷ ds) matches target =
    scan_devices o ds (if matches_ids o d.ids then matches + 1 else matches)
      (if matches_ids o d.ids then keep_first target d.ref else target)

-- What libusb answers in one call of `open`: the list of devices (`none` for a negative count), the
-- codes of its functions, the handle, the list and the configurations that are read last.
pub record OpenReplies : Type 0 where
  pub devices : Option (List ListedDevice)
  pub open_rc : Rc
  pub handle : ℕ
  pub auto_detach_rc : Rc
  pub claim_rc : Rc
  pub alt_setting_rc : Rc
  pub devices_again : Option (List ListedDevice)
  pub active_config : Option ConfigDescriptor
  pub first_config : ConfigDescriptor
  pub first_config_rc : Rc

list_devices : Option (List ListedDevice) → M (List ListedDevice)
list_devices none = throw enumerate_failed
list_devices (some ds) = ask get_device_list >> pure ds

only_target : Option ℕ → M ℕ
only_target none = ask free_device_list >> throw device_not_found
only_target (some t) = pure t

choose_target : ℕ × Option ℕ → M ℕ
unfolding only_target
choose_target (matches, target) =
    if ltb 1 matches then (ask free_device_list >> throw multiple_devices) else only_target target

-- `libusb_open` sets the handle on success only.
store_handle : Rc → ℕ → M (Unit {0})
store_handle success h d = record {
  device = record d { handle = some h };
  calls = [];
  result = ok tt;
}
store_handle (failure e) h d = pure tt d

set_connected : M (Unit {0})
set_connected d = record { device = record d { disconnected = false }; calls = []; result = ok tt }

first_listed : UsbOptions → List ListedDevice → Option ℕ
first_listed o [] = none
first_listed o (d ∷ ds) = if matches_ids o d.ids then some d.ref else first_listed o ds

pub find_device : Option (List ListedDevice) → M (Option ℕ)
unfolding first_listed
find_device none = pure none
find_device (some ds) = do
  ask get_device_list
  d ← get
  ask free_device_list
  pure (first_listed d.options ds)

pub require_device : Option ℕ → M (Unit {0})
require_device none = throw device_gone
require_device (some d) = pure tt

pub read_config : Option ConfigDescriptor → ConfigDescriptor → Rc → M ConfigDescriptor
read_config (some c) first rc = ask get_config >> pure c
read_config none first rc = check_libusb rc config_failed >> (ask get_config >> pure first)

-- `config->interface[options_.interface_number]`, with no test of the index.
interface_at : ConfigDescriptor → ℤ → Option (List AltSetting)
interface_at config (pos n) = get_elem? config n
interface_at config (negsuc n) = none

-- LIBUSB_TRANSFER_TYPE_MASK is 3, the value of both low bits is an interrupt endpoint.
pub transfer_type : EndpointDescriptor → UsbTransferType
transfer_type e = if bit_and e.attributes 3 == 3 then interrupt else bulk

pub record Found : Type 0 where
  pub device : UsbDevice
  pub input : Bool
  pub output : Bool

note_input : EndpointDescriptor → Found → Found
note_input e f =
    if e.address == f.device.options.input_endpoint
    then record f {
      device = record f.device { input_transfer_type = transfer_type e };
      input = true;
    }
    else f

note_output : EndpointDescriptor → Found → Found
note_output e f =
    if not (f.device.options.output_endpoint == 0) && e.address == f.device.options.output_endpoint
    then record f {
      device = record f.device { output_transfer_type = transfer_type e };
      output = true;
    }
    else f

pub scan_endpoints : List EndpointDescriptor → Found → Found
unfolding note_input note_output
scan_endpoints [] f = f
scan_endpoints (e ∷ es) f = scan_endpoints es (note_output e (note_input e f))

pub scan_alts : List AltSetting → Found → Found
scan_alts [] f = f
scan_alts (a ∷ as') f = scan_alts as' (
    if eqb_ℤ (pos a.alternate_setting) f.device.options.alternate_setting
    then scan_endpoints a.endpoints f
    else f)

check_found : Bool → Bool → M (Unit {0})
check_found input output =
    if not input
    then throw input_endpoint_missing
    else if not output
    then throw output_endpoint_missing
    else pure tt

-- The part of `resolve_endpoint_types` that follows `find_device`.
pub read_endpoints : Option (List AltSetting) → M (Unit {0})
unfolding check_found
read_endpoints none = fault
read_endpoints (some alts) = do
  d ← get
  let found =
      scan_alts alts (record { device = d; input = false; output = d.options.output_endpoint == 0 })
  put found.device
  ask free_config
  check_found found.input found.output

pub resolve_endpoint_types : OpenReplies → M (Unit {0})
unfolding require_device read_config interface_at
resolve_endpoint_types r = do
  device ← find_device r.devices_again
  require_device device
  config ← read_config r.active_config r.first_config r.first_config_rc
  d ← get
  read_endpoints (interface_at config d.options.interface_number)

-- The three parts of `open`: choosing the device, opening it, and setting it up.
pub select : Option (List ListedDevice) → M ℕ
unfolding list_devices choose_target
select listed = do
  devices ← list_devices listed
  d ← get
  choose_target (scan_devices d.options devices 0 none)

pub acquire : ℕ → Rc → ℕ → M (Unit {0})
unfolding store_handle set_connected
acquire target open_rc handle = do
  ask (open_device target)
  store_handle open_rc handle
  ask free_device_list
  check_libusb open_rc open_failed
  set_connected

pub configure : ℕ → Rc → Rc → Rc → M (Unit {0})
configure handle auto_detach_rc claim_rc alt_setting_rc = do
  d ← get
  ask (set_auto_detach handle)
  check_libusb auto_detach_rc auto_detach_failed
  ask (claim_interface handle d.options.interface_number)
  check_libusb claim_rc claim_failed
  ask (set_alt_setting handle d.options.interface_number d.options.alternate_setting)
  check_libusb alt_setting_rc alt_setting_failed

pub open_usb : OpenReplies → M (Unit {0})
open_usb r = do
  target ← select r.devices
  acquire target r.open_rc r.handle
  configure r.handle r.auto_detach_rc r.claim_rc r.alt_setting_rc
  resolve_endpoint_types r
