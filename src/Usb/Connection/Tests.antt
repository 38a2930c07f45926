-- ===== src/Usb/Connection/Tests.antt =====
-- The theorems on opening the USB device at concrete inputs: the S4 with its input endpoint 0x84.
use s4_mk1_usb2midi.Common.{
  false, none, some, List, [], ◌∷◌, ◌≡◌, refl, zero, suc, arith, pos, ◌==◌, ◌||◌, if◌then◌else◌, ℕ,
  ◌≢◌,
}
use s4_mk1_usb2midi.Usb.{
  UsbOptions, UsbDevice, ListedDevice, EndpointDescriptor, ConfigDescriptor, bulk, success, ok, err,
  output_endpoint_missing, input_endpoint_missing, free_config, get_device_list, free_device_list,
  undefined, multiple_devices, interrupt, open_device, set_auto_detach, claim_interface,
  set_alt_setting, get_config, AltSetting,
}
use s4_mk1_usb2midi.Usb.Connection.{
  open_usb, OpenReplies, select, matches_ids, read_endpoints, list_devices, resolve_endpoint_types,
  choose_target, only_target, scan_devices, keep_first, acquire, store_handle, set_connected,
  configure, find_device, first_listed, require_device, read_config, interface_at, scan_alts,
  scan_endpoints, note_input, note_output, transfer_type, check_found,
}
use s4_mk1_usb2midi.Usb.Connection.Opening.{matching, open_usb-opens, open_usb-refuses}
use s4_mk1_usb2midi.Usb.Connection.Endpoints.{selected, has_address, last_type, read_endpoints_lem}
use s4_mk1_usb2midi.Usb.Connection.Range.{open_usb-defined, IsNumbered}

abbrev pub options : UsbOptions
options = record {
  vendor_id = 0x17cc;
  product_id = 0xbaff;
  interface_number = pos 0;
  alternate_setting = pos 1;
  input_endpoint = 0x84;
  output_endpoint = 1;
  report_size = pos 4;
  timeout_ms = 50;
}

abbrev pub closed : UsbDevice
closed = record {
  options = options;
  handle = none;
  disconnected = false;
  input_transfer_type = bulk;
  output_transfer_type = bulk;
}

abbrev pub opened : UsbDevice
opened = record closed { handle = some 7 }

abbrev pub s4 : ListedDevice
s4 = record { ref = 3; ids = some (0x17cc, 0xbaff) }

abbrev pub endpoint : ℕ → ℕ → EndpointDescriptor
endpoint address attributes = record {
  address = address;
  attributes = attributes;
  max_packet_size = 64;
  interval = 1;
}

abbrev pub endpoints : List EndpointDescriptor
endpoints = endpoint 0x84 3 ∷ endpoint 1 2 ∷ []

abbrev pub alt_1 : AltSetting
alt_1 = record {
  interface_number = 0;
  interface_class = 0xff;
  interface_subclass = 0;
  alternate_setting = 1;
  endpoints = endpoints;
}

abbrev pub one_interface : ConfigDescriptor
one_interface = (alt_1 ∷ []) ∷ []

abbrev pub replies : List ListedDevice → OpenReplies
replies ds = record {
  devices = some ds;
  open_rc = success;
  handle = 7;
  auto_detach_rc = success;
  claim_rc = success;
  alt_setting_rc = success;
  devices_again = some ds;
  active_config = some one_interface;
  first_config = [];
  first_config_rc = success;
}

-- A whole `open` at work: the interrupt endpoint is found.
pub open_runs : open_usb (replies (s4 ∷ [])) closed ≡ record {
  device = record opened { input_transfer_type = interrupt };
  calls =
      get_device_list
      ∷ open_device 3
      ∷ free_device_list
      ∷ set_auto_detach 7
      ∷ claim_interface 7 (pos 0)
      ∷ set_alt_setting 7 (pos 0) (pos 1)
      ∷ get_device_list
      ∷ free_device_list
      ∷ get_config
      ∷ free_config
      ∷ [];
  result = ok tt;
}
unfolding open_usb select list_devices choose_target only_target scan_devices matches_ids keep_first
    acquire store_handle set_connected configure resolve_endpoint_types find_device first_listed
    require_device read_config read_endpoints interface_at scan_alts scan_endpoints note_input
    note_output transfer_type check_found
open_runs = refl

-- And again after a close, which keeps the transfer types.
abbrev pub closed_again : UsbDevice
closed_again = record closed { input_transfer_type = interrupt }

pub open_runs_again :
    let r = open_usb (replies (s4 ∷ [])) closed_again in
    (r.result ≡ ok tt) × (r.device ≡ record opened { input_transfer_type = interrupt })
unfolding open_usb select list_devices choose_target only_target scan_devices matches_ids keep_first
    acquire store_handle set_connected configure resolve_endpoint_types find_device first_listed
    require_device read_config read_endpoints interface_at scan_alts scan_endpoints note_input
    note_output transfer_type check_found
open_runs_again = (refl, refl)

open_usb-refuses_example : open_usb (replies (s4 ∷ s4 ∷ [])) closed ≡ record {
  device = closed;
  calls = get_device_list ∷ free_device_list ∷ [];
  result = err multiple_devices;
}
unfolding matching matches_ids
open_usb-refuses_example =
    open_usb-refuses (replies (s4 ∷ s4 ∷ [])) closed (s4 ∷ s4 ∷ []) refl (omega arith)

open_usb-opens_example :
    let d' = (open_usb (replies (s4 ∷ [])) closed).device in
    (d'.handle ≡ some 7) × (d'.options ≡ options) × (d'.disconnected ≡ false)
unfolding matching matches_ids
open_usb-opens_example = open_usb-opens (replies (s4 ∷ [])) closed (s4 ∷ []) 3 refl refl refl

read_endpoints_lem_example :
    let o = options in
    let es = selected o (alt_1 ∷ []) in
    let r = read_endpoints (some (alt_1 ∷ [])) opened in
    (r.result ≡ (
      if has_address o.input_endpoint es
      then (if o.output_endpoint == 0 || has_address o.output_endpoint es
          then ok tt
          else err output_endpoint_missing)
      else err input_endpoint_missing))
    × (r.calls ≡ free_config ∷ [])
    × (r.device.input_transfer_type ≡ last_type o.input_endpoint bulk es)
    × (r.device.output_transfer_type
        ≡ (if o.output_endpoint == 0 then bulk else last_type o.output_endpoint bulk es))
read_endpoints_lem_example = read_endpoints_lem (alt_1 ∷ []) opened

one_interface-IsNumbered : IsNumbered one_interface
one_interface-IsNumbered zero zero alts a at_k at_j = ground arith
one_interface-IsNumbered zero (suc j) alts a at_k at_j = ground arith
one_interface-IsNumbered (suc k) j alts a at_k at_j = ground arith

open_usb-defined_example : (open_usb (replies (s4 ∷ [])) closed).result ≢ undefined
open_usb-defined_example =
    open_usb-defined (replies (s4 ∷ [])) closed one_interface-IsNumbered
      λ claimed. (0, 0, alt_1 ∷ [], alt_1, refl, refl, refl)
