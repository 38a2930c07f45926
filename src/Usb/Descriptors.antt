-- ===== src/Usb/Descriptors.antt =====
-- The printing of src/usb_device.cpp: hex_byte, describe_endpoint and print_descriptors. The calls
-- of libusb and the lines that are written to the output stand in their order.
pub mod GivesBack
pub mod Silence
mod Tests
use s4_mk1_usb2midi.Common.{
  ℕ, List, [], ◌∷◌, ◌++◌, Text, text, join, two_digits, short_hex, decimal, u8, shr, bit_and, drop,
  if◌then◌else◌, Option, none, some, ◌≡◌, map, ap, refl,
}
use s4_mk1_usb2midi.Usb.{
  EndpointDescriptor, AltSetting, ConfigDescriptor, UsbOptions, ListedDevice, UsbCall, M,
  get_config, throw, free_config, enumerate_failed, get_device_list, free_device_list, ok,
}
use s4_mk1_usb2midi.Usb.Connection.{matches_ids}

unfoldable pub hex_byte : ℕ → Text
hex_byte b = text "0x" ++ two_digits b

pub describe_endpoint : EndpointDescriptor → Text
unfolding hex_byte
describe_endpoint e = join (
    text "endpoint="
    ∷ hex_byte e.address
    ∷ text " attributes=0x"
    ∷ short_hex e.attributes
    ∷ text " max_packet="
    ∷ decimal e.max_packet_size
    ∷ text " interval="
    ∷ decimal e.interval
    ∷ [])

-- A 16-bit id: its high byte, and its low byte without the prefix.
unfoldable pub id_text : ℕ → Text
unfolding hex_byte
id_text v = hex_byte (u8 (shr v 8)) ++ drop 2 (hex_byte (u8 (bit_and v 0xff)))

device_line : ℕ → ℕ → Text
unfolding id_text
device_line vendor product =
    join (text "Found device vid=" ∷ id_text vendor ∷ text " pid=" ∷ id_text product ∷ [])

endpoint_lines : List EndpointDescriptor → List Text
unfolding describe_endpoint
endpoint_lines [] = []
endpoint_lines (e ∷ es) = (text "    " ++ describe_endpoint e) ∷ endpoint_lines es

alt_line : AltSetting → Text
alt_line a = join (
    text "  interface="
    ∷ decimal a.interface_number
    ∷ text " alt="
    ∷ decimal a.alternate_setting
    ∷ text " class=0x"
    ∷ short_hex a.interface_class
    ∷ text " subclass=0x"
    ∷ short_hex a.interface_subclass
    ∷ [])

alt_lines : List AltSetting → List Text
unfolding alt_line endpoint_lines
alt_lines [] = []
alt_lines (a ∷ as') = alt_line a ∷ (endpoint_lines a.endpoints ++ alt_lines as')

pub config_lines : ConfigDescriptor → List Text
unfolding alt_lines
config_lines [] = []
config_lines (i ∷ is) = alt_lines i ++ config_lines is

-- What the printing does: it calls libusb, or writes a line.
pub data PrintStep : Type 0 where
  call : UsbCall → PrintStep
  shown : Text → PrintStep

unfoldable pub calls_of : List PrintStep → List UsbCall
calls_of [] = []
calls_of (call c ∷ steps) = c ∷ calls_of steps
calls_of (shown t ∷ steps) = calls_of steps

pub calls_of-append : (xs ys : List PrintStep) → calls_of (xs ++ ys) ≡ calls_of xs ++ calls_of ys
unfolding calls_of
calls_of-append [] ys = refl
calls_of-append (call c ∷ xs) ys = ap (λ cs. c ∷ cs) (calls_of-append xs ys)
calls_of-append (shown t ∷ xs) ys = calls_of-append xs ys

pub calls_of-shown :
    (ts : List Text) (steps : List PrintStep) → calls_of (map shown ts ++ steps) ≡ calls_of steps
unfolding calls_of
calls_of-shown [] steps = refl
calls_of-shown (t ∷ ts) steps = calls_of-shown ts steps

print_with : ConfigDescriptor → List PrintStep
unfolding config_lines
print_with c = call get_config ∷ (map shown (config_lines c) ++ call free_config ∷ [])

-- The configurations of a device: the active one, and the one of index 0, which is asked for where
-- there is no active one.
print_config : Option ConfigDescriptor → Option ConfigDescriptor → List PrintStep
unfolding print_with
print_config (some c) first = print_with c
print_config none (some c) = print_with c
print_config none none = []

module _ (o : UsbOptions) (active first : ℕ → Option ConfigDescriptor) where
  print_device : ℕ → Option (ℕ × ℕ) → List PrintStep
  unfolding device_line print_config
  print_device ref none = []
  print_device ref (some (vendor, product)) =
      if matches_ids o (some (vendor, product))
      then shown (device_line vendor product) ∷ print_config (active ref) (first ref)
      else []

  print_devices : List ListedDevice → List PrintStep
  unfolding print_device
  print_devices [] = []
  print_devices (d ∷ ds) = print_device d.ref d.ids ++ print_devices ds

-- The result is what was done, in order.
unfoldable pub print_descriptors :
    Option (List ListedDevice)
    → (ℕ → Option ConfigDescriptor)
    → (ℕ → Option ConfigDescriptor)
    → M (List PrintStep)
unfolding print_devices
print_descriptors none active first d = throw enumerate_failed d
print_descriptors (some ds) active first d =
    let steps =
      call get_device_list
      ∷ (print_devices d.options active first ds ++ call free_device_list ∷ []) in
    record { device = d; calls = calls_of steps; result = ok steps }
