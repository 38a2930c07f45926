-- ===== src/Usb.antt =====
-- src/usb_device.cpp and its header: the state of `UsbDevice`, and the monad of its methods. libusb
-- is not part of the program: what its functions answer is an argument of each method, and what the
-- method calls is listed. A method may throw; the state that it has changed by then stays.
pub mod Connection
pub mod Transfers
pub mod Descriptors
pub mod Preserving
pub mod Mute
use s4_mk1_usb2midi.Common.{
  ℕ, Bool, true, false, Option, none, some, List, [], ◌∷◌, ◌++◌, ◌==◌, if◌then◌else◌, ℤ, bit_and,
}

pub record UsbOptions : Type 0 where
  pub vendor_id : ℕ
  pub product_id : ℕ
  pub interface_number : ℤ
  pub alternate_setting : ℤ
  pub input_endpoint : ℕ
  pub output_endpoint : ℕ
  pub report_size : ℤ
  pub timeout_ms : ℕ

pub data UsbTransferType : Type 0 where
  bulk interrupt : UsbTransferType

-- `handle` is `none` for the null pointer.
pub record UsbDevice : Type 0 where
  pub options : UsbOptions
  pub handle : Option ℕ
  pub disconnected : Bool
  pub input_transfer_type : UsbTransferType
  pub output_transfer_type : UsbTransferType

-- A libusb error code: those that the source names, and the others.
pub data LibusbError : Type 0 where
  io no_device timeout overflow : LibusbError
  other_error : ℕ → LibusbError

-- The return code of a libusb function: 0, or a negative error code.
pub data Rc : Type 0 where
  success : Rc
  failure : LibusbError → Rc

pub record EndpointDescriptor : Type 0 where
  pub address : ℕ
  pub attributes : ℕ
  pub max_packet_size : ℕ
  pub interval : ℕ

pub record AltSetting : Type 0 where
  pub interface_number : ℕ
  pub interface_class : ℕ
  pub interface_subclass : ℕ
  pub alternate_setting : ℕ
  pub endpoints : List EndpointDescriptor

-- The interfaces of a configuration, each with its alternate settings.
abbrev pub ConfigDescriptor : Type 0
ConfigDescriptor = List (List AltSetting)

-- A device of libusb's list; `ids` is `none` where its descriptor cannot be read.
pub record ListedDevice : Type 0 where
  pub ref : ℕ
  pub ids : Option (ℕ × ℕ)

-- What a method asks of libusb. A list or a configuration that libusb fails to give is not listed.
pub data UsbCall : Type 0 where
  get_device_list free_device_list : UsbCall
  open_device : ℕ → UsbCall
  close_device : ℕ → UsbCall
  set_auto_detach : ℕ → UsbCall
  claim_interface release_interface : ℕ → ℤ → UsbCall
  set_alt_setting : ℕ → ℤ → ℤ → UsbCall
  get_config free_config exit_context : UsbCall
  transfers : UsbTransferType → ℕ → List ℕ → ℕ → UsbCall

pub data UsbError : Type 0 where
  enumerate_failed multiple_devices device_not_found : UsbError
  open_failed auto_detach_failed claim_failed alt_setting_failed config_failed :
      LibusbError → UsbError
  device_gone input_endpoint_missing output_endpoint_missing : UsbError
  not_open bad_report_size no_output_endpoint : UsbError
  input_failed output_failed write_to_failed : LibusbError → UsbError
  output_short write_to_short : UsbError
  libusb_init_failed : LibusbError → UsbError

-- `undefined` is a read outside an array, which C++ leaves undefined.
pub data Result {ℓ} (A : Type ℓ) : Type ℓ where
  ok : A → Result A
  err : UsbError → Result A
  undefined : Result A

pub record Run (A : Type 0) : Type 0 where
  pub device : UsbDevice
  pub calls : List UsbCall
  pub result : Result A

abbrev pub M : Type 0 → Type 0
M A = UsbDevice → Run A

abbrev pub and_then : {A B : Type 0} → Result A → List UsbCall → UsbDevice → (A → M B) → Run B
and_then (ok a) calls d f = let r = f a d in record r { calls = calls ++ r.calls }
and_then (err e) calls d f = record { device = d; calls = calls; result = err e }
and_then undefined calls d f = record { device = d; calls = calls; result = undefined }

infixl 5 ◌>>=◌ ◌>>◌
abbrev pub ◌>>=◌ : {A B : Type 0} → M A → (A → M B) → M B
◌>>=◌ m f d = let r = m d in and_then r.result r.calls r.device f

abbrev pub ◌>>◌ : {B : Type 0} → M (Unit {0}) → M B → M B
m >> k = m >>= λ _. k

abbrev pub pure : {A : Type 0} → A → M A
pure a d = record { device = d; calls = []; result = ok a }

abbrev pub throw : {A : Type 0} → UsbError → M A
throw e d = record { device = d; calls = []; result = err e }

abbrev pub fault : {A : Type 0} → M A
fault d = record { device = d; calls = []; result = undefined }

abbrev pub ask : UsbCall → M (Unit {0})
ask c d = record { device = d; calls = c ∷ []; result = ok tt }

abbrev pub get : M UsbDevice
get d = record { device = d; calls = []; result = ok d }

abbrev pub put : UsbDevice → M (Unit {0})
put d' d = record { device = d'; calls = []; result = ok tt }

-- `check_libusb`: it throws the named error on a negative code.
abbrev pub check_libusb : Rc → (LibusbError → UsbError) → M (Unit {0})
check_libusb success e = pure tt
check_libusb (failure c) e = throw (e c)
