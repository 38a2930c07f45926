-- ===== src/Usb/Descriptors/GivesBack.antt =====
-- What print_descriptors of src/usb_device.cpp takes from libusb, it gives back.
use s4_mk1_usb2midi.Common.{
  ◌≡◌, ◌∙◌, ℕ, zero, suc, List, [], ◌∷◌, ◌++◌, Option, none, some, refl, Bool-cases, inl, inr,
  append_assoc,
}
use s4_mk1_usb2midi.Usb.{
  UsbCall, UsbOptions, open_device, ConfigDescriptor, ListedDevice, close_device, UsbDevice,
  set_auto_detach, free_device_list, claim_interface, release_interface, set_alt_setting, transfers,
  get_device_list, get_config, exit_context, free_config,
}
use s4_mk1_usb2midi.Usb.Descriptors.{
  print_config, print_descriptors, print_device, print_devices, matches_ids, PrintStep, print_with,
  calls_of, calls_of-append, calls_of-shown, config_lines, call,
}

-- The device lists and the configurations that are held after the calls; `none` when one is given
-- back that is not held.
pub holds : List UsbCall → ℕ → ℕ → Option (ℕ × ℕ)
holds [] lists configs = some (lists, configs)
holds (get_device_list ∷ calls) lists configs = holds calls (suc lists) configs
holds (free_device_list ∷ calls) zero configs = none
holds (free_device_list ∷ calls) (suc lists) configs = holds calls lists configs
holds (get_config ∷ calls) lists configs = holds calls lists (suc configs)
holds (free_config ∷ calls) lists zero = none
holds (free_config ∷ calls) lists (suc configs) = holds calls lists configs
holds (open_device h ∷ calls) lists configs = holds calls lists configs
holds (close_device h ∷ calls) lists configs = holds calls lists configs
holds (set_auto_detach h ∷ calls) lists configs = holds calls lists configs
holds (claim_interface h i ∷ calls) lists configs = holds calls lists configs
holds (release_interface h i ∷ calls) lists configs = holds calls lists configs
holds (set_alt_setting h i a ∷ calls) lists configs = holds calls lists configs
holds (exit_context ∷ calls) lists configs = holds calls lists configs
holds (transfers t e b n ∷ calls) lists configs = holds calls lists configs

-- The same of the steps of the printing: a line holds nothing.
abbrev steps_hold : List PrintStep → List UsbCall → ℕ → ℕ → Option (ℕ × ℕ)
steps_hold steps calls l c = holds (calls_of steps ++ calls) l c

steps_hold-append :
    (xs ys : List PrintStep) (calls : List UsbCall) (l c : ℕ)
    → steps_hold (xs ++ ys) calls l c ≡ steps_hold xs (calls_of ys ++ calls) l c
steps_hold-append xs ys calls l c =
    rw (calls_of-append xs ys, append_assoc (calls_of xs) (calls_of ys) calls) refl

print_config-holds :
    (a b : Option ConfigDescriptor) (calls : List UsbCall) (l c : ℕ)
    → steps_hold (print_config a b) calls l c ≡ holds calls l c
unfolding print_config holds print_with calls_of
print_config-holds (some x) b calls l c =
    rw (calls_of-shown (config_lines x) (call free_config ∷ [])) refl
print_config-holds none (some x) calls l c =
    rw (calls_of-shown (config_lines x) (call free_config ∷ [])) refl
print_config-holds none none calls l c = refl

module _ (o : UsbOptions) (active first : ℕ → Option ConfigDescriptor) where
  print_device-holds :
      (ref : ℕ) (ids : Option (ℕ × ℕ)) (calls : List UsbCall) (l c : ℕ)
      → steps_hold (print_device o active first ref ids) calls l c ≡ holds calls l c
  unfolding print_device calls_of
  print_device-holds ref none calls l c = refl
  print_device-holds ref (some (v, p)) calls l c = elim (Bool-cases (matches_ids o (some (v, p)))) [
    | inl e ↦ rw (e, print_device) (print_config-holds (active ref) (first ref) calls l c)
    | inr e ↦ rw (e, print_device) refl
  ]

  print_devices-holds :
      (ds : List ListedDevice) (calls : List UsbCall) (l c : ℕ)
      → steps_hold (print_devices o active first ds) calls l c ≡ holds calls l c
  unfolding print_devices
  print_devices-holds [] calls l c = unfold calls_of in refl
  print_devices-holds (d ∷ ds) calls l c =
      steps_hold-append (print_device o active first d.ref d.ids) (print_devices o active first ds)
        calls l c
      ∙ print_device-holds d.ref d.ids _ l c
      ∙ print_devices-holds ds calls l c

-- Whether it returns or throws, `print_descriptors` gives back the device list and every
-- configuration that it took, each once, and leaves the device as it was.
pub print_descriptors-holds :
    (listed : Option (List ListedDevice)) (active first : ℕ → Option ConfigDescriptor)
    (d : UsbDevice)
    → (holds (print_descriptors listed active first d).calls 0 0 ≡ some (0, 0))
      × ((print_descriptors listed active first d).device ≡ d)
unfolding print_descriptors holds calls_of
print_descriptors-holds none active first d = (refl, refl)
print_descriptors-holds (some ds) active first d = (
  rw (calls_of-append (print_devices d.options active first ds) (call free_device_list ∷ []))
      (print_devices-holds d.options active first ds (free_device_list ∷ []) 1 0),
  refl,
)
