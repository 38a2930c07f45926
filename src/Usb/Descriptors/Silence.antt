-- ===== src/Usb/Descriptors/Silence.antt =====
-- `print_descriptors` of src/usb_device.cpp transfers nothing.
use s4_mk1_usb2midi.Common.{
  refl, Option, ℕ, List, ◌≡◌, true, some, Bool-cases, ◌∷◌, [], inl, none, inr, Bool, ◌++◌,
}
use s4_mk1_usb2midi.Usb.{
  UsbOptions, ConfigDescriptor, ListedDevice, free_device_list, UsbDevice, ok, free_config,
}
use s4_mk1_usb2midi.Usb.Descriptors.{
  print_config, print_descriptors, print_device, print_devices, matches_ids, calls_of, PrintStep,
  print_with, calls_of-shown, call, calls_of-append, config_lines,
}
use s4_mk1_usb2midi.Usb.Mute.{all_mute, Mute, all_mute-append}

-- The steps of the printing transfer nothing.
steps_mute : List PrintStep → Bool
unfolding calls_of
steps_mute steps = all_mute (calls_of steps)

steps_mute-append :
    (xs ys : List PrintStep)
    → steps_mute xs ≡ true
    → steps_mute ys ≡ true
    → steps_mute (xs ++ ys) ≡ true
unfolding steps_mute
steps_mute-append xs ys h k =
    rw (calls_of-append xs ys) (all_mute-append (calls_of xs) (calls_of ys) h k)

print_config-mute : (a b : Option ConfigDescriptor) → steps_mute (print_config a b) ≡ true
unfolding print_config print_with steps_mute calls_of
print_config-mute (some c) b = rw (calls_of-shown (config_lines c) (call free_config ∷ [])) refl
print_config-mute none (some c) = rw (calls_of-shown (config_lines c) (call free_config ∷ [])) refl
print_config-mute none none = refl

module _ (o : UsbOptions) (active first : ℕ → Option ConfigDescriptor) where
  print_device-mute :
      (ref : ℕ) (ids : Option (ℕ × ℕ)) → steps_mute (print_device o active first ref ids) ≡ true
  unfolding print_device steps_mute calls_of
  print_device-mute ref none = refl
  print_device-mute ref (some (v, p)) = elim (Bool-cases (matches_ids o (some (v, p)))) [
    | inl e ↦ rw (e, print_device) (print_config-mute (active ref) (first ref))
    | inr e ↦ rw (e, print_device) refl
  ]

  print_devices-mute :
      (ds : List ListedDevice) → steps_mute (print_devices o active first ds) ≡ true
  unfolding print_devices
  print_devices-mute [] = unfold steps_mute calls_of in refl
  print_devices-mute (d ∷ ds) =
      steps_mute-append (print_device o active first d.ref d.ids) (print_devices o active first ds)
        (print_device-mute d.ref d.ids) (print_devices-mute ds)

pub print_descriptors-Mute :
    (listed : Option (List ListedDevice)) (active first : ℕ → Option ConfigDescriptor)
    → Mute (print_descriptors listed active first)
unfolding print_descriptors
print_descriptors-Mute none active first d = refl
print_descriptors-Mute (some ds) active first d =
    unfold steps_mute calls_of in
    steps_mute-append (print_devices d.options active first ds) (call free_device_list ∷ [])
      (print_devices-mute d.options active first ds) refl

pub print_descriptors-returns :
    (ds : List ListedDevice) (active first : ℕ → Option ConfigDescriptor) (d : UsbDevice)
    → (steps : List PrintStep) × ((print_descriptors (some ds) active first d).result ≡ ok steps)
unfolding print_descriptors
print_descriptors-returns ds active first d = (_, refl)
