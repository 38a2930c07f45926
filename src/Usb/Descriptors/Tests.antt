-- ===== src/Usb/Descriptors/Tests.antt =====
-- What is printed for the S4.
use s4_mk1_usb2midi.Usb.Connection.{matches_ids}
use s4_mk1_usb2midi.Common.{
  ◌≡◌, refl, text, some, none, ◌∷◌, [], ℕ, Option, two_digits, short_hex, decimal,
}
use s4_mk1_usb2midi.Usb.Connection.Tests.{one_interface, s4, closed, endpoint}
use s4_mk1_usb2midi.Usb.Descriptors.{
  describe_endpoint, print_descriptors, ConfigDescriptor, ok, call, get_device_list, shown,
  get_config, free_config, free_device_list,
}
use s4_mk1_usb2midi.Usb.Descriptors.GivesBack.{holds, print_descriptors-holds}

abbrev configs : ℕ → Option ConfigDescriptor
configs ref = some one_interface

abbrev no_configs : ℕ → Option ConfigDescriptor
no_configs ref = none

described :
    describe_endpoint (endpoint 0x84 3)
    ≡ text "endpoint=0x84 attributes=0x3 max_packet=64 interval=1"
unfolding describe_endpoint two_digits short_hex decimal
described = refl

printed :
    (print_descriptors (some (s4 ∷ [])) no_configs configs closed).result
    ≡ ok (
        call get_device_list
        ∷ shown (text "Found device vid=0x17cc pid=0xbaff")
        ∷ call get_config
        ∷ shown (text "  interface=0 alt=1 class=0xff subclass=0x0")
        ∷ shown (text "    endpoint=0x84 attributes=0x3 max_packet=64 interval=1")
        ∷ shown (text "    endpoint=0x01 attributes=0x2 max_packet=64 interval=1")
        ∷ call free_config
        ∷ call free_device_list
        ∷ [])
unfolding print_descriptors two_digits short_hex decimal matches_ids
printed = refl

print_descriptors-holds_example :
    (holds (print_descriptors (some (s4 ∷ s4 ∷ [])) no_configs configs closed).calls 0 0
      ≡ some (0, 0))
    × ((print_descriptors (some (s4 ∷ s4 ∷ [])) no_configs configs closed).device ≡ closed)
print_descriptors-holds_example =
    print_descriptors-holds (some (s4 ∷ s4 ∷ [])) no_configs configs closed
