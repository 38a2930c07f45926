-- ===== src/Bridge/Deltas/Tests.antt =====
-- Runs of print_input_deltas.
use s4_mk1_usb2midi.Bridge.Deltas.{print_input_deltas, input_changes}
use s4_mk1_usb2midi.Common.{
  cons, nil, ◌∷◌, [], false, true, ◌≡◌, text, if◌then◌else◌, refl, arith, ltb, length,
}
use s4_mk1_usb2midi.Bridge.Deltas.Readback.{read_changes, read_changes-input_changes}
use s4_mk1_usb2midi.Bridge.Deltas.Buttons.{one_bit, input_changes-buttons}

raw_line :
    print_input_deltas (1 ∷ 0x80 ∷ []) (1 ∷ 0xa4 ∷ []) false
    ≡ text "[raw] byte=1 prev=0x80 cur=0xa4 v7=64->82 bits=b2=1,b5=1" ∷ []
unfolding print_input_deltas s4_mk1_usb2midi.Common.decimal s4_mk1_usb2midi.Common.two_digits
raw_line = refl

button_line :
    print_input_deltas (1 ∷ 0x80 ∷ []) (3 ∷ 0xa4 ∷ []) true
    ≡ text "[btn] byte=0 prev=0x01 cur=0x03 v7=0->1 bits=b1=1" ∷ []
unfolding print_input_deltas s4_mk1_usb2midi.Common.decimal s4_mk1_usb2midi.Common.two_digits
button_line = refl

too_many : print_input_deltas (0 ∷ 0 ∷ 0 ∷ []) (1 ∷ 1 ∷ 1 ∷ []) true ≡ []
unfolding print_input_deltas s4_mk1_usb2midi.Common.decimal s4_mk1_usb2midi.Common.two_digits
too_many = refl

read_changes-input_changes_example :
    read_changes (input_changes (1 ∷ 0x80 ∷ []) (1 ∷ 0xa4 ∷ []) false) 0 (1 ∷ 0x80 ∷ [])
    ≡ 1 ∷ 0xa4 ∷ []
read_changes-input_changes_example =
    read_changes-input_changes (1 ∷ 0x80 ∷ []) (1 ∷ 0xa4 ∷ []) refl
      (cons (omega arith) (cons (omega arith) nil)) (cons (omega arith) (cons (omega arith) nil))

input_changes-buttons_example : input_changes (1 ∷ 0x80 ∷ []) (3 ∷ 0xa4 ∷ []) true ≡ (
    let changes = input_changes (1 ∷ 0x80 ∷ []) (3 ∷ 0xa4 ∷ []) false in
    if ltb 2 (length changes) then [] else one_bit changes)
input_changes-buttons_example =
    input_changes-buttons (1 ∷ 0x80 ∷ []) (3 ∷ 0xa4 ∷ [])
      (cons (omega arith) (cons (omega arith) nil)) (cons (omega arith) (cons (omega arith) nil))
