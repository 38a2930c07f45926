-- ===== src/Bridge/Tests.antt =====
-- The theorems on the bridge at concrete inputs.
use s4_mk1_usb2midi.Common.{some, [], ◌∷◌, ◌≡◌, arith, nil, cons}
use s4_mk1_usb2midi.Bridge.RawSysex.{
  read_raw_sysex, raw_sysex_message, read_raw_sysex-raw_sysex_message,
}

read_raw_sysex-raw_sysex_message_example :
    read_raw_sysex (raw_sysex_message (0xa5 ∷ 0x07 ∷ [])) ≡ some (0xa5 ∷ 0x07 ∷ [])
read_raw_sysex-raw_sysex_message_example =
    read_raw_sysex-raw_sysex_message (0xa5 ∷ 0x07 ∷ [])
      (cons (omega arith) (cons (omega arith) nil))
