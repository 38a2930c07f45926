-- ===== src/Bridge/Feedback/Tests.antt =====
-- A feedback message at work.
use s4_mk1_usb2midi.Common.{◌≡◌, refl, ◌∷◌, [], none, false}
use s4_mk1_usb2midi.Usb.Connection.Tests.{opened}
use s4_mk1_usb2midi.Protocol.{byte, new_protocol}
use s4_mk1_usb2midi.Bridge.Loop.{Bridge}
use s4_mk1_usb2midi.Bridge.Feedback.{on_feedback, injection, success}

abbrev bridge_state : Bridge
bridge_state = record {
  protocol = new_protocol 0 0 byte;
  device = opened;
  drain = record { t = none; active = false };
  previous_debug_packet = [];
  previous_raw_sysex_packet = [];
}

-- A device that is not open is left alone.
not_open_device :
    (on_feedback
      (injection (5 ∷ []))
      (record { rc = success; received = []; sent = 1 })
      (record bridge_state { device = record opened { handle = none } })).1
    ≡ []
unfolding on_feedback
not_open_device = refl
