-- ===== src/Bridge/Events/Invariant.antt =====
-- What holds in every state that run_bridge of src/main.cpp reaches.
use s4_mk1_usb2midi.Common.{Bool, List, ℕ, ◌≡◌, false, ◌==◌, ◌∷◌, [], ap, ◌∙◌}
use s4_mk1_usb2midi.Usb.{UsbOptions, transfers}
use s4_mk1_usb2midi.Protocol.{MapTables}
use s4_mk1_usb2midi.Cli.Arguments.{AppOptions}
use s4_mk1_usb2midi.Midi.{PacketApi, CoreMidiBridge}
use s4_mk1_usb2midi.Bridge.Loop.{Bridge}
use s4_mk1_usb2midi.Bridge.Loop.Ready.{IsReady, bridge_round-IsReady}
use s4_mk1_usb2midi.Bridge.Loop.Warned.{with_warned}
use s4_mk1_usb2midi.Bridge.Events.{
  Reaches, by_round, TransferReply, by_feedback, on_feedback, at_start,
}
use s4_mk1_usb2midi.Bridge.Feedback.Effects.{on_feedback-warned}
use s4_mk1_usb2midi.Protocol.Feedback.{injection}
use s4_mk1_usb2midi.Bridge.Feedback.{on_feedback-injection}

with_warned-IsReady :
    (u : UsbOptions) (w : Bool) (s : Bridge) → IsReady u s → IsReady u (with_warned w s)
with_warned-IsReady u w s h = record {
  configured = record { channel = h.configured.channel; deadzone = h.configured.deadzone };
  options = h.options;
  opened = h.opened;
}

-- Rounds and callbacks, in any order and whatever the libraries answer, keep the settings in range, the
-- options as they are and the device open.
pub Reaches-IsReady :
    (t : MapTables) (o : AppOptions) (api : PacketApi) (midi : CoreMidiBridge) (u : UsbOptions)
    (s s' : Bridge)
    → IsReady u s
    → Reaches t o api midi s s'
    → IsReady u s'
Reaches-IsReady t o api midi u s s' h at_start = h
Reaches-IsReady t o api midi u s _ h (by_round {s' = s1} reply attempts k e) =
    bridge_round-IsReady t o api midi u reply attempts s1 (Reaches-IsReady t o api midi u s s1 h k)
      e
Reaches-IsReady t o api midi u s _ h (by_feedback {s' = s1} m reply k) =
    let (w, e) = on_feedback-warned m reply s1 in
    rw (e) (with_warned-IsReady u w s1 (Reaches-IsReady t o api midi u s s1 h k))

-- A feedback message in a state that is reached from a ready one, with the device connected.
pub Reaches-injection :
    (t : MapTables) (o : AppOptions) (api : PacketApi) (midi : CoreMidiBridge) (u : UsbOptions)
    (s s' : Bridge) (payload : List ℕ) (reply : TransferReply)
    → IsReady u s
    → Reaches t o api midi s s'
    → s'.device.disconnected ≡ false
    → (u.output_endpoint == 0) ≡ false
    → (on_feedback (injection payload) reply s').1
      ≡ transfers s'.device.output_transfer_type u.output_endpoint payload u.timeout_ms ∷ []
Reaches-injection t o api midi u s s' payload reply h k live out =
    let ready = Reaches-IsReady t o api midi u s s' h k in
    on_feedback-injection payload reply s' ready.opened.0 ready.opened.1 live
      (ap (λ (x : UsbOptions). x.output_endpoint == 0) ready.options ∙ out)
    ∙ ap
        (λ (x : UsbOptions).
          transfers s'.device.output_transfer_type x.output_endpoint payload x.timeout_ms ∷ [])
        ready.options
