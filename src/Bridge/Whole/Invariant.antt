-- ===== src/Bridge/Whole/Invariant.antt =====
-- What holds in every state of the main loop of run_bridge of src/main.cpp, from its start.
use s4_mk1_usb2midi.Protocol.Feedback.{injection}
use s4_mk1_usb2midi.Common.{List, ℕ, ◌≡◌, false, ◌==◌, ◌∷◌, []}
use s4_mk1_usb2midi.Cli.Arguments.{AppOptions}
use s4_mk1_usb2midi.Protocol.{MapTables}
use s4_mk1_usb2midi.Bridge.Whole.{
  BridgeReplies, UsbDevice, CoreMidiBridge, connect, Bridge, idle_drain, new_device, new_protocol,
  ok, connected, loop_start,
}
use s4_mk1_usb2midi.Midi.{PacketApi}
use s4_mk1_usb2midi.Usb.Transfers.{TransferReply}
use s4_mk1_usb2midi.Bridge.Loop.Ready.{IsReady}
use s4_mk1_usb2midi.Bridge.Events.{Reaches}
use s4_mk1_usb2midi.Bridge.Loop.Connecting.{connect-IsUsable}
use s4_mk1_usb2midi.Bridge.Events.Invariant.{Reaches-IsReady, Reaches-injection}
use s4_mk1_usb2midi.Usb.Connection.Options.{new_device-options}
use s4_mk1_usb2midi.Protocol.Baseline.{new_protocol-IsConfigured}
use s4_mk1_usb2midi.Bridge.Feedback.{on_feedback}
use s4_mk1_usb2midi.Usb.{transfers}

loop_start-IsReady :
    (o : AppOptions) (r : BridgeReplies) (d : UsbDevice)
    → let c = connect r.attempts d idle_drain in
      new_device o.usb r.usb_init ≡ ok d
      → c.outcome ≡ connected
      → IsReady o.usb
          (loop_start c (new_protocol o.midi_base_channel o.input_deadzone o.input_decode_mode))
loop_start-IsReady o r d made joined =
    let usable =
      connect-IsUsable r.attempts d idle_drain o.usb (new_device-options o.usb r.usb_init d made)
        joined in
    record {
      configured =
          new_protocol-IsConfigured o.midi_base_channel o.input_deadzone o.input_decode_mode;
      options = usable.options;
      opened = usable.opened;
    }

-- Once `connect` has connected, in every state that rounds and callbacks then reach, in any order and
-- whatever the libraries answer, the base channel is below 16 and the deadzone at most 127, the
-- device has the options of the command line, and it is open.
pub Reaches-loop_start-IsReady :
    (t : MapTables) (o : AppOptions) (api : PacketApi) (midi : CoreMidiBridge) (r : BridgeReplies)
    (d : UsbDevice) (s : Bridge)
    → let c = connect r.attempts d idle_drain in
      let p = new_protocol o.midi_base_channel o.input_deadzone o.input_decode_mode in
      new_device o.usb r.usb_init ≡ ok d
      → c.outcome ≡ connected
      → Reaches t o api midi (loop_start c p) s
      → IsReady o.usb s
Reaches-loop_start-IsReady t o api midi r d s made joined reached =
    Reaches-IsReady t o api midi o.usb
      (loop_start (connect r.attempts d idle_drain)
        (new_protocol o.midi_base_channel o.input_deadzone o.input_decode_mode))
      s (loop_start-IsReady o r d made joined) reached

-- Once `connect` has connected and where the options name an output endpoint, in every state that
-- rounds and callbacks then reach in which the device is not marked as disconnected, the feedback
-- message `F0 7D 53 34 <payload> F7` makes exactly one USB transfer, of the payload to that
-- endpoint.
pub Reaches-loop_start-injection :
    (t : MapTables) (o : AppOptions) (api : PacketApi) (midi : CoreMidiBridge) (r : BridgeReplies)
    (d : UsbDevice) (s : Bridge) (payload : List ℕ) (reply : TransferReply)
    → let c = connect r.attempts d idle_drain in
      let p = new_protocol o.midi_base_channel o.input_deadzone o.input_decode_mode in
      new_device o.usb r.usb_init ≡ ok d
      → c.outcome ≡ connected
      → Reaches t o api midi (loop_start c p) s
      → s.device.disconnected ≡ false
      → (o.usb.output_endpoint == 0) ≡ false
      → (on_feedback (injection payload) reply s).1
        ≡ transfers s.device.output_transfer_type o.usb.output_endpoint payload o.usb.timeout_ms
          ∷ []
Reaches-loop_start-injection t o api midi r d s payload reply made joined reached live out =
    Reaches-injection t o api midi o.usb
      (loop_start (connect r.attempts d idle_drain)
        (new_protocol o.midi_base_channel o.input_deadzone o.input_decode_mode))
      s payload reply (loop_start-IsReady o r d made joined) reached live out
