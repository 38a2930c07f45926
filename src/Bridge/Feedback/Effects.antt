-- ===== src/Bridge/Feedback/Effects.antt =====
-- What the feedback callback of run_bridge of src/main.cpp changes: the warning flag at most.
use s4_mk1_usb2midi.Common.{
  refl, Bool, List, Option, ℕ, ◌≡◌, some, ◌∙◌, ◌||◌, ap, true, false, none,
}
use s4_mk1_usb2midi.Protocol.{S4GenericProtocol}
use s4_mk1_usb2midi.Bridge.Feedback.{
  feedback_write, feedback_encode, on_feedback, Bridge, encode_output, TransferReply, is_null,
  UsbDevice,
}
use s4_mk1_usb2midi.Usb.Transfers.Effects.{write_output-keeps}
use s4_mk1_usb2midi.Protocol.Feedback.{encode_output-warned}
use s4_mk1_usb2midi.Bridge.Loop.Warned.{with_warned}

feedback_write-keeps :
    (payload : Option (List ℕ)) (reply : TransferReply) (s : Bridge)
    → (feedback_write payload reply s).0 ≡ s
unfolding feedback_write
feedback_write-keeps none reply s = refl
feedback_write-keeps (some payload) reply s =
    ap (λ (d : UsbDevice). record s { device = d }) (write_output-keeps payload reply s.device)

feedback_encode-warned :
    (off : Bool) (m : List ℕ) (reply : TransferReply) (s : Bridge)
    → (w : Bool) × ((feedback_encode off m reply s).0 ≡ with_warned w s)
unfolding feedback_encode
feedback_encode-warned true m reply s = (s.protocol.warned_about_led_protocol, refl)
feedback_encode-warned false m reply s =
    let (w, e) = encode_output-warned s.protocol m in
    (
      w,
      feedback_write-keeps (encode_output s.protocol m).1.payload reply
            (record s { protocol = (encode_output s.protocol m).0 })
          ∙ ap (λ (p : S4GenericProtocol). record s { protocol = p }) e,
    )

-- The callback changes nothing but the flag that a warning was written.
pub on_feedback-warned :
    (m : List ℕ) (reply : TransferReply) (s : Bridge)
    → (w : Bool) × ((on_feedback m reply s).0 ≡ with_warned w s)
unfolding on_feedback
on_feedback-warned m reply s =
    feedback_encode-warned (s.device.disconnected || is_null s.device.handle) m reply s
