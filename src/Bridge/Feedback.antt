-- ===== src/Bridge/Feedback.antt =====
-- The feedback callback of run_bridge of src/main.cpp, from a MIDI message to a USB write.
pub mod Effects
mod Tests
use s4_mk1_usb2midi.Common.{
  ◌≡◌, ◌∙◌, ◌∷◌, [], none, some, true, false, ap, Option, Bool, ◌||◌, ℕ, List, ◌==◌, if◌then◌else◌,
  refl, length,
}
use s4_mk1_usb2midi.Usb.Transfers.{TransferReply, write_output}
use s4_mk1_usb2midi.Bridge.Loop.{Bridge}
use s4_mk1_usb2midi.Usb.{UsbDevice, UsbCall, transfers, Rc, failure, success}
use s4_mk1_usb2midi.Protocol.Feedback.{injection, encode_output-payload_iff}
use s4_mk1_usb2midi.Protocol.{encode_output}
use s4_mk1_usb2midi.Usb.Transfers.Writing.{write_view, write_output-view}

-- An exception of `write_output` is caught, so only its calls and its state remain.
feedback_write : Option (List ℕ) → TransferReply → Bridge → Bridge × List UsbCall
feedback_write none reply s = (s, [])
feedback_write (some payload) reply s =
    let r = write_output payload reply s.device in (record s { device = r.device }, r.calls)

feedback_encode : Bool → List ℕ → TransferReply → Bridge → Bridge × List UsbCall
unfolding feedback_write
feedback_encode true m reply s = (s, [])
feedback_encode false m reply s =
    let (protocol, e) = encode_output s.protocol m in
    feedback_write e.payload reply (record s { protocol = protocol })

abbrev is_null : Option ℕ → Bool
is_null none = true
is_null (some h) = false

pub on_feedback : List ℕ → TransferReply → Bridge → Bridge × List UsbCall
unfolding feedback_encode
on_feedback m reply s = feedback_encode (s.device.disconnected || is_null s.device.handle) m reply s

written :
    (payload : List ℕ) (reply : TransferReply) (d : UsbDevice) (h : ℕ)
    → d.handle ≡ some h
    → (d.options.output_endpoint == 0) ≡ false
    → (write_output payload reply d).calls
      ≡ transfers d.output_transfer_type d.options.output_endpoint payload d.options.timeout_ms ∷ []
written payload reply d h e f =
    ap (λ r. r.calls) (write_output-view payload reply d)
    ∙ ap
        (λ (x : Bool).
          if x
          then transfers d.output_transfer_type d.options.output_endpoint payload
              d.options.timeout_ms
            ∷ []
          else [])
        (transfers_once reply.rc (reply.sent == length payload) e f)
  where
    transfers_once :
        {o : Option ℕ} {b : Bool} (rc : Rc) (c : Bool)
        → o ≡ some h
        → b ≡ false
        → (write_view o b rc c).1 ≡ true
    transfers_once (failure x) c e' f' = rw (e', f') refl
    transfers_once success true e' f' = rw (e', f') refl
    transfers_once success false e' f' = rw (e', f') refl

-- While the device is open and connected and has an output endpoint, the feedback message
-- `F0 7D 53 34 <payload> F7` makes exactly one USB transfer, of the payload to that endpoint,
-- whatever libusb answers to it.
pub on_feedback-injection :
    (payload : List ℕ) (reply : TransferReply) (s : Bridge) (h : ℕ)
    → s.device.handle ≡ some h
    → s.device.disconnected ≡ false
    → (s.device.options.output_endpoint == 0) ≡ false
    → (on_feedback (injection payload) reply s).1
      ≡ transfers s.device.output_transfer_type s.device.options.output_endpoint payload
          s.device.options.timeout_ms
        ∷ []
unfolding on_feedback feedback_encode feedback_write
on_feedback-injection payload reply s h e c f =
    ap
      (λ (b : Bool). (feedback_encode (b || is_null s.device.handle) (injection payload) reply s).1)
      c
    ∙ ap (λ (o : Option ℕ). (feedback_encode (is_null o) (injection payload) reply s).1) e
    ∙ ap
        (λ (p : Option (List ℕ)).
          (feedback_write p reply
            (record s { protocol = (encode_output s.protocol (injection payload)).0 })).1)
        ((encode_output-payload_iff s.protocol (injection payload) payload).1 refl)
    ∙ written payload reply s.device h e f
