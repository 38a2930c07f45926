-- ===== src/Usb/Transfers/Writing.antt =====
-- `write_output` on every branch.
use s4_mk1_usb2midi.Common.{
  true, false, ℕ, Option, none, some, List, [], ◌∷◌, ◌≡◌, refl, length, ◌==◌, if◌then◌else◌, Bool,
}
use s4_mk1_usb2midi.Usb.{
  Rc, Result, M, err, UsbDevice, ◌>>=◌, not_open, get, transfers, no_output_endpoint, failure, ◌>>◌,
  output_failed, output_short, check_libusb, ok, success,
}
use s4_mk1_usb2midi.Usb.Transfers.{
  require_open, write_output, require_endpoint, TransferReply, check_sent, transfer,
}
use s4_mk1_usb2midi.Usb.Transfers.Reading.{transfer_lem}

-- The result of a write, and whether a transfer is made at all, from what is tested in turn: the
-- handle, the endpoint being 0, libusb's code, and the count being that of the payload.
abbrev pub write_view : Option ℕ → Bool → Rc → Bool → Result (Unit {0}) × Bool
write_view none no_endpoint rc complete = (err not_open, false)
write_view (some h) true rc complete = (err no_output_endpoint, false)
write_view (some h) false (failure e) complete = (err (output_failed e), true)
write_view (some h) false success false = (err output_short, true)
write_view (some h) false success true = (ok tt, true)

-- The tail of `write_output` at given values of its tests.
write_rest :
    (handle : Option ℕ) (no_endpoint : Bool) (rc : Rc) (complete : Bool) → List ℕ → M (Unit {0})
write_rest handle no_endpoint rc complete payload = do
  d ← get
  require_open handle
  require_endpoint no_endpoint
  transfer d.output_transfer_type d.options.output_endpoint payload
  check_libusb rc output_failed
  check_sent complete output_short

write_rest-view :
    (handle : Option ℕ) (no_endpoint : Bool) (rc : Rc) (complete : Bool) (payload : List ℕ)
    (d : UsbDevice)
    → let v = write_view handle no_endpoint rc complete in
      write_rest handle no_endpoint rc complete payload d ≡ record {
        device = d;
        calls =
            (if v.1
              then transfers d.output_transfer_type d.options.output_endpoint payload
                  d.options.timeout_ms
                ∷ []
              else []);
        result = v.0;
      }
unfolding write_rest require_open require_endpoint check_sent
write_rest-view none no_endpoint rc complete payload d = refl
write_rest-view (some h) true rc complete payload d = refl
write_rest-view (some h) false (failure e) complete payload d =
    rw (transfer_lem d.output_transfer_type d.options.output_endpoint payload d) refl
write_rest-view (some h) false success false payload d =
    rw (transfer_lem d.output_transfer_type d.options.output_endpoint payload d) refl
write_rest-view (some h) false success true payload d =
    rw (transfer_lem d.output_transfer_type d.options.output_endpoint payload d) refl

-- `write_output` makes at most one transfer, of the resolved type and of exactly the payload, and only
-- if the device is open and an output endpoint is set; it returns exactly when libusb succeeds and
-- counts the whole payload, throws in all other cases, and never changes the state.
pub write_output-view :
    (payload : List ℕ) (reply : TransferReply) (d : UsbDevice)
    → let v =
        write_view d.handle
          (d.options.output_endpoint == 0)
          reply.rc
          (reply.sent == length payload) in
      write_output payload reply d ≡ record {
        device = d;
        calls =
            (if v.1
              then transfers d.output_transfer_type d.options.output_endpoint payload
                  d.options.timeout_ms
                ∷ []
              else []);
        result = v.0;
      }
unfolding write_output write_rest
write_output-view payload reply d =
    write_rest-view d.handle (d.options.output_endpoint == 0) reply.rc
      (reply.sent == length payload) payload d
