-- ===== src/Usb/Transfers/Reading.antt =====
-- `read_input` and `read_from` on every branch.
use s4_mk1_usb2midi.Common.{
  true, false, ℕ, zero, suc, ◌-◌, ◌≤◌, some, List, [], ◌∷◌, ◌++◌, ◌≡◌, refl, arith, length, take,
  drop, replicate, ℤ, pos, append-nil, length-append, take-length_append, ap, Bool, if◌then◌else◌,
  length-replicate, leb_ℤ, pos_part, ◌∙◌,
}
use s4_mk1_usb2midi.Usb.Transfers.{
  fill, resize, Rc, input_result, transfer, read_sized, read_input, mark_disconnected,
  TransferReply, require_open,
}
use s4_mk1_usb2midi.Usb.{
  Result, ok, UsbTransferType, failure, UsbDevice, err, ask, input_failed, transfers, other_error,
  bulk, success, interrupt, timeout, no_device, io, overflow,
}

length-drop : (n : ℕ) (xs : List ℕ) → length (drop n xs) ≡ length xs - n
length-drop zero xs = omega arith
length-drop (suc n) [] = omega arith
length-drop (suc n) (x ∷ xs) = omega (arith, length-drop n xs)

take-length : (xs : List ℕ) → take (length xs) xs ≡ xs
take-length [] = refl
take-length (x ∷ xs) = ap (◌∷◌ x) (take-length xs)

take_whole : (n : ℕ) (xs : List ℕ) → n ≡ length xs → take n xs ≡ xs
take_whole n xs e = rw e (take-length xs)

fill_lem :
    (received buffer : List ℕ)
    → length received ≤ length buffer
    → fill received buffer ≡ received ++ drop (length received) buffer
unfolding fill
fill_lem received buffer h =
    take_whole (length buffer) (received ++ drop (length received) buffer) (
      omega (
        arith,
        length-append received (drop (length received) buffer),
        length-drop (length received) buffer,
      ))

-- What was received comes back, where it fits the buffer.
pub resize-fill :
    (received buffer : List ℕ)
    → length received ≤ length buffer
    → resize (length received) (fill received buffer) ≡ received
unfolding resize
resize-fill received buffer h =
    let short : length received - length (received ++ drop (length received) buffer) ≡ 0 =
      omega (arith, length-append received (drop (length received) buffer)) in
    rw
      (
        fill_lem received buffer h,
        short,
        take-length_append received (drop (length received) buffer),
      )
      (append-nil received)

-- What a reader of the input endpoint is told: bytes, or an error; and whether the device is lost.
abbrev pub InputView : Type 0
InputView = Result (List ℕ) × Bool

abbrev pub input_view : Rc → List ℕ → InputView
input_view success received = (ok received, false)
input_view (failure timeout) received = (ok [], false)
input_view (failure no_device) received = (ok [], true)
input_view (failure io) received = (ok [], true)
input_view (failure overflow) received = (err (input_failed overflow), false)
input_view (failure (other_error n)) received = (err (input_failed (other_error n)), false)

input_result-view :
    (rc : Rc) (received buffer : List ℕ) (d : UsbDevice)
    → length received ≤ length buffer
    → input_result rc received buffer d ≡ record {
      device = (if (input_view rc received).1 then record d { disconnected = true } else d);
      calls = [];
      result = (input_view rc received).0;
    }
unfolding input_result mark_disconnected
input_result-view success received buffer d h = rw (resize-fill received buffer h) refl
input_result-view (failure timeout) received buffer d h = refl
input_result-view (failure no_device) received buffer d h = refl
input_result-view (failure io) received buffer d h = refl
input_result-view (failure overflow) received buffer d h = refl
input_result-view (failure (other_error n)) received buffer d h = refl

pub transfer_lem :
    (kind : UsbTransferType) (endpoint : ℕ) (buffer : List ℕ) (d : UsbDevice)
    → transfer kind endpoint buffer d ≡ ask (transfers kind endpoint buffer d.options.timeout_ms) d
unfolding transfer
transfer_lem bulk endpoint buffer d = refl
transfer_lem interrupt endpoint buffer d = refl

read_sized-view :
    (n : ℕ) (reply : TransferReply) (d : UsbDevice)
    → length reply.received ≤ n
    → let v = input_view reply.rc reply.received in
      read_sized false n reply d ≡ record {
        device = (if v.1 then record d { disconnected = true } else d);
        calls =
            transfers d.input_transfer_type d.options.input_endpoint
              (replicate n 0)
              d.options.timeout_ms
            ∷ [];
        result = v.0;
      }
unfolding read_sized
read_sized-view n reply d h =
    rw
      (
        transfer_lem d.input_transfer_type d.options.input_endpoint (replicate n 0) d,
        input_result-view reply.rc reply.received (replicate n 0) d
            (omega (arith, length-replicate {A = ℕ} n 0)),
      )
      refl

read_input-open :
    (reply : TransferReply) (d : UsbDevice) (h : ℕ)
    → d.handle ≡ some h
    → read_input reply d
      ≡ read_sized (leb_ℤ d.options.report_size (pos 0)) (pos_part d.options.report_size) reply d
unfolding read_input require_open
read_input-open reply d h opened = rw (ap require_open opened) refl

sized :
    (reply : TransferReply) (d : UsbDevice) (n : ℕ) (size : ℤ)
    → size ≡ pos (suc n)
    → read_sized (leb_ℤ size (pos 0)) (pos_part size) reply d ≡ read_sized false (suc n) reply d
sized reply d n size e =
    let positive : leb_ℤ (pos (suc n)) (pos 0) ≡ false = ground arith in rw (e, positive) refl

-- `read_input` of an open device with a positive report size makes one transfer, of the resolved type
-- on the input endpoint, and gives exactly the bytes received; nothing on a timeout; nothing and the
-- device marked as disconnected where libusb says that the device is gone or the input failed; and
-- an error otherwise. It changes no other part of the state.
pub read_input-view :
    (reply : TransferReply) (d : UsbDevice) (h n : ℕ)
    → d.handle ≡ some h
    → d.options.report_size ≡ pos (suc n)
    → length reply.received ≤ suc n
    → let v = input_view reply.rc reply.received in
      read_input reply d ≡ record {
        device = (if v.1 then record d { disconnected = true } else d);
        calls =
            transfers d.input_transfer_type d.options.input_endpoint
              (replicate (suc n) 0)
              d.options.timeout_ms
            ∷ [];
        result = v.0;
      }
read_input-view reply d h n opened size fits =
    read_input-open reply d h opened
    ∙ sized reply d n d.options.report_size size
    ∙ read_sized-view (suc n) reply d fits
