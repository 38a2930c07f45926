-- ===== src/Usb/Transfers.antt =====
-- The transfers of src/usb_device.cpp: read_input, write_output, read_from, write_to and
-- write_to_timeout. `reply` is what libusb answers to the one transfer that each makes.
pub mod Reading
pub mod Writing
pub mod Effects
mod Tests
use s4_mk1_usb2midi.Common.{
  true, false, ℕ, ◌+◌, ◌-◌, Bool, Option, none, some, List, [], ◌∷◌, ◌++◌, ◌==◌, if◌then◌else◌, ℤ,
  pos_part, leb_ℤ, pos, length, take, drop, replicate,
}
use s4_mk1_usb2midi.Usb.{
  bulk, interrupt, transfers, Rc, UsbTransferType, M, UsbError, ask, throw, ok, pure, failure,
  not_open, ◌>>◌, bad_report_size, no_output_endpoint, other_error, input_failed, success, timeout,
  timeout, no_device, overflow, io, io, ◌>>=◌, ◌>>=◌, ◌>>=◌, ◌>>=◌, ◌>>=◌, ◌>>=◌, get, check_libusb,
  output_failed, write_to_failed, output_short, write_to_short,
}

-- The code, the bytes that were received, and the number of bytes that were sent.
pub record TransferReply : Type 0 where
  pub rc : Rc
  pub received : List ℕ
  pub sent : ℕ

pub transfer : UsbTransferType → ℕ → List ℕ → M (Unit {0})
transfer bulk endpoint buffer d = ask (transfers bulk endpoint buffer d.options.timeout_ms) d
transfer interrupt endpoint buffer d =
    ask (transfers interrupt endpoint buffer d.options.timeout_ms) d

-- `libusb_bulk_transfer` with a timeout of its own.
bulk_transfer : ℕ → List ℕ → ℕ → M (Unit {0})
bulk_transfer endpoint buffer timeout_ms = ask (transfers bulk endpoint buffer timeout_ms)

pub require_open : Option ℕ → M (Unit {0})
require_open none = throw not_open
require_open (some h) = pure tt

-- The buffer after bytes were written to its front.
pub fill : List ℕ → List ℕ → List ℕ
fill received buffer = take (length buffer) (received ++ drop (length received) buffer)

-- `vector::resize`.
pub resize : ℕ → List ℕ → List ℕ
resize n buffer = take n buffer ++ replicate (n - length buffer) 0

mark_disconnected : M (Unit {0})
mark_disconnected d = record {
  device = record d { disconnected = true };
  calls = [];
  result = ok tt;
}

input_result : Rc → List ℕ → List ℕ → M (List ℕ)
unfolding mark_disconnected fill resize
input_result success received buffer = pure (resize (length received) (fill received buffer))
input_result (failure timeout) received buffer = pure []
input_result (failure no_device) received buffer = mark_disconnected >> pure []
input_result (failure io) received buffer = mark_disconnected >> pure []
input_result (failure overflow) received buffer = throw (input_failed overflow)
input_result (failure (other_error n)) received buffer = throw (input_failed (other_error n))

read_sized : Bool → ℕ → TransferReply → M (List ℕ)
unfolding transfer input_result
read_sized true size reply = throw bad_report_size
read_sized false size reply = do
  d ← get
  transfer d.input_transfer_type d.options.input_endpoint (replicate size 0)
  input_result reply.rc reply.received (replicate size 0)

pub read_input : TransferReply → M (List ℕ)
unfolding require_open read_sized
read_input reply = do
  d ← get
  require_open d.handle
  read_sized (leb_ℤ d.options.report_size (pos 0)) (pos_part d.options.report_size) reply

check_sent : Bool → UsbError → M (Unit {0})
check_sent true e = pure tt
check_sent false e = throw e

require_endpoint : Bool → M (Unit {0})
require_endpoint true = throw no_output_endpoint
require_endpoint false = pure tt

pub write_output : List ℕ → TransferReply → M (Unit {0})
unfolding require_open require_endpoint transfer check_sent
write_output payload reply = do
  d ← get
  require_open d.handle
  require_endpoint (d.options.output_endpoint == 0)
  transfer d.output_transfer_type d.options.output_endpoint payload
  check_libusb reply.rc output_failed
  check_sent (reply.sent == length payload) output_short

pub write_to_timeout : ℕ → List ℕ → ℕ → TransferReply → M (Unit {0})
unfolding require_open bulk_transfer check_sent
write_to_timeout endpoint payload timeout_ms reply = do
  d ← get
  require_open d.handle
  bulk_transfer endpoint payload timeout_ms
  check_libusb reply.rc write_to_failed
  check_sent (reply.sent == length payload) write_to_short

pub write_to : ℕ → List ℕ → TransferReply → M (Unit {0})
unfolding require_open bulk_transfer check_sent
write_to endpoint payload reply = do
  d ← get
  require_open d.handle
  bulk_transfer endpoint payload d.options.timeout_ms
  check_libusb reply.rc write_to_failed
  check_sent (reply.sent == length payload) write_to_short

-- `read_from` ignores errors, and keeps what came before a timeout or an overflow.
from_result : Rc → List ℕ → List ℕ → List ℕ
unfolding fill resize
from_result success received buffer = resize (length received) (fill received buffer)
from_result (failure timeout) received buffer = resize (length received) (fill received buffer)
from_result (failure overflow) received buffer = resize (length received) (fill received buffer)
from_result (failure io) received buffer = []
from_result (failure no_device) received buffer = []
from_result (failure (other_error n)) received buffer = []

pub read_from : ℕ → ℕ → ℕ → TransferReply → M (List ℕ)
unfolding require_open bulk_transfer from_result
read_from endpoint size timeout_ms reply = do
  d ← get
  require_open d.handle
  bulk_transfer endpoint (replicate size 0) timeout_ms
  pure (from_result reply.rc reply.received (replicate size 0))
