-- ===== src/Usb/Transfers/Effects.antt =====
-- What read_input and write_output of src/usb_device.cpp leave as it was: the handle and the options.
use s4_mk1_usb2midi.Common.{
  refl, ◌≡◌, List, ◌∙◌, Option, Bool, ℕ, leb_ℤ, true, some, replicate, pos, false, pos_part, none,
  ap, [], ◌∷◌, ◌⊎◌, inl, inr,
}
use s4_mk1_usb2midi.Usb.{
  M, UsbDevice, ◌>>=◌, Rc, UsbTransferType, failure, bulk, other_error, interrupt, success, timeout,
  no_device, io, overflow, UsbCall, transfers, ◌>>◌,
}
use s4_mk1_usb2midi.Usb.Transfers.{
  require_open, transfer, input_result, read_sized, read_input, write_output, mark_disconnected,
  TransferReply,
}
use s4_mk1_usb2midi.Usb.Preserving.{Related, bind-Related}
use s4_mk1_usb2midi.Usb.Transfers.Writing.{write_output-view}
use s4_mk1_usb2midi.Usb.Transfers.Reading.{transfer_lem}

abbrev Same : UsbDevice → UsbDevice → Type 0
Same d e = (e.options ≡ d.options) × (e.handle ≡ d.handle)

abbrev Steady : {A : Type 0} → M A → Type 0
Steady m = Related Same m

bind-Steady :
    {A B : Type 0} (m : M A) (f : A → M B) → Steady m → ((a : A) → Steady (f a)) → Steady (m >>= f)
bind-Steady m f h k = bind-Related Same (λ d e f h k. (k.0 ∙ h.0, k.1 ∙ h.1)) m f h k

require_open-Steady : (h : Option ℕ) → Steady (require_open h)
unfolding require_open
require_open-Steady none d = (refl, refl)
require_open-Steady (some h) d = (refl, refl)

transfer-Steady : (t : UsbTransferType) (e : ℕ) (b : List ℕ) → Steady (transfer t e b)
unfolding transfer
transfer-Steady bulk e b d = (refl, refl)
transfer-Steady interrupt e b d = (refl, refl)

input_result-Steady : (rc : Rc) (r b : List ℕ) → Steady (input_result rc r b)
unfolding input_result mark_disconnected
input_result-Steady success r b d = (refl, refl)
input_result-Steady (failure timeout) r b d = (refl, refl)
input_result-Steady (failure no_device) r b d = (refl, refl)
input_result-Steady (failure io) r b d = (refl, refl)
input_result-Steady (failure overflow) r b d = (refl, refl)
input_result-Steady (failure (other_error n)) r b d = (refl, refl)

read_sized-Steady : (b : Bool) (n : ℕ) (reply : TransferReply) → Steady (read_sized b n reply)
unfolding read_sized
read_sized-Steady true n reply d = (refl, refl)
read_sized-Steady false n reply d =
    bind-Steady (transfer d.input_transfer_type d.options.input_endpoint (replicate n 0)) _
      (transfer-Steady d.input_transfer_type d.options.input_endpoint (replicate n 0))
      (λ _. input_result-Steady reply.rc reply.received (replicate n 0)) d

pub read_input-Steady :
    (reply : TransferReply) (d : UsbDevice)
    → ((read_input reply d).device.options ≡ d.options)
      × ((read_input reply d).device.handle ≡ d.handle)
unfolding read_input
read_input-Steady reply d =
    bind-Steady (require_open d.handle) _ (require_open-Steady d.handle)
      (λ _.
        read_sized-Steady (leb_ℤ d.options.report_size (pos 0)) (pos_part d.options.report_size)
          reply)
      d

pub write_output-keeps :
    (payload : List ℕ) (reply : TransferReply) (d : UsbDevice)
    → (write_output payload reply d).device ≡ d
write_output-keeps payload reply d = ap (λ r. r.device) (write_output-view payload reply d)

-- A transfer is one call, and `read_input` makes one or none.
input_result-calls : (rc : Rc) (r b : List ℕ) (d : UsbDevice) → (input_result rc r b d).calls ≡ []
unfolding input_result mark_disconnected
input_result-calls success r b d = refl
input_result-calls (failure timeout) r b d = refl
input_result-calls (failure no_device) r b d = refl
input_result-calls (failure io) r b d = refl
input_result-calls (failure overflow) r b d = refl
input_result-calls (failure (other_error n)) r b d = refl

abbrev input_transfer : UsbDevice → ℕ → UsbCall
input_transfer d n =
    transfers d.input_transfer_type d.options.input_endpoint (replicate n 0) d.options.timeout_ms

sized-calls :
    (n : ℕ) (reply : TransferReply) (d : UsbDevice)
    → (read_sized false n reply d).calls ≡ input_transfer d n ∷ []
unfolding read_sized
sized-calls n reply d =
    rw (transfer_lem d.input_transfer_type d.options.input_endpoint (replicate n 0) d)
      (ap (◌∷◌ (input_transfer d n)) (input_result-calls reply.rc reply.received (replicate n 0) d))

pub read_input-calls :
    (reply : TransferReply) (d : UsbDevice)
    → ((read_input reply d).calls ≡ [])
      ⊎ ((read_input reply d).calls ≡ input_transfer d (pos_part d.options.report_size) ∷ [])
unfolding read_input
read_input-calls reply d = cases d.handle (leb_ℤ d.options.report_size (pos 0))
  where
    n : ℕ
    n = pos_part d.options.report_size

    cases :
        (h : Option ℕ) (b : Bool)
        → ((require_open h >> read_sized b n reply) d).calls ≡ []
          ⊎ ((require_open h >> read_sized b n reply) d).calls ≡ input_transfer d n ∷ []
    cases none b = inl refl
    cases (some h) true = inl refl
    cases (some h) false = inr (sized-calls n reply d)
