-- ===== src/App/Probe.antt =====
-- run_probe of src/main.cpp.
pub mod Cycles
pub mod Delivery
pub mod Completion
pub mod ExitCode
pub mod Tests
use s4_mk1_usb2midi.Common.{
  ℕ, List, [], ◌∷◌, Text, map, Option, ℤ, ◌++◌, Bool, if◌then◌else◌, join, pos_part, ltb, suc, some,
  text, not, ◌&&◌, decimal, ◌==◌, false, none, ltb_ℤ, length, zero, true, pos, two_digits,
}
use s4_mk1_usb2midi.Usb.{
  M, UsbCall, UsbError, UsbDevice, Result, ok, ListedDevice, err, ConfigDescriptor, undefined,
}
use s4_mk1_usb2midi.Cli.Arguments.{AppOptions}
use s4_mk1_usb2midi.Usb.Connection.{open_usb, OpenReplies}
use s4_mk1_usb2midi.Usb.Transfers.{TransferReply, read_input, write_output}
use s4_mk1_usb2midi.Usb.Descriptors.{print_descriptors, PrintStep, call, shown}
use s4_mk1_usb2midi.Cli.{hex_dump}

-- What the mode does, in order: the calls of libusb, the lines that are written, the sleeps.
pub data Event : Type 0 where
  usb : UsbCall → Event
  line : Text → Event
  sleep : ℤ → Event

pub data ProbeError : Type 0 where
  usb_error : UsbError → ProbeError
  write_needs_out_ep : ProbeError

-- `undefined_read` is a read outside an array.
pub data ProbeOutcome {ℓ} (A : Type ℓ) : Type ℓ where
  done : A → ProbeOutcome A
  threw : ProbeError → ProbeOutcome A
  undefined_read : ProbeOutcome A

pub record Told (A : Type 0) : Type 0 where
  pub device : UsbDevice
  pub events : List Event
  pub outcome : ProbeOutcome A

abbrev pub Probe : Type 0 → Type 0
Probe A = UsbDevice → Told A

abbrev pub and_then :
    {A B : Type 0} → ProbeOutcome A → List Event → UsbDevice → (A → Probe B) → Told B
and_then (done a) events d f = let r = f a d in record r { events = events ++ r.events }
and_then (threw e) events d f = record { device = d; events = events; outcome = threw e }
and_then undefined_read events d f = record {
  device = d;
  events = events;
  outcome = undefined_read;
}

infixl 5 ◌>>=◌ ◌>>◌
abbrev pub ◌>>=◌ : {A B : Type 0} → Probe A → (A → Probe B) → Probe B
◌>>=◌ m f d = let r = m d in and_then r.outcome r.events r.device f

abbrev pub ◌>>◌ : {B : Type 0} → Probe (Unit {0}) → Probe B → Probe B
m >> k = m >>= λ _. k

abbrev pub pure : {A : Type 0} → A → Probe A
pure a d = record { device = d; events = []; outcome = done a }

abbrev pub tell : Event → Probe (Unit {0})
tell e d = record { device = d; events = e ∷ []; outcome = done tt }

abbrev pub say : Text → Probe (Unit {0})
say t = tell (line t)

abbrev pub refuse : {A : Type 0} → ProbeError → Probe A
refuse e d = record { device = d; events = []; outcome = threw e }

-- A method of the device.
abbrev pub outcome_of : {A : Type 0} → Result A → ProbeOutcome A
outcome_of (ok a) = done a
outcome_of (err e) = threw (usb_error e)
outcome_of undefined = undefined_read

abbrev pub on_device : {A : Type 0} → M A → Probe A
on_device m d =
    let r = m d in
    record { device = r.device; events = map usb r.calls; outcome = outcome_of r.result }

-- The printing of the descriptors: its calls and its lines in their order, and the calls alone where
-- it throws.
abbrev pub event_of : PrintStep → Event
event_of (call c) = usb c
event_of (shown t) = line t

abbrev pub listing_events : List UsbCall → Result (List PrintStep) → List Event
listing_events calls (ok steps) = map event_of steps
listing_events calls (err e) = map usb calls
listing_events calls undefined = map usb calls

abbrev pub listing_outcome : Result (List PrintStep) → ProbeOutcome (Unit {0})
listing_outcome (ok steps) = done tt
listing_outcome (err e) = threw (usb_error e)
listing_outcome undefined = undefined_read

abbrev pub listing : M (List PrintStep) → Probe (Unit {0})
listing m d =
    let r = m d in
    record {
      device = r.device;
      events = listing_events r.calls r.result;
      outcome = listing_outcome r.result;
    }

-- A packet that was received, with what is written before it.
echo : Text → List ℕ → Probe (Unit {0})
echo label [] = pure tt
echo label (b ∷ bs) = say (label ++ hex_dump (b ∷ bs))

module _ (o : AppOptions) where
  read_response : Bool → TransferReply → Probe (Unit {0})
  unfolding echo
  read_response false reply = pure tt
  read_response true reply = on_device (read_input reply) >>= echo (text "RX ")

  pause : ℕ → Probe (Unit {0})
  pause index =
      if ltb (suc index) (pos_part o.write_repeat) && ltb_ℤ (pos 0) o.write_interval_ms
      then tell (sleep o.write_interval_ms)
      else pure tt

  -- The cycles from `index` on: the number that is left, and what libusb answers in each to the
  -- write and to the read.
  pub write_cycles : ℕ → ℕ → (ℕ → TransferReply) → (ℕ → TransferReply) → Probe (Unit {0})
  unfolding read_response pause
  write_cycles zero index writes reads = pure tt
  write_cycles (suc left) index writes reads = do
    on_device (write_output o.write_payload (writes index))
    read_response o.stream (reads index)
    pause index
    write_cycles left (suc index) writes reads

-- How the mode ends: with an exit code, or not yet, when the run that is looked at ends.
pub data ProbeEnd : Type 0 where
  finished : ℕ → ProbeEnd
  streaming : ProbeEnd

-- The loop that prints packets; `none` is a test of `running` after a signal has cleared it.
pub stream_packets : List (Option TransferReply) → Probe ProbeEnd
unfolding echo
stream_packets [] = pure streaming
stream_packets (none ∷ replies) = pure (finished 0)
stream_packets (some reply ∷ replies) = do
  packet ← on_device (read_input reply)
  echo [] packet
  stream_packets replies

-- What libusb answers in the whole run.
pub record ProbeReplies : Type 0 where
  pub listed : Option (List ListedDevice)
  pub active_configs : ℕ → Option ConfigDescriptor
  pub first_configs : ℕ → Option ConfigDescriptor
  pub opening : OpenReplies
  pub writes : ℕ → TransferReply
  pub reads : ℕ → TransferReply
  pub packets : List (Option TransferReply)

writing_line : AppOptions → Text
writing_line o = join (
    text "Writing "
    ∷ decimal (length o.write_payload)
    ∷ text " bytes to out endpoint 0x"
    ∷ two_digits o.usb.output_endpoint
    ∷ text " for "
    ∷ decimal (pos_part o.write_repeat)
    ∷ text " cycle(s)."
    ∷ [])

write_probe : AppOptions → ProbeReplies → Probe ProbeEnd
unfolding writing_line write_cycles
write_probe o r = do
  on_device (open_usb r.opening)
  say (writing_line o)
  write_cycles o (pos_part o.write_repeat) 0 r.writes r.reads
  say (text "Write probe complete.")
  pure (finished 0)

stream_probe : ProbeReplies → Probe ProbeEnd
unfolding stream_packets
stream_probe r = on_device (open_usb r.opening) >> stream_packets r.packets

after_listing : AppOptions → ProbeReplies → List ℕ → Probe ProbeEnd
unfolding write_probe stream_probe
after_listing o r [] = if not o.stream then pure (finished 0) else stream_probe r
after_listing o r (b ∷ bs) =
    if o.usb.output_endpoint == 0 then refuse write_needs_out_ep else write_probe o r

-- The part of run_probe behind the constructor of the device.
pub probing_run : AppOptions → ProbeReplies → Probe ProbeEnd
unfolding after_listing
probing_run o r = do
  listing (print_descriptors r.listed r.active_configs r.first_configs)
  after_listing o r o.write_payload
