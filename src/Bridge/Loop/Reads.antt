-- ===== src/Bridge/Loop/Reads.antt =====
-- What the reads of the main loop of run_bridge of src/main.cpp may give while it goes on.
use s4_mk1_usb2midi.Common.{◌≡◌, [], ◌∷◌, List, true, Option}
use s4_mk1_usb2midi.Usb.{UsbDevice}
use s4_mk1_usb2midi.Usb.Transfers.{TransferReply}
use s4_mk1_usb2midi.Bridge.Loop.{Attempt, ℕ, read_input, ok, Drain84, connect, connected}

-- The reads of the rounds: each one returns a packet from a connected device, or nothing by its
-- timeout, or the device is lost and the round connects again.
pub data Reads
    : UsbDevice
      → Drain84
      → List (TransferReply × List (Option Attempt))
      → List (List ℕ)
      → Type 0 where
  no_reads : {d : UsbDevice} {drain : Drain84} → Reads d drain [] []
  reads :
      {d : UsbDevice} {drain : Drain84} {reply : TransferReply} {attempts : List (Option Attempt)}
      {b : ℕ} {bs : List ℕ} {rounds : List (TransferReply × List (Option Attempt))}
      {packets : List (List ℕ)}
      → (read_input reply d).device ≡ d
      → (read_input reply d).result ≡ ok (b ∷ bs)
      → Reads d drain rounds packets
      → Reads d drain ((reply, attempts) ∷ rounds) ((b ∷ bs) ∷ packets)
  waits :
      {d : UsbDevice} {drain : Drain84} {reply : TransferReply} {attempts : List (Option Attempt)}
      {rounds : List (TransferReply × List (Option Attempt))} {packets : List (List ℕ)}
      → (read_input reply d).device ≡ d
      → (read_input reply d).result ≡ ok []
      → Reads d drain rounds packets
      → Reads d drain ((reply, attempts) ∷ rounds) packets
  rejoins :
      {d : UsbDevice} {drain : Drain84} {reply : TransferReply} {attempts : List (Option Attempt)}
      {rounds : List (TransferReply × List (Option Attempt))} {packets : List (List ℕ)}
      → (read_input reply d).device.disconnected ≡ true
      → (read_input reply d).result ≡ ok []
      → (connect attempts (read_input reply d).device drain).outcome ≡ connected
      → Reads
          (connect attempts (read_input reply d).device drain).device
          (connect attempts (read_input reply d).device drain).drain
          rounds
          packets
      → Reads d drain ((reply, attempts) ∷ rounds) packets
