-- ===== src/Midi.antt =====
-- src/core_midi_bridge.cpp and its header. CoreMIDI and CoreFoundation are not part of the program:
-- what they answer is an argument, and what the program calls is a list of calls.
pub mod Resources
pub mod Sanitize
pub mod Send
pub mod Receive
mod Tests
use s4_mk1_usb2midi.Common.{
  ℕ, zero, suc, ◌+◌, Bool, true, false, not, ◌&&◌, Option, none, some, List, [], ◌∷◌, ◌++◌, map,
  ltb, ◌==◌, if◌then◌else◌, bit_and, u8, length,
}

-- A name string is known by what it is for.
pub data CfName : Type 0 where
  client_name source_name destination_name : CfName

pub data CoreMidiCall : Type 0 where
  cf_create cf_release : CfName → CoreMidiCall
  client_create : ℕ → CoreMidiCall
  source_create destination_create : ℕ → ℕ → CoreMidiCall
  endpoint_dispose client_dispose : ℕ → CoreMidiCall

pub record CoreMidiBridge : Type 0 where
  pub client : ℕ
  pub source : ℕ
  pub destination : ℕ

pub data BridgeError : Type 0 where
  no_client no_source no_destination : BridgeError

-- A constructor returns the object or throws; either way it has made calls.
pub data Built : Type 0 where
  built : CoreMidiBridge → Built
  throws : BridgeError → Built

-- What the three create calls answer: a reference, or a status other than `noErr`.
pub record Replies : Type 0 where
  pub client : Option ℕ
  pub source : Option ℕ
  pub destination : Option ℕ

build_destination : ℕ → ℕ → Option ℕ → Built × List CoreMidiCall
build_destination c s none =
    (throws no_destination, cf_create destination_name ∷ cf_release destination_name ∷ [])
build_destination c s (some d) = (
  built (record { client = c; source = s; destination = d }),
  cf_create destination_name ∷ destination_create c d ∷ cf_release destination_name ∷ [],
)

build_source : ℕ → Option ℕ → Option ℕ → Built × List CoreMidiCall
unfolding build_destination
build_source c none destination =
    (throws no_source, cf_create source_name ∷ cf_release source_name ∷ [])
build_source c (some s) destination =
    let (b, calls) = build_destination c s destination in
    (b, cf_create source_name ∷ source_create c s ∷ cf_release source_name ∷ calls)

build_client : Option ℕ → Option ℕ → Option ℕ → Built × List CoreMidiCall
unfolding build_source
build_client none source destination =
    (throws no_client, cf_create client_name ∷ cf_release client_name ∷ [])
build_client (some c) source destination =
    let (b, calls) = build_source c source destination in
    (b, cf_create client_name ∷ client_create c ∷ cf_release client_name ∷ calls)

pub new_bridge : Replies → Built × List CoreMidiCall
unfolding build_client
new_bridge r = build_client r.client r.source r.destination

abbrev unless_zero : ℕ → CoreMidiCall → List CoreMidiCall
unless_zero ref call = if ref == 0 then [] else call ∷ []

-- The destructor.
pub delete_bridge : CoreMidiBridge → List CoreMidiCall
delete_bridge b =
    unless_zero b.source (endpoint_dispose b.source)
    ++ unless_zero b.destination (endpoint_dispose b.destination)
    ++ unless_zero b.client (client_dispose b.client)

-- `(status & 0x80) != 0 && status < 0xF0`.
pub is_channel_status : ℕ → Bool
is_channel_status status = not (bit_and status 0x80 == 0) && ltb status 0xf0

pub sanitize : List ℕ → List ℕ
sanitize [] = []
sanitize (status ∷ data_bytes) =
    status
    ∷ (if is_channel_status status then map (λ b. u8 (bit_and b 0x7f)) data_bytes else data_bytes)

pub data SendResult : Type 0 where
  nothing_to_send : SendResult
  published : List ℕ → SendResult
  build_failed publish_failed : SendResult

-- The packet functions of CoreMIDI: the two offsets of the packet structures, whether a list of the
-- given size takes the bytes, and whether the source publishes them.
pub record PacketApi : Type 0 where
  pub packet_offset : ℕ
  pub data_offset : ℕ
  pub list_add : ℕ → List ℕ → Bool
  pub received : ℕ → List ℕ → Bool

pub packet_list_size : PacketApi → List ℕ → ℕ
packet_list_size api bytes = api.packet_offset + api.data_offset + length bytes

publish : PacketApi → ℕ → List ℕ → SendResult
publish api source bytes =
    if api.list_add (packet_list_size api bytes) bytes
    then (if api.received source bytes then published bytes else publish_failed)
    else build_failed

pub send : PacketApi → CoreMidiBridge → List ℕ → SendResult
unfolding publish
send api b [] = nothing_to_send
send api b (status ∷ data_bytes) = publish api b.source (sanitize (status ∷ data_bytes))

-- A callback over a state: it returns, or throws with the state as it then is.
pub data Outcome {ℓ} (S : Type ℓ) : Type ℓ where
  returns thrown : S → Outcome S

module _ {ℓ} {S : Type ℓ} (callback : List ℕ → S → Outcome S) where
  -- The loop over the packets; an exception ends it and is reported.
  pub deliver : List (List ℕ) → S → S
  deliver [] s = s
  deliver (p ∷ ps) s = elim (callback p s) [ returns s' ↦ deliver ps s' | thrown s' ↦ s' ]

-- `none` is a null `read_proc_ref_con`, an empty callback or a null packet list.
pub read_proc {ℓ} : {S : Type ℓ} → Option (List ℕ → S → Outcome S) → Option (List (List ℕ)) → S → S
read_proc none packets s = s
read_proc (some callback) none s = s
read_proc (some callback) (some packets) s = deliver callback packets s
