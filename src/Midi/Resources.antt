-- ===== src/Midi/Resources.antt =====
-- What the constructor and the destructor of `CoreMidiBridge` leave behind.
use s4_mk1_usb2midi.Common.{
  ℕ, Bool, true, false, Option, none, some, List, [], ◌∷◌, ◌++◌, ◌==◌, if◌then◌else◌, ◌≡◌, ◌≢◌,
  refl, arith,
}
use s4_mk1_usb2midi.Midi.{
  CfName, client_name, source_name, destination_name, CoreMidiCall, cf_create, cf_release,
  client_create, source_create, destination_create, endpoint_dispose, client_dispose,
  CoreMidiBridge, built, throws, no_source, no_destination, Replies, new_bridge, delete_bridge,
}

pub remove : ℕ → List ℕ → List ℕ
remove r [] = []
remove r (q ∷ qs) = if q == r then qs else q ∷ remove r qs

-- The CoreMIDI objects that exist after some calls, newest first.
unfoldable pub live : List ℕ → List CoreMidiCall → List ℕ
live objects [] = objects
live objects (cf_create n ∷ calls) = live objects calls
live objects (cf_release n ∷ calls) = live objects calls
live objects (client_create c ∷ calls) = live (c ∷ objects) calls
live objects (source_create c s ∷ calls) = live (s ∷ objects) calls
live objects (destination_create c d ∷ calls) = live (d ∷ objects) calls
live objects (endpoint_dispose e ∷ calls) = live (remove e objects) calls
live objects (client_dispose c ∷ calls) = live (remove c objects) calls

abbrev same_name : CfName → CfName → Bool
same_name client_name client_name = true
same_name source_name source_name = true
same_name destination_name destination_name = true
same_name a b = false

release_name : CfName → List CfName → List CfName
release_name n [] = []
release_name n (m ∷ ms) = if same_name m n then ms else m ∷ release_name n ms

-- The name strings that are held after some calls.
pub held_names : List CfName → List CoreMidiCall → List CfName
unfolding release_name
held_names names [] = names
held_names names (cf_create n ∷ calls) = held_names (n ∷ names) calls
held_names names (cf_release n ∷ calls) = held_names (release_name n names) calls
held_names names (client_create c ∷ calls) = held_names names calls
held_names names (source_create c s ∷ calls) = held_names names calls
held_names names (destination_create c d ∷ calls) = held_names names calls
held_names names (endpoint_dispose e ∷ calls) = held_names names calls
held_names names (client_dispose c ∷ calls) = held_names names calls

-- Whatever CoreMIDI answers, the constructor releases every name string that it created, also where
-- it throws.
pub held_names-new_bridge : (r : Replies) → held_names [] (new_bridge r).1 ≡ []
unfolding held_names new_bridge
held_names-new_bridge r = ground arith

-- A bridge that was built and then destroyed leaves no CoreMIDI object, where no reference that
-- CoreMIDI gives is 0.
pub live-new_bridge-delete_bridge :
    (c s d : ℕ)
    → c ≢ 0
    → s ≢ 0
    → d ≢ 0
    → let b : CoreMidiBridge = record { client = c; source = s; destination = d } in
      let r : Replies = record { client = some c; source = some s; destination = some d } in
      (new_bridge r).0 ≡ built b × (live [] ((new_bridge r).1 ++ delete_bridge b) ≡ [])
unfolding new_bridge delete_bridge live remove
live-new_bridge-delete_bridge c s d hc hs hd = (refl, ground arith)

-- A constructor that throws runs no destructor: where the source cannot be created the client stays
-- behind, and where the destination cannot, the client and the source do.
pub new_bridge_leaks :
    (c s : ℕ) (destination : Option ℕ)
    → ((new_bridge (record { client = some c; source = none; destination = destination })).0
        ≡ throws no_source)
      × (live []
            (new_bridge (record { client = some c; source = none; destination = destination })).1
          ≡ c ∷ [])
      × ((new_bridge (record { client = some c; source = some s; destination = none })).0
          ≡ throws no_destination)
      × (live [] (new_bridge (record { client = some c; source = some s; destination = none })).1
          ≡ s ∷ c ∷ [])
unfolding new_bridge live
new_bridge_leaks c s destination = ground arith
