-- ===== src/Init/Flight.antt =====
-- Which transfers of src/s4_init.cpp are in flight, and which are freed.
pub mod Leds
pub mod Commands
use s4_mk1_usb2midi.Common.{
  ℕ, List, Bool, ◌∷◌, ◌≡◌, false, Option, map, sym, true, ◌++◌, if◌then◌else◌, ◌==◌, some, [], ◌||◌,
  Bool-cases, &&_left, refl, inl, &&_right, inr, ap, none, arith, ◌&&◌, ◌∙◌, ==_iff,
}
use s4_mk1_usb2midi.Init.{
  Pending, xfer_cb, run_callbacks, all_done, Completion, AsyncCall, Waited, alloc, notify,
  all_completed, submit, failure, handle_events, cancel, free, unfinished, wait, Round, wait_round,
}
use s4_mk1_usb2midi.Usb.{success}

pub mem : ℕ → List ℕ → Bool
mem i [] = false
mem i (j ∷ js) = i == j || mem i js

pub without : ℕ → List ℕ → List ℕ
without i [] = []
without i (j ∷ js) = let rest = without i js in if i == j then rest else j ∷ rest

pub remove_completed : List Completion → List ℕ → List ℕ
unfolding without
remove_completed [] fl = fl
remove_completed (c ∷ cs) fl = remove_completed cs (without c.id fl)

-- The transfers in flight after the calls, or `none` when one of them is freed while in flight.
pub flying : List AsyncCall → List ℕ → Option (List ℕ)
unfolding mem remove_completed
flying [] fl = some fl
flying (alloc t ∷ calls) fl = flying calls fl
flying (submit t e b success ∷ calls) fl = flying calls (t ∷ fl)
flying (submit t e b (failure f) ∷ calls) fl = flying calls fl
flying (handle_events cs ∷ calls) fl = flying calls (remove_completed cs fl)
flying (cancel t ∷ calls) fl = flying calls fl
flying (free t ∷ calls) fl = let rest = flying calls fl in if mem t fl then none else rest

-- The transfers that are allocated and not freed.
pub held : List AsyncCall → List ℕ → List ℕ
unfolding without
held [] h = h
held (alloc none ∷ calls) h = held calls h
held (alloc (some t) ∷ calls) h = held calls (t ∷ h)
held (submit t e b rc ∷ calls) h = held calls h
held (handle_events cs ∷ calls) h = held calls h
held (cancel t ∷ calls) h = held calls h
held (free t ∷ calls) h = held calls (without t h)

-- The transfers whose callback has not run.
open_ids : Pending → List ℕ
open_ids [] = []
open_ids ((i, s) ∷ p) = if s.done then open_ids p else i ∷ open_ids p

open_ids-notify :
    (c : Completion) (p : Pending) → open_ids (map (notify c) p) ≡ without c.id (open_ids p)
unfolding open_ids without xfer_cb
open_ids-notify c [] = refl
open_ids-notify c ((i, s) ∷ p) = elim (Bool-cases s.done) [
  | inl d ↦ elim (Bool-cases (c.id == i)) [
    | inl e ↦ rw (d, e) (open_ids-notify c p)
    | inr e ↦ rw (d, e) (open_ids-notify c p)
  ]
  | inr d ↦ elim (Bool-cases (c.id == i)) [
    | inl e ↦ rw (d, e) (open_ids-notify c p)
    | inr e ↦ rw (d, e) (ap (◌∷◌ i) (open_ids-notify c p))
  ]
]

open_ids-run_callbacks :
    (cs : List Completion) (p : Pending)
    → remove_completed cs (open_ids p) ≡ open_ids (run_callbacks cs p)
unfolding remove_completed run_callbacks
open_ids-run_callbacks [] p = refl
open_ids-run_callbacks (c ∷ cs) p =
    rw (sym (open_ids-notify c p)) (open_ids-run_callbacks cs (map (notify c) p))

open_ids-all_done : (p : Pending) → all_done p ≡ true → open_ids p ≡ []
unfolding open_ids all_done
open_ids-all_done [] e = refl
open_ids-all_done ((i, s) ∷ p) e =
    rw (&&_left s.done (all_done p) e) (open_ids-all_done p (&&_right s.done (all_done p) e))

-- A wait ends with what its events have left, and when it ends with all completed nothing is left.
record WaitIsSound (p : Pending) (w : Waited) : Type 0 where
  flies :
      (calls : List AsyncCall)
      → flying (w.calls ++ calls) (open_ids p) ≡ flying calls (open_ids w.pending)
  holds : (calls : List AsyncCall) (h : List ℕ) → held (w.calls ++ calls) h ≡ held calls h
  completes : w.ending ≡ all_completed → open_ids w.pending ≡ []

ends_all_completed :
    (b : Bool) → (if b then all_completed else unfinished) ≡ all_completed → b ≡ true
ends_all_completed true e = refl
ends_all_completed false e = ground arith

wait_round-IsSound :
    (b late : Bool) (r : Round) (rs : List Round) (p : Pending) (rest : Waited)
    → (b ≡ true → open_ids p ≡ [])
    → WaitIsSound (run_callbacks r.completions p) rest
    → WaitIsSound p (wait_round b late r rs p rest)
unfolding wait_round flying held
wait_round-IsSound true late r rs p rest h go = record {
  flies = λ calls. refl;
  holds = λ calls h'. refl;
  completes = λ e. h refl;
}
wait_round-IsSound false true r rs p rest h go = record {
  flies = λ calls. ap (flying calls) (open_ids-run_callbacks r.completions p);
  holds = λ calls h'. refl;
  completes = λ e. ground arith;
}
wait_round-IsSound false false r rs p rest h go = record {
  flies = λ calls.
      ap (flying (rest.calls ++ calls)) (open_ids-run_callbacks r.completions p) ∙ go.flies calls;
  holds = go.holds;
  completes = go.completes;
}

wait-IsSound : (timed : Bool) (rs : List Round) (p : Pending) → WaitIsSound p (wait timed rs p)
unfolding wait
wait-IsSound timed [] p = record {
  flies = λ calls. refl;
  holds = λ calls h. refl;
  completes = λ e. open_ids-all_done p (ends_all_completed (all_done p) e);
}
wait-IsSound timed (r ∷ rs) p =
    wait_round-IsSound (all_done p) (timed && r.late) r rs p _ (open_ids-all_done p)
      (wait-IsSound timed rs (run_callbacks r.completions p))

eq_refl : (t : ℕ) → (t == t) ≡ true
eq_refl t = (==_iff t t).1 refl

-- What is left of one transfer: nothing in flight, nothing held, nothing freed too early.
abbrev IsCleanFrom : List ℕ → List ℕ → List AsyncCall → Type 0
IsCleanFrom fl h calls = (flying calls fl ≡ some []) × (held calls h ≡ [])

after_wait :
    {p : Pending} {w : Waited} (calls : List AsyncCall) (h : List ℕ)
    → WaitIsSound p w
    → IsCleanFrom (open_ids w.pending) h calls
    → IsCleanFrom (open_ids p) h (w.calls ++ calls)
after_wait calls h s (f, k) = (s.flies calls ∙ f, s.holds calls h ∙ k)
