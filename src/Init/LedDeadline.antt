-- ===== src/Init/LedDeadline.antt =====
-- led_async of src/s4_init.cpp ends once its callback has run.
use s4_mk1_usb2midi.Common.{
  if◌then◌else◌, ◌≡◌, ◌≢◌, [], ◌∷◌, true, false, List, Bool, ◌||◌, ◌&&◌, some, none, Option, ℕ,
  refl, ◌==◌, arith, Bool-cases, inl, inr,
}
use s4_mk1_usb2midi.Init.Deadline.{check_status-ends}
use mathlib.Core.Path.{subst, sym}
use s4_mk1_usb2midi.Usb.{success, failure, Rc}
use s4_mk1_usb2midi.Init.{
  Completion, Round, xfer_cb, run_callbacks, XferState, Waited, wait_round, all_done, wait,
  unfinished, Pending, all_completed, led_cancelled, passed_deadline, led_end, led_transfer,
  led_allocated, led_async, WaitEnd, new_xfer, LedReplies, still_waiting,
}

completed_in : ℕ → List Completion → Bool
completed_in t [] = false
completed_in t (c ∷ cs) = c.id == t || completed_in t cs

-- The callback of the transfer runs in one of the rounds.
unfoldable pub completed_by : ℕ → List Round → Bool
unfolding completed_in
completed_by t [] = false
completed_by t (r ∷ rs) = completed_in t r.completions || completed_by t rs

-- The state of the one transfer after the callbacks of a round.
callbacks_on : ℕ → List Completion → XferState → XferState
unfolding xfer_cb
callbacks_on t [] s = s
callbacks_on t (c ∷ cs) s =
    callbacks_on t cs (if c.id == t then xfer_cb (some (c.status, c.actual_length)) s else s)

run_callbacks-one :
    (t : ℕ) (cs : List Completion) (s : XferState)
    → run_callbacks cs ((t, s) ∷ []) ≡ (t, callbacks_on t cs s) ∷ []
unfolding run_callbacks callbacks_on
run_callbacks-one t [] s = refl
run_callbacks-one t (c ∷ cs) s = run_callbacks-one t cs _

drop_middle : (a b c : Bool) → b ≡ false → (a || (b || c)) ≡ true → (a || c) ≡ true
drop_middle a b c e h = ground arith

callbacks_on-done :
    (t : ℕ) (cs : List Completion) (s : XferState)
    → (s.done || completed_in t cs) ≡ true
    → (callbacks_on t cs s).done ≡ true
unfolding callbacks_on completed_in xfer_cb
callbacks_on-done t [] s h = ground arith
callbacks_on-done t (c ∷ cs) s h = elim (Bool-cases (c.id == t)) [
  | inl e ↦
      rw (e, callbacks_on)
        (callbacks_on-done t cs (xfer_cb (some (c.status, c.actual_length)) s) refl)
  | inr e ↦ rw (e, callbacks_on) (callbacks_on-done t cs s (drop_middle s.done _ _ e h))
]

-- A wait for one transfer whose callback runs in the rounds does not run out of them, and when it is
-- cut off at the deadline the callback has run or runs in the rounds that are left.
record OneEnds (t : ℕ) (w : Waited) : Type 0 where
  ends : w.ending ≢ unfinished
  left : (s : XferState) × (w.pending ≡ (t, s) ∷ []) × ((s.done || completed_by t w.rounds) ≡ true)

wait_round-one :
    (b late : Bool) (t : ℕ) (r : Round) (rs : List Round) (s s' : XferState) (rest : Waited)
    → (b ≡ true → s.done ≡ true)
    → run_callbacks r.completions ((t, s) ∷ []) ≡ (t, s') ∷ []
    → (s'.done || completed_by t rs) ≡ true
    → OneEnds t rest
    → OneEnds t (wait_round b late r rs ((t, s) ∷ []) rest)
unfolding wait_round
wait_round-one true late t r rs s s' rest d e h go = record {
  ends = λ k. ground arith;
  left = (s, refl, rw (d refl) refl);
}
wait_round-one false true t r rs s s' rest d e h go = record {
  ends = λ k. ground arith;
  left = (s', e, h);
}
wait_round-one false false t r rs s s' rest d e h go = record { ends = go.ends; left = go.left }

all_done-one : (t : ℕ) (s : XferState) → all_done ((t, s) ∷ []) ≡ true → s.done ≡ true
unfolding all_done
all_done-one t s h = ground arith

after_round :
    (t : ℕ) (r : Round) (rs : List Round) (s : XferState)
    → (s.done || completed_by t (r ∷ rs)) ≡ true
    → ((callbacks_on t r.completions s).done || completed_by t rs) ≡ true
unfolding completed_by
after_round t r rs s h = elim (Bool-cases (s.done || completed_in t r.completions)) [
  | inl e ↦ rw (callbacks_on-done t r.completions s e) refl
  | inr e ↦ ground arith
]

ends_if :
    (b : Bool)
    → (b || false) ≡ true
    → (if b && true then all_completed else unfinished) ≢ unfinished
ends_if true h e = ground arith
ends_if false h e = ground arith

wait-one :
    (timed : Bool) (t : ℕ) (rs : List Round) (s : XferState)
    → (s.done || completed_by t rs) ≡ true
    → OneEnds t (wait timed rs ((t, s) ∷ []))
unfolding wait completed_by all_done
wait-one timed t [] s h = record { ends = ends_if s.done h; left = (s, refl, h) }
wait-one timed t (r ∷ rs) s h =
    let s' = callbacks_on t r.completions s in
    let e = run_callbacks-one t r.completions s in
    wait_round-one _ (timed && r.late) t r rs s s' _ (all_done-one t s) e (after_round t r rs s h) (
      subst (λ (p : Pending). OneEnds t (wait timed rs p)) (sym e)
        (wait-one timed t rs s' (after_round t r rs s h)))

led_cancelled-ends :
    (t : ℕ) (ending : WaitEnd) (w : Waited)
    → ending ≢ unfinished
    → ending ≢ passed_deadline
    → (led_cancelled t ending w).ending ≢ still_waiting
unfolding led_cancelled
led_cancelled-ends t all_completed w h k = λ e. ground arith
led_cancelled-ends t passed_deadline w h k = λ e. k refl
led_cancelled-ends t unfinished w h k = λ e. h refl

-- A wait that looks at no clock does not pass its deadline.
untimed_round :
    (b : Bool) (r : Round) (rs : List Round) (p : Pending) (rest : Waited)
    → rest.ending ≢ passed_deadline
    → (wait_round b false r rs p rest).ending ≢ passed_deadline
unfolding wait_round
untimed_round true r rs p rest h e = ground arith
untimed_round false r rs p rest h e = h e

untimed_end : (b : Bool) → (if b then all_completed else unfinished) ≢ passed_deadline
untimed_end true e = ground arith
untimed_end false e = ground arith

untimed : (rs : List Round) (p : Pending) → (wait false rs p).ending ≢ passed_deadline
unfolding wait
untimed [] p = untimed_end (all_done p)
untimed (r ∷ rs) p =
    untimed_round (all_done p) r rs p _ (untimed rs (run_callbacks r.completions p))

led_end-ends :
    (t : ℕ) (ending : WaitEnd) (w : Waited)
    → ending ≢ unfinished
    → OneEnds t w
    → (led_end t ending w).ending ≢ still_waiting
unfolding led_end
led_end-ends t all_completed w h o = check_status-ends _ _
led_end-ends t passed_deadline w h o =
    let (s, e, c) = o.left in
    let again : OneEnds t (wait false w.rounds w.pending) =
      subst (λ (p : Pending). OneEnds t (wait false w.rounds p)) (sym e)
        (wait-one false t w.rounds s c) in
    led_cancelled-ends t _ (wait false w.rounds w.pending) again.ends (untimed w.rounds w.pending)
led_end-ends t unfinished w h o = λ e. h refl

led_transfer-ends :
    (t : ℕ) (bytes : List ℕ) (rc : Rc) (rounds : List Round)
    → completed_by t rounds ≡ true
    → (led_transfer t bytes rc rounds).ending ≢ still_waiting
unfolding led_transfer new_xfer
led_transfer-ends t bytes success rounds h =
    let w = wait true rounds ((t, new_xfer) ∷ []) in
    let o = wait-one true t rounds new_xfer h in led_end-ends t w.ending w o.ends o
led_transfer-ends t bytes (failure f) rounds h = λ e. ground arith

led_allocated-ends :
    (a : Option ℕ) (bytes : List ℕ) (r : LedReplies)
    → ((t : ℕ) → a ≡ some t → completed_by t r.rounds ≡ true)
    → (led_allocated a bytes r).ending ≢ still_waiting
unfolding led_allocated
led_allocated-ends none bytes r h = λ e. ground arith
led_allocated-ends (some t) bytes r h = led_transfer-ends t bytes r.led_rc r.rounds (h t refl)

-- `led_async` returns or throws when the callback of its transfer runs in some round, before or
-- after the deadline.
pub led_async-ends :
    (bytes : List ℕ) (r : LedReplies)
    → ((t : ℕ) → r.led_t ≡ some t → completed_by t r.rounds ≡ true)
    → (led_async bytes r).ending ≢ still_waiting
unfolding led_async
led_async-ends bytes r h = led_allocated-ends r.led_t bytes r h
