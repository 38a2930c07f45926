-- ===== src/Init/Sequence/Delivery.antt =====
-- What s4_mk1_init has sent to the device when it returns.
use s4_mk1_usb2midi.Common.{
  ◌≡◌, ◌∙◌, ◌++◌, [], ◌∷◌, refl, ℕ, suc, none, some, true, false, ap, ltb, List, Bool,
  if◌then◌else◌, Option, Bool-cases, arith, inl, sym, inr, ◌&&◌, ap₂, ◌≢◌,
}
use s4_mk1_usb2midi.Init.{
  AsyncCall, wait, InitError, still_waiting, submit, wait_round, Round, threw, returned, cmd_end,
  cmd_in, cmd_checked, led_end, led_transfer, led_allocated, cmd, failure, Pending, WaitEnd,
  cmd_out, cmd_transfers, LedReplies, led_async, Ending, alloc, Waited, all_done, CmdReplies,
  cancel, handle_events, free, run_callbacks, led_cancelled, all_completed, passed_deadline,
  unfinished, new_xfer,
}
use s4_mk1_usb2midi.Init.Packets.{InitStep, command, led, init_steps, start_drain, stop_drain}
use s4_mk1_usb2midi.Usb.{Rc, success}
use s4_mk1_usb2midi.Init.Sequence.{
  run_step, run_steps, s4_mk1_init, started, stop_started, next_step, StepReplies, DrainEvent,
  Drain84, stop_drain84, InitRun,
}

-- The accepted submissions to outgoing endpoints, with their bytes.
pub outgoing : List AsyncCall → List (ℕ × List ℕ)
outgoing [] = []
outgoing (submit t e b success ∷ calls) =
    let rest = outgoing calls in if ltb e 0x80 then (e, b) ∷ rest else rest
outgoing (submit t e b (failure f) ∷ calls) = outgoing calls
outgoing (alloc t ∷ calls) = outgoing calls
outgoing (handle_events cs ∷ calls) = outgoing calls
outgoing (cancel t ∷ calls) = outgoing calls
outgoing (free t ∷ calls) = outgoing calls

-- What each step is to send: a command to endpoint 1, an LED packet to endpoint 8.
pub packets_of : List InitStep → List (ℕ × List ℕ)
packets_of [] = []
packets_of (command bytes ∷ steps) = (0x01, bytes) ∷ packets_of steps
packets_of (led bytes ∷ steps) = (0x08, bytes) ∷ packets_of steps
packets_of (start_drain ∷ steps) = packets_of steps
packets_of (stop_drain ∷ steps) = packets_of steps

outgoing-append : (xs ys : List AsyncCall) → outgoing (xs ++ ys) ≡ outgoing xs ++ outgoing ys
unfolding outgoing
outgoing-append [] ys = refl
outgoing-append (submit t e b success ∷ xs) ys = elim (Bool-cases (ltb e 0x80)) [
  | inl h ↦ rw h (ap (◌∷◌ (e, b)) (outgoing-append xs ys))
  | inr h ↦ rw h (outgoing-append xs ys)
]
outgoing-append (submit t e b (failure f) ∷ xs) ys = outgoing-append xs ys
outgoing-append (alloc t ∷ xs) ys = outgoing-append xs ys
outgoing-append (handle_events cs ∷ xs) ys = outgoing-append xs ys
outgoing-append (cancel t ∷ xs) ys = outgoing-append xs ys
outgoing-append (free t ∷ xs) ys = outgoing-append xs ys

outgoing-wait_round :
    (b late : Bool) (r : Round) (rs : List Round) (p : Pending) (rest : Waited)
    → outgoing rest.calls ≡ []
    → outgoing (wait_round b late r rs p rest).calls ≡ []
unfolding wait_round outgoing
outgoing-wait_round true late r rs p rest h = refl
outgoing-wait_round false true r rs p rest h = refl
outgoing-wait_round false false r rs p rest h = h

outgoing-wait :
    (timed : Bool) (rs : List Round) (p : Pending) → outgoing (wait timed rs p).calls ≡ []
unfolding wait outgoing
outgoing-wait timed [] p = refl
outgoing-wait timed (r ∷ rs) p =
    outgoing-wait_round (all_done p) (timed && r.late) r rs p _
      (outgoing-wait timed rs (run_callbacks r.completions p))

-- A command and an LED packet that return have been sent once.
threw_returned {ℓ} : {A : Type ℓ} {e : InitError} → threw e ≡ returned → A
threw_returned h = ground arith

waiting_returned {ℓ} : {A : Type ℓ} → still_waiting ≡ returned → A
waiting_returned h = ground arith

silent_end :
    (calls rest : List AsyncCall) → outgoing calls ≡ [] → outgoing (calls ++ rest) ≡ outgoing rest
silent_end calls rest h =
    outgoing-append calls rest ∙ ap (λ (x : List (ℕ × List ℕ)). x ++ outgoing rest) h

cmd_end-outgoing :
    (i o : ℕ) (ending : WaitEnd) (w : Waited)
    → outgoing w.calls ≡ []
    → (cmd_end i o ending w).ending ≡ returned
    → outgoing (cmd_end i o ending w).calls ≡ []
unfolding cmd_end outgoing
cmd_end-outgoing i o all_completed w h e = silent_end w.calls (free i ∷ free o ∷ []) h
cmd_end-outgoing i o passed_deadline w h e = threw_returned e
cmd_end-outgoing i o unfinished w h e = waiting_returned e

cmd_in-outgoing :
    (i o : ℕ) (bytes : List ℕ) (rc out_rc : Rc) (rounds : List Round)
    → (cmd_in i o bytes rc out_rc rounds).ending ≡ returned
    → outgoing (cmd_in i o bytes rc out_rc rounds).calls ≡ (0x01, bytes) ∷ []
unfolding cmd_in cmd_out outgoing
cmd_in-outgoing i o bytes success success rounds e =
    let p : Pending = (o, new_xfer) ∷ (i, new_xfer) ∷ [] in
    ap (◌∷◌ (0x01, bytes))
      (cmd_end-outgoing i o _ (wait true rounds p) (outgoing-wait true rounds p) e)
cmd_in-outgoing i o bytes success (failure f) rounds e = threw_returned e
cmd_in-outgoing i o bytes (failure f) out_rc rounds e = threw_returned e

cmd_checked-outgoing :
    (b : Bool) (bytes : List ℕ) (r : CmdReplies)
    → (cmd_checked b bytes r).ending ≡ returned
    → outgoing (cmd_checked b bytes r).calls ≡ (0x01, bytes) ∷ []
unfolding cmd_checked cmd_transfers outgoing
cmd_checked-outgoing false bytes r e = threw_returned e
cmd_checked-outgoing true bytes r e = go r.in_t r.out_t e
  where
    go :
        (a b : Option ℕ)
        → (cmd_transfers a b bytes r).ending ≡ returned
        → outgoing (cmd_transfers a b bytes r).calls ≡ (0x01, bytes) ∷ []
    go none b h = threw_returned h
    go (some i) none h = threw_returned h
    go (some i) (some o) h = cmd_in-outgoing i o bytes r.in_rc r.out_rc r.rounds h

led_end-outgoing :
    (t : ℕ) (ending : WaitEnd) (w : Waited)
    → outgoing w.calls ≡ []
    → (led_end t ending w).ending ≡ returned
    → outgoing (led_end t ending w).calls ≡ []
unfolding led_end outgoing
led_end-outgoing t all_completed w h e = silent_end w.calls (free t ∷ []) h
led_end-outgoing t passed_deadline w h e =
    absurd (cancelled_throws (wait false w.rounds w.pending) _ e)
  where
    cancelled_throws : (w' : Waited) (x : WaitEnd) → (led_cancelled t x w').ending ≢ returned
    cancelled_throws w' all_completed k = threw_returned k
    cancelled_throws w' passed_deadline k = waiting_returned k
    cancelled_throws w' unfinished k = waiting_returned k
led_end-outgoing t unfinished w h e = waiting_returned e

led_transfer-outgoing :
    (t : ℕ) (bytes : List ℕ) (rc : Rc) (rounds : List Round)
    → (led_transfer t bytes rc rounds).ending ≡ returned
    → outgoing (led_transfer t bytes rc rounds).calls ≡ (0x08, bytes) ∷ []
unfolding led_transfer outgoing
led_transfer-outgoing t bytes success rounds e =
    let p : Pending = (t, new_xfer) ∷ [] in
    ap (◌∷◌ (0x08, bytes))
      (led_end-outgoing t _ (wait true rounds p) (outgoing-wait true rounds p) e)
led_transfer-outgoing t bytes (failure f) rounds e = threw_returned e

led_allocated-outgoing :
    (a : Option ℕ) (bytes : List ℕ) (r : LedReplies)
    → (led_allocated a bytes r).ending ≡ returned
    → outgoing (led_allocated a bytes r).calls ≡ (0x08, bytes) ∷ []
unfolding led_allocated
led_allocated-outgoing none bytes r e = threw_returned e
led_allocated-outgoing (some t) bytes r e = led_transfer-outgoing t bytes r.led_rc r.rounds e

-- The drain sends nothing.
started-outgoing : (t : Option ℕ) (rc : Rc) → outgoing (started t rc) ≡ []
unfolding outgoing
started-outgoing none rc = refl
started-outgoing (some t) success = refl
started-outgoing (some t) (failure e) = refl

stop_started-outgoing :
    (t : Option ℕ) (rounds : List (List DrainEvent)) (d : Drain84)
    → outgoing (stop_started t rounds d).calls ≡ []
unfolding stop_started outgoing
stop_started-outgoing none rounds d = refl
stop_started-outgoing (some t) rounds d = frees d.active
  where
    frees : (b : Bool) → outgoing (if b then cancel t ∷ free t ∷ [] else free t ∷ []) ≡ []
    frees true = refl
    frees false = refl

run_step-outgoing :
    (step : InitStep) (r : StepReplies) (d : Drain84)
    → (run_step step r d).ending ≡ returned
    → outgoing (run_step step r d).calls ≡ packets_of (step ∷ [])
unfolding run_step packets_of cmd led_async stop_drain84 outgoing
run_step-outgoing (command bytes) r d e =
    cmd_checked-outgoing r.cmd_replies.is_open bytes r.cmd_replies e
run_step-outgoing (led bytes) r d e =
    led_allocated-outgoing r.led_replies.led_t bytes r.led_replies e
run_step-outgoing start_drain r d e = started-outgoing r.drain_t r.drain_rc
run_step-outgoing stop_drain r d e = stop_started-outgoing d.t r.drain_rounds d

packets_of-cons :
    (step : InitStep) (steps : List InitStep)
    → packets_of (step ∷ steps) ≡ packets_of (step ∷ []) ++ packets_of steps
unfolding packets_of
packets_of-cons (command bytes) steps = refl
packets_of-cons (led bytes) steps = refl
packets_of-cons start_drain steps = refl
packets_of-cons stop_drain steps = refl

next_step-outgoing :
    (ending : Ending) (r rest : InitRun) (xs ys : List (ℕ × List ℕ))
    → (ending ≡ returned → outgoing r.calls ≡ xs)
    → (rest.ending ≡ returned → outgoing rest.calls ≡ ys)
    → r.ending ≡ ending
    → (next_step ending r rest).ending ≡ returned
    → outgoing (next_step ending r rest).calls ≡ xs ++ ys
unfolding next_step
next_step-outgoing returned r rest xs ys h k s e =
    outgoing-append r.calls rest.calls ∙ ap₂ (◌++◌) (h refl) (k e)
next_step-outgoing (threw f) r rest xs ys h k s e = threw_returned (sym s ∙ e)
next_step-outgoing still_waiting r rest xs ys h k s e = waiting_returned (sym s ∙ e)

run_steps-outgoing :
    (replies : ℕ → StepReplies) (n : ℕ) (steps : List InitStep) (d : Drain84)
    → (run_steps replies n steps d).ending ≡ returned
    → outgoing (run_steps replies n steps d).calls ≡ packets_of steps
unfolding run_steps outgoing packets_of
run_steps-outgoing replies n [] d e = refl
run_steps-outgoing replies n (step ∷ steps) d e =
    next_step-outgoing _ _ _ _ _ (run_step-outgoing step (replies n) d)
      (run_steps-outgoing replies (suc n) steps _) refl e
    ∙ sym (packets_of-cons step steps)

-- When `s4_mk1_init` returns, the outgoing transfers that libusb accepted carry exactly the packets
-- of the sequence, each one once, in order and on its endpoint.
pub s4_mk1_init-delivers :
    (replies : ℕ → StepReplies) (d : Drain84)
    → (s4_mk1_init replies d).ending ≡ returned
    → outgoing (s4_mk1_init replies d).calls ≡ packets_of init_steps
unfolding s4_mk1_init
s4_mk1_init-delivers replies d e = run_steps-outgoing replies 0 init_steps d e
