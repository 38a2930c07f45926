-- ===== src/Init/Deadline.antt =====
-- The waits of src/s4_init.cpp end.
use s4_mk1_usb2midi.Common.{
  ◌≡◌, ◌≢◌, [], ◌∷◌, true, false, List, Bool, ◌||◌, ◌&&◌, some, none, Option, ℕ, refl, arith,
}
use s4_mk1_usb2midi.Usb.{success, failure, Rc}
use s4_mk1_usb2midi.Init.{
  Round, wait, check_status, cmd, wait_round, Pending, XferStatus, cmd_end, cmd_in, cmd_transfers,
  cmd_checked, CmdReplies, Waited, unfinished, InitError, WaitEnd, cmd_out, still_waiting, all_done,
  other_status, new_xfer, run_callbacks, completed, all_completed, cancelled, passed_deadline,
  no_device, error,
}

unfoldable pub any_late : List Round → Bool
any_late [] = false
any_late (r ∷ rs) = r.late || any_late rs

wait_round-ends :
    (b late : Bool) (r : Round) (rs : List Round) (p : Pending) (rest : Waited)
    → (late ≡ false → rest.ending ≢ unfinished)
    → (wait_round b late r rs p rest).ending ≢ unfinished
unfolding wait_round
wait_round-ends true late r rs p rest h e = ground arith
wait_round-ends false true r rs p rest h e = ground arith
wait_round-ends false false r rs p rest h e = h refl e

later : (a b : Bool) → (a || b) ≡ true → (true && a) ≡ false → b ≡ true
later a b h k = ground arith

wait-ends :
    (rs : List Round) (p : Pending) → any_late rs ≡ true → (wait true rs p).ending ≢ unfinished
unfolding wait any_late
wait-ends [] p h = λ e. ground arith
wait-ends (r ∷ rs) p h =
    wait_round-ends (all_done p) (true && r.late) r rs p _
      λ k. wait-ends rs (run_callbacks r.completions p) (later r.late (any_late rs) h k)

pub check_status-ends :
    (s : XferStatus) (e : XferStatus → InitError) → check_status s e ≢ still_waiting
unfolding check_status
check_status-ends completed e h = ground arith
check_status-ends cancelled e h = ground arith
check_status-ends no_device e h = ground arith
check_status-ends error e h = ground arith
check_status-ends (other_status n) e h = ground arith

cmd_end-ends :
    (i o : ℕ) (ending : WaitEnd) (w : Waited)
    → ending ≢ unfinished
    → (cmd_end i o ending w).ending ≢ still_waiting
unfolding cmd_end
cmd_end-ends i o all_completed w h = check_status-ends _ _
cmd_end-ends i o passed_deadline w h = λ e. ground arith
cmd_end-ends i o unfinished w h = λ e. h refl

cmd_in-ends :
    (i o : ℕ) (bytes : List ℕ) (rc out_rc : Rc) (rounds : List Round)
    → any_late rounds ≡ true
    → (cmd_in i o bytes rc out_rc rounds).ending ≢ still_waiting
unfolding cmd_in cmd_out
cmd_in-ends i o bytes success success rounds h =
    let p : Pending = (o, new_xfer) ∷ (i, new_xfer) ∷ [] in
    cmd_end-ends i o _ (wait true rounds p) (wait-ends rounds p h)
cmd_in-ends i o bytes success (failure f) rounds h = λ e. ground arith
cmd_in-ends i o bytes (failure f) out_rc rounds h = λ e. ground arith

cmd_transfers-ends :
    (a b : Option ℕ) (bytes : List ℕ) (r : CmdReplies)
    → any_late r.rounds ≡ true
    → (cmd_transfers a b bytes r).ending ≢ still_waiting
unfolding cmd_transfers
cmd_transfers-ends none b bytes r h = λ e. ground arith
cmd_transfers-ends (some i) none bytes r h = λ e. ground arith
cmd_transfers-ends (some i) (some o) bytes r h = cmd_in-ends i o bytes r.in_rc r.out_rc r.rounds h

cmd_checked-ends :
    (b : Bool) (bytes : List ℕ) (r : CmdReplies)
    → any_late r.rounds ≡ true
    → (cmd_checked b bytes r).ending ≢ still_waiting
unfolding cmd_checked
cmd_checked-ends false bytes r h = λ e. ground arith
cmd_checked-ends true bytes r h = cmd_transfers-ends r.in_t r.out_t bytes r h

-- A command returns or throws as soon as the clock is past its deadline, whatever the callbacks do.
pub cmd-ends :
    (bytes : List ℕ) (r : CmdReplies)
    → any_late r.rounds ≡ true
    → (cmd bytes r).ending ≢ still_waiting
unfolding cmd
cmd-ends bytes r h = cmd_checked-ends r.is_open bytes r h
