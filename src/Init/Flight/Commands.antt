-- ===== src/Init/Flight/Commands.antt =====
-- The two transfers of cmd of src/s4_init.cpp.
use s4_mk1_usb2midi.Common.{
  ◌≡◌, ◌≢◌, none, some, [], ◌∷◌, refl, ◌==◌, true, false, arith, ℕ, Option, Bool, List, Bool-cases,
  inl, inr,
}
use s4_mk1_usb2midi.Init.{
  Ending, cmd, cmd_end, cmd_out, cmd_in, cmd_transfers, Rc, threw, Pending, in_submit_failed,
  WaitEnd, Round, CmdReplies, out_submit_failed, Waited, new_xfer, success, LibusbError,
  led_submit_failed, free, failure, alloc, cmd_failed, led_failed, all_completed, returned,
  passed_deadline, not_open, alloc_failed, cmd_timeout, led_timeout, still_waiting, unfinished,
  cmd_checked, wait, wait_round, all_done, run_callbacks,
}
use s4_mk1_usb2midi.Init.Flight.{
  flying, held, mem, open_ids, without, WaitIsSound, wait-IsSound, IsCleanFrom, eq_refl, after_wait,
  remove_completed,
}

-- The endings after which nothing is left: the command returned, or failed with its transfers done,
-- or nothing was submitted.
pub frees_all : Ending → Bool
frees_all returned = true
frees_all (threw not_open) = true
frees_all (threw alloc_failed) = false
frees_all (threw (in_submit_failed e)) = true
frees_all (threw (out_submit_failed e)) = false
frees_all (threw (led_submit_failed e)) = false
frees_all (threw cmd_timeout) = false
frees_all (threw led_timeout) = false
frees_all (threw (cmd_failed s)) = true
frees_all (threw (led_failed s)) = false
frees_all still_waiting = false

pub returned_frees_all : (x : Ending) → x ≡ returned → frees_all x ≡ true
unfolding frees_all
returned_frees_all x e = rw e refl

false_true {ℓ} : {A : Type ℓ} → false ≡ true → A
false_true e = ground arith

module _ (i o : ℕ) (d : i ≢ o) where
  in_first : (i == o) ≡ false
  in_first = ground arith

  out_first : (o == i) ≡ false
  out_first = ground arith

  both_freed : IsCleanFrom [] (o ∷ i ∷ []) (free i ∷ free o ∷ [])
  unfolding flying held mem without
  both_freed = (refl, rw (in_first, eq_refl i, eq_refl o) refl)

  cmd_end-IsClean :
      {p : Pending} (ending : WaitEnd) (w : Waited)
      → WaitIsSound p w
      → w.ending ≡ ending
      → frees_all (cmd_end i o ending w).ending ≡ true
      → IsCleanFrom (open_ids p) (o ∷ i ∷ []) (cmd_end i o ending w).calls
  unfolding cmd_end frees_all
  cmd_end-IsClean all_completed w s e k =
      after_wait _ (o ∷ i ∷ []) s (rw (s.completes e) both_freed)
  cmd_end-IsClean passed_deadline w s e k = false_true k
  cmd_end-IsClean unfinished w s e k = false_true k

  cmd_out-IsClean :
      (bytes : List ℕ) (rc : Rc) (rounds : List Round)
      → frees_all (cmd_out i o bytes rc rounds).ending ≡ true
      → IsCleanFrom (i ∷ []) (o ∷ i ∷ []) (cmd_out i o bytes rc rounds).calls
  unfolding cmd_out flying held open_ids new_xfer frees_all
  cmd_out-IsClean bytes success rounds k =
      cmd_end-IsClean _ _ (wait-IsSound true rounds ((o, new_xfer) ∷ (i, new_xfer) ∷ [])) refl k
  cmd_out-IsClean bytes (failure e) rounds k = false_true k

  cmd_in-IsClean :
      (bytes : List ℕ) (rc out_rc : Rc) (rounds : List Round)
      → frees_all (cmd_in i o bytes rc out_rc rounds).ending ≡ true
      → IsCleanFrom [] (o ∷ i ∷ []) (cmd_in i o bytes rc out_rc rounds).calls
  unfolding cmd_in flying held
  cmd_in-IsClean bytes success out_rc rounds k = cmd_out-IsClean bytes out_rc rounds k
  cmd_in-IsClean bytes (failure e) out_rc rounds k = both_freed

cmd_transfers-IsClean :
    (a b : Option ℕ) (bytes : List ℕ) (r : CmdReplies)
    → ((i o : ℕ) → a ≡ some i → b ≡ some o → i ≢ o)
    → frees_all (cmd_transfers a b bytes r).ending ≡ true
    → IsCleanFrom [] [] (alloc a ∷ alloc b ∷ (cmd_transfers a b bytes r).calls)
unfolding cmd_transfers flying held frees_all
cmd_transfers-IsClean none b bytes r d k = false_true k
cmd_transfers-IsClean (some i) none bytes r d k = false_true k
cmd_transfers-IsClean (some i) (some o) bytes r d k =
    cmd_in-IsClean i o (d i o refl refl) bytes r.in_rc r.out_rc r.rounds k

cmd_checked-IsClean :
    (b : Bool) (bytes : List ℕ) (r : CmdReplies)
    → ((i o : ℕ) → r.in_t ≡ some i → r.out_t ≡ some o → i ≢ o)
    → frees_all (cmd_checked b bytes r).ending ≡ true
    → IsCleanFrom [] [] (cmd_checked b bytes r).calls
unfolding cmd_checked flying held
cmd_checked-IsClean false bytes r d k = (refl, refl)
cmd_checked-IsClean true bytes r d k = cmd_transfers-IsClean r.in_t r.out_t bytes r d k

-- A command that returns, or that throws because the device is not open, the incoming transfer is
-- refused or the outgoing one failed, frees both transfers that it allocated and neither of them
-- while it is in flight, provided that the allocations are different.
pub cmd-IsClean :
    (bytes : List ℕ) (r : CmdReplies)
    → ((i o : ℕ) → r.in_t ≡ some i → r.out_t ≡ some o → i ≢ o)
    → frees_all (cmd bytes r).ending ≡ true
    → (flying (cmd bytes r).calls [] ≡ some []) × (held (cmd bytes r).calls [] ≡ [])
unfolding cmd
cmd-IsClean bytes r d k = cmd_checked-IsClean r.is_open bytes r d k

abbrev pub replies : Option ℕ → Option ℕ → Rc → List Round → CmdReplies
replies in_t out_t out_rc rounds = record {
  is_open = true;
  in_t = in_t;
  out_t = out_t;
  in_rc = success;
  out_rc = out_rc;
  rounds = rounds;
}

mem_first : (i : ℕ) → mem i (i ∷ []) ≡ true
unfolding mem
mem_first i = rw (eq_refl i) refl

mem_second : (i o : ℕ) → mem i (o ∷ i ∷ []) ≡ true
unfolding mem
mem_second i o = elim (Bool-cases (i == o)) [ inl e ↦ rw e refl | inr e ↦ rw (e, eq_refl i) refl ]

-- When the outgoing transfer of a command is refused after the incoming one was accepted, or the
-- deadline passes in a first round without callbacks, a transfer is freed while it is in flight: the
-- cancellation is not waited for. When only one of the two transfers can be allocated, that one is
-- never freed.
pub cmd-leaves :
    (bytes : List ℕ) (i o : ℕ) (e : LibusbError) (rounds : List Round)
    → let late : Round = record { completions = []; late = true } in
      (flying (cmd bytes (replies (some i) (some o) (failure e) rounds)).calls [] ≡ none)
      × (flying (cmd bytes (replies (some i) (some o) success (late ∷ rounds))).calls [] ≡ none)
      × (held (cmd bytes (replies (some i) none (failure e) rounds)).calls [] ≡ i ∷ [])
      × (held (cmd bytes (replies none (some o) (failure e) rounds)).calls [] ≡ o ∷ [])
unfolding cmd cmd_checked cmd_transfers cmd_in cmd_out cmd_end wait wait_round new_xfer all_done
    run_callbacks remove_completed flying held
cmd-leaves bytes i o e rounds = (rw (mem_first i) refl, rw (mem_second i o) refl, refl, refl)
