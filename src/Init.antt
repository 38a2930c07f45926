-- ===== src/Init.antt =====
-- src/s4_init.cpp: the transfers that cmd and led_async make through libusb's asynchronous interface.
-- What libusb answers is an argument: the transfers it allocates, the codes of the submissions, and
-- the rounds of its event loop. What is called is listed.
pub mod Flight
pub mod Deadline
pub mod LedDeadline
pub mod Packets
pub mod Sequence
mod Tests
use s4_mk1_usb2midi.Common.{
  ℕ, Bool, true, false, ◌&&◌, not, Option, none, some, List, [], ◌∷◌, ◌++◌, ◌==◌, if◌then◌else◌,
  map,
}
use s4_mk1_usb2midi.Usb.{Rc, success, failure, LibusbError}

pub data XferStatus : Type 0 where
  completed cancelled no_device error : XferStatus
  other_status : ℕ → XferStatus

pub record XferState : Type 0 where
  pub done : Bool
  pub status : XferStatus
  pub transferred : ℕ

-- The first status is 0, the one of a completed transfer.
pub new_xfer : XferState
new_xfer = record { done = false; status = completed; transferred = 0 }

-- `none` is a null transfer or a null `user_data`.
pub xfer_cb : Option (XferStatus × ℕ) → XferState → XferState
xfer_cb none s = s
xfer_cb (some (status, n)) s = record { done = true; status = status; transferred = n }

-- The call of a callback: for which transfer, with its status and its length.
pub record Completion : Type 0 where
  pub id : ℕ
  pub status : XferStatus
  pub actual_length : ℕ

-- A round of the event loop: the callbacks that `libusb_handle_events_timeout` runs, and whether the
-- clock is past the deadline after it.
pub record Round : Type 0 where
  pub completions : List Completion
  pub late : Bool

pub data AsyncCall : Type 0 where
  alloc : Option ℕ → AsyncCall
  submit : ℕ → ℕ → List ℕ → Rc → AsyncCall
  handle_events : List Completion → AsyncCall
  cancel free : ℕ → AsyncCall

-- The transfers in flight with the states that their callbacks fill.
abbrev pub Pending : Type 0
Pending = List (ℕ × XferState)

abbrev notify : Completion → ℕ × XferState → ℕ × XferState
notify c (i, s) = (i, if c.id == i then xfer_cb (some (c.status, c.actual_length)) s else s)

pub run_callbacks : List Completion → Pending → Pending
run_callbacks [] p = p
run_callbacks (c ∷ cs) p = run_callbacks cs (map (notify c) p)

pub all_done : Pending → Bool
all_done [] = true
all_done ((i, s) ∷ p) = s.done && all_done p

-- How a wait ended; `unfinished` is a wait that goes on when the rounds end.
pub data WaitEnd : Type 0 where
  all_completed passed_deadline unfinished : WaitEnd

pub record Waited : Type 0 where
  pub ending : WaitEnd
  pub calls : List AsyncCall
  pub pending : Pending
  pub rounds : List Round

-- A round of the loop: whether all are done before it, whether the deadline is passed after it, and
-- what the loop does from then on.
wait_round : Bool → Bool → Round → List Round → Pending → Waited → Waited
unfolding run_callbacks
wait_round true late r rs p rest = record {
  ending = all_completed;
  calls = [];
  pending = p;
  rounds = r ∷ rs;
}
wait_round false true r rs p rest = record {
  ending = passed_deadline;
  calls = handle_events r.completions ∷ [];
  pending = run_callbacks r.completions p;
  rounds = rs;
}
wait_round false false r rs p rest = record {
  ending = rest.ending;
  calls = handle_events r.completions ∷ rest.calls;
  pending = rest.pending;
  rounds = rest.rounds;
}

-- The loop over the events until every state is done; the deadline is looked at if `timed`.
pub wait : Bool → List Round → Pending → Waited
unfolding run_callbacks all_done wait_round
wait timed [] p = record {
  ending = if all_done p then all_completed else unfinished;
  calls = [];
  pending = p;
  rounds = [];
}
wait timed (r ∷ rs) p =
    let rest = wait timed rs (run_callbacks r.completions p) in
    wait_round (all_done p) (timed && r.late) r rs p rest

pub data InitError : Type 0 where
  not_open alloc_failed : InitError
  in_submit_failed out_submit_failed led_submit_failed : LibusbError → InitError
  cmd_timeout led_timeout : InitError
  cmd_failed led_failed : XferStatus → InitError

pub data Ending : Type 0 where
  returned : Ending
  threw : InitError → Ending
  still_waiting : Ending

pub record Ran : Type 0 where
  pub calls : List AsyncCall
  pub ending : Ending

-- `status != LIBUSB_TRANSFER_COMPLETED`.
pub check_status : XferStatus → (XferStatus → InitError) → Ending
check_status completed e = returned
check_status cancelled e = threw (e cancelled)
check_status no_device e = threw (e no_device)
check_status error e = threw (e error)
check_status (other_status n) e = threw (e (other_status n))

abbrev first_status : Pending → XferStatus
first_status [] = completed
first_status ((i, s) ∷ p) = s.status

pub record CmdReplies : Type 0 where
  pub is_open : Bool
  pub in_t : Option ℕ
  pub out_t : Option ℕ
  pub in_rc : Rc
  pub out_rc : Rc
  pub rounds : List Round

-- After the wait of cmd, by how it ended.
cmd_end : ℕ → ℕ → WaitEnd → Waited → Ran
unfolding check_status
cmd_end i o all_completed w = record {
  calls = w.calls ++ free i ∷ free o ∷ [];
  ending = check_status (first_status w.pending) cmd_failed;
}
cmd_end i o passed_deadline w = record {
  calls = w.calls ++ cancel i ∷ cancel o ∷ free i ∷ free o ∷ [];
  ending = threw cmd_timeout;
}
cmd_end i o unfinished w = record { calls = w.calls; ending = still_waiting }

abbrev after_calls : List AsyncCall → Ran → Ran
after_calls calls r = record r { calls = calls ++ r.calls }

-- The outgoing transfer stands first among the pending ones.
cmd_out : ℕ → ℕ → List ℕ → Rc → List Round → Ran
unfolding cmd_end wait new_xfer
cmd_out i o bytes success rounds =
    let w = wait true rounds ((o, new_xfer) ∷ (i, new_xfer) ∷ []) in
    after_calls (submit o 0x01 bytes success ∷ []) (cmd_end i o w.ending w)
cmd_out i o bytes (failure e) rounds = record {
  calls = submit o 0x01 bytes (failure e) ∷ cancel i ∷ free i ∷ free o ∷ [];
  ending = threw (out_submit_failed e);
}

cmd_in : ℕ → ℕ → List ℕ → Rc → Rc → List Round → Ran
unfolding cmd_out
cmd_in i o bytes success out_rc rounds =
    after_calls (submit i 0x81 [] success ∷ []) (cmd_out i o bytes out_rc rounds)
cmd_in i o bytes (failure e) out_rc rounds = record {
  calls = submit i 0x81 [] (failure e) ∷ free i ∷ free o ∷ [];
  ending = threw (in_submit_failed e);
}

cmd_transfers : Option ℕ → Option ℕ → List ℕ → CmdReplies → Ran
unfolding cmd_in
cmd_transfers none o bytes r = record { calls = []; ending = threw alloc_failed }
cmd_transfers (some i) none bytes r = record { calls = []; ending = threw alloc_failed }
cmd_transfers (some i) (some o) bytes r = cmd_in i o bytes r.in_rc r.out_rc r.rounds

cmd_checked : Bool → List ℕ → CmdReplies → Ran
unfolding cmd_transfers
cmd_checked false bytes r = record { calls = []; ending = threw not_open }
cmd_checked true bytes r =
    after_calls (alloc r.in_t ∷ alloc r.out_t ∷ []) (cmd_transfers r.in_t r.out_t bytes r)

pub cmd : List ℕ → CmdReplies → Ran
unfolding cmd_checked
cmd bytes r = cmd_checked r.is_open bytes r

pub record LedReplies : Type 0 where
  pub led_t : Option ℕ
  pub led_rc : Rc
  pub rounds : List Round

-- After the cancellation, the loop looks at no clock.
led_cancelled : ℕ → WaitEnd → Waited → Ran
led_cancelled t all_completed w = record {
  calls = w.calls ++ free t ∷ [];
  ending = threw led_timeout;
}
led_cancelled t passed_deadline w = record { calls = w.calls; ending = still_waiting }
led_cancelled t unfinished w = record { calls = w.calls; ending = still_waiting }

led_end : ℕ → WaitEnd → Waited → Ran
unfolding led_cancelled wait check_status
led_end t all_completed w = record {
  calls = w.calls ++ free t ∷ [];
  ending = check_status (first_status w.pending) led_failed;
}
led_end t passed_deadline w =
    let w' = wait false w.rounds w.pending in
    after_calls w.calls (after_calls (cancel t ∷ []) (led_cancelled t w'.ending w'))
led_end t unfinished w = record { calls = w.calls; ending = still_waiting }

led_transfer : ℕ → List ℕ → Rc → List Round → Ran
unfolding led_end wait new_xfer
led_transfer t bytes success rounds =
    let w = wait true rounds ((t, new_xfer) ∷ []) in
    after_calls (submit t 0x08 bytes success ∷ []) (led_end t w.ending w)
led_transfer t bytes (failure e) rounds = record {
  calls = submit t 0x08 bytes (failure e) ∷ free t ∷ [];
  ending = threw (led_submit_failed e);
}

led_allocated : Option ℕ → List ℕ → LedReplies → Ran
unfolding led_transfer
led_allocated none bytes r = record { calls = []; ending = threw alloc_failed }
led_allocated (some t) bytes r = led_transfer t bytes r.led_rc r.rounds

pub led_async : List ℕ → LedReplies → Ran
unfolding led_allocated
led_async bytes r = after_calls (alloc r.led_t ∷ []) (led_allocated r.led_t bytes r)
