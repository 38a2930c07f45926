-- ===== src/Init/Flight/Leds.antt =====
-- The transfer of led_async of src/s4_init.cpp.
use s4_mk1_usb2midi.Common.{none, some, ◌≡◌, ◌≢◌, ◌++◌, false, Option, [], ◌∷◌, refl, ℕ, List, true}
use s4_mk1_usb2midi.Init.Flight.{
  flying, held, mem, WaitIsSound, without, open_ids, wait-IsSound, IsCleanFrom, eq_refl, after_wait,
}
use s4_mk1_usb2midi.Init.{
  Pending, led_async, Waited, led_cancelled, led_end, led_transfer, led_allocated, WaitEnd,
  LedReplies, free, new_xfer, still_waiting, Rc, Round, failure, all_completed, passed_deadline,
  alloc, unfinished,
}
use s4_mk1_usb2midi.Usb.{success}

freed : (t : ℕ) → IsCleanFrom [] (t ∷ []) (free t ∷ [])
unfolding flying held mem without
freed t = (refl, rw (eq_refl t) refl)

wait_freed :
    {p : Pending} (t : ℕ) (w : Waited)
    → WaitIsSound p w
    → w.ending ≡ all_completed
    → IsCleanFrom (open_ids p) (t ∷ []) (w.calls ++ free t ∷ [])
wait_freed t w s e = after_wait _ (t ∷ []) s (rw (s.completes e) (freed t))

led_cancelled-IsClean :
    {p : Pending} (t : ℕ) (ending : WaitEnd) (w : Waited)
    → WaitIsSound p w
    → w.ending ≡ ending
    → (led_cancelled t ending w).ending ≢ still_waiting
    → IsCleanFrom (open_ids p) (t ∷ []) (led_cancelled t ending w).calls
unfolding led_cancelled
led_cancelled-IsClean t all_completed w s e k = wait_freed t w s e
led_cancelled-IsClean t passed_deadline w s e k = absurd (k refl)
led_cancelled-IsClean t unfinished w s e k = absurd (k refl)

led_end-IsClean :
    {p : Pending} (t : ℕ) (ending : WaitEnd) (w : Waited)
    → WaitIsSound p w
    → w.ending ≡ ending
    → (led_end t ending w).ending ≢ still_waiting
    → IsCleanFrom (open_ids p) (t ∷ []) (led_end t ending w).calls
unfolding led_end flying held
led_end-IsClean t all_completed w s e k = wait_freed t w s e
led_end-IsClean t passed_deadline w s e k =
    after_wait _ (t ∷ []) s
      (led_cancelled-IsClean t _ _ (wait-IsSound false w.rounds w.pending) refl k)
led_end-IsClean t unfinished w s e k = absurd (k refl)

led_transfer-IsClean :
    (t : ℕ) (bytes : List ℕ) (rc : Rc) (rounds : List Round)
    → (led_transfer t bytes rc rounds).ending ≢ still_waiting
    → IsCleanFrom [] (t ∷ []) (led_transfer t bytes rc rounds).calls
unfolding led_transfer flying held mem without open_ids new_xfer
led_transfer-IsClean t bytes success rounds k =
    led_end-IsClean t _ _ (wait-IsSound true rounds ((t, new_xfer) ∷ [])) refl k
led_transfer-IsClean t bytes (failure e) rounds k = (refl, rw (eq_refl t) refl)

-- Every call of `led_async` that returns or throws frees the transfer that it allocated, and never
-- while the transfer is in flight; so nothing of it is in flight when it ends. This holds for the
-- failed submission, the timeout and the failed write too.
pub led_async-IsClean :
    (bytes : List ℕ) (r : LedReplies)
    → (led_async bytes r).ending ≢ still_waiting
    → (flying (led_async bytes r).calls [] ≡ some []) × (held (led_async bytes r).calls [] ≡ [])
unfolding led_async led_allocated flying held
led_async-IsClean bytes r k = go r.led_t k
  where
    go :
        (t : Option ℕ)
        → (led_allocated t bytes r).ending ≢ still_waiting
        → IsCleanFrom [] [] (alloc t ∷ (led_allocated t bytes r).calls)
    go none k = (refl, refl)
    go (some t) k = led_transfer-IsClean t bytes r.led_rc r.rounds k
