-- ===== src/Init/Sequence/Drain.antt =====
-- The drain of endpoint 0x84 when s4_mk1_init throws.
use s4_mk1_usb2midi.Common.{◌≡◌, ◌∙◌, [], ◌∷◌, refl, ℕ, suc, some, List, Option, map, ◌++◌, arith}
use s4_mk1_usb2midi.Init.Sequence.{
  drain84_cb, drain_events, StepReplies, resubmit, next_step, run_steps, Drain84, DrainEvent,
  InitStep, run_step, led, stop_drain, InitRun,
}
use s4_mk1_usb2midi.Init.{
  InitError, failure, threw, Ending, other_status, cancelled, returned, no_device, still_waiting,
  error, completed,
}
use s4_mk1_usb2midi.Init.Packets.{led_phases, led_phases_lem, led_dump_a, led_dump_b}
use s4_mk1_usb2midi.Usb.{success}

drain84_cb-t : (e : DrainEvent) (d : Drain84) → (drain84_cb (some e) d).t ≡ d.t
unfolding drain84_cb resubmit
drain84_cb-t (cancelled, rc) d = refl
drain84_cb-t (no_device, rc) d = refl
drain84_cb-t (error, rc) d = refl
drain84_cb-t (completed, success) d = refl
drain84_cb-t (completed, failure e) d = refl
drain84_cb-t (other_status n, success) d = refl
drain84_cb-t (other_status n, failure e) d = refl

drain_events-t : (es : List DrainEvent) (d : Drain84) → (drain_events es d).t ≡ d.t
unfolding drain_events
drain_events-t [] d = refl
drain_events-t (e ∷ es) d = drain_events-t es (drain84_cb (some e) d) ∙ drain84_cb-t e d

module _ (replies : ℕ → StepReplies) where
  -- A run that throws leaves the transfer of the drain as it was.
  Keeps : List InitStep → Type 0
  Keeps steps =
      (n : ℕ) (d : Drain84) (e : InitError)
      → (run_steps replies n steps d).ending ≡ threw e
      → (run_steps replies n steps d).drain.t ≡ d.t

  next_step-Keeps :
      {t : Option ℕ} (ending : Ending) (r rest : InitRun) (e : InitError)
      → r.ending ≡ ending
      → r.drain.t ≡ t
      → (rest.ending ≡ threw e → rest.drain.t ≡ t)
      → (next_step ending r rest).ending ≡ threw e
      → (next_step ending r rest).drain.t ≡ t
  unfolding next_step
  next_step-Keeps returned r rest e s k h g = h g
  next_step-Keeps (threw f) r rest e s k h g = k
  next_step-Keeps still_waiting r rest e s k h g = k

  led-Keeps : (bytes : List ℕ) (steps : List InitStep) → Keeps steps → Keeps (led bytes ∷ steps)
  unfolding Keeps run_steps run_step
  led-Keeps bytes steps k n d e g =
      next_step-Keeps _ _ _ e refl (drain_events-t (replies n).events d)
        (λ h.
          k (suc n) (drain_events (replies n).events d) e h ∙ drain_events-t (replies n).events d)
        g

  leds-Keep :
      (packets : List (List ℕ)) (steps : List InitStep)
      → Keeps steps
      → Keeps (map led packets ++ steps)
  leds-Keep [] steps k = k
  leds-Keep (p ∷ ps) steps k = led-Keeps p (map led ps ++ steps) (leds-Keep ps steps k)

  stop-Keeps : Keeps (stop_drain ∷ [])
  unfolding Keeps run_steps run_step next_step
  stop-Keeps n d e g = ground arith

-- When phases 6 and 7 throw, the drain that was started before them is not stopped: `s_drain` holds
-- the same transfer as before them.
pub led_phases-threw :
    (replies : ℕ → StepReplies) (n : ℕ) (d : Drain84) (e : InitError)
    → (run_steps replies n led_phases d).ending ≡ threw e
    → (run_steps replies n led_phases d).drain.t ≡ d.t
unfolding Keeps
led_phases-threw replies =
    rw led_phases_lem
      (leds-Keep replies led_dump_a _ (leds-Keep replies led_dump_b _ (stop-Keeps replies)))
