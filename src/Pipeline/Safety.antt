-- ===== src/Pipeline/Safety.antt =====
-- The latch has no way back: over every interleaving of the workers, nothing is accepted after a hold.
use acvjepa_project.Prelude.Int.{ℤ}
use acvjepa_project.Prelude.{String, ◌≡◌, refl, ◌∙◌, false, List, [], ◌∷◌, arith}
use acvjepa_project.Pipeline.Workers.{
  request_hold, hard_stop, is_normal, StateEstimate, PredictionReport, Limits, Pipeline,
  sensor_round, state_round, inference_round, control_round,
}

-- One round of one worker.
pub data Round (P : Type 0) : Type 0 where
  sense : P → Round P
  estimate : (P → StateEstimate) → Round P
  infer : Limits → (StateEstimate → PredictionReport) → String → ℤ → ℤ → ℤ → Round P
  control : ℤ → Round P
  stop : String → Round P

module _ {P : Type 0} where
  unfoldable pub play : Round P → Pipeline P → Pipeline P
  play (sense packet) s = sensor_round packet s
  play (estimate prepare) s = state_round prepare s
  play (infer limits predict uuid now created expires_from) s =
      inference_round limits predict uuid now created expires_from s
  play (control now) s = control_round now s
  play (stop reason) s = record s { safety = hard_stop reason s.safety }

  unfoldable pub play_all : List (Round P) → Pipeline P → Pipeline P
  play_all [] s = s
  play_all (o ∷ os) s = play_all os (play o s)

  -- After a hold, a round keeps the latch set and accepts no window.
  play_held :
      (o : Round P) (s : Pipeline P)
      → is_normal s.safety.mode ≡ false
      → (is_normal (play o s).safety.mode ≡ false)
        × ((play o s).metrics.control_accepted ≡ s.metrics.control_accepted)
  unfolding play sensor_round state_round inference_round control_round request_hold hard_stop
  play_held (sense packet) s h = (ground arith, ground arith)
  play_held (estimate prepare) s h = (ground arith, ground arith)
  play_held (infer limits predict uuid now created expires_from) s h = (ground arith, ground arith)
  play_held (control now) s h = (ground arith, ground arith)
  play_held (stop reason) s h = (ground arith, ground arith)

  -- Once the latch holds or has stopped, whatever the workers do after it, in any order, with any
  -- predictions and times, it never returns to normal and no control window is accepted.
  pub no_control_after_hold :
      (os : List (Round P)) (s : Pipeline P)
      → is_normal s.safety.mode ≡ false
      → (is_normal (play_all os s).safety.mode ≡ false)
        × ((play_all os s).metrics.control_accepted ≡ s.metrics.control_accepted)
  unfolding play_all
  no_control_after_hold [] s h = (h, refl)
  no_control_after_hold (o ∷ os) s h =
      let (held, same) = play_held o s h in
      let (stays, none_more) = no_control_after_hold os (play o s) held in (stays, none_more ∙ same)
