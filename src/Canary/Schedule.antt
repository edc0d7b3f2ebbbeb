-- ===== src/Canary/Schedule.antt =====
-- Calls of the gate in any order. A report is kept from the evaluation that made it to the call that
-- applies it, however much later.
use acvjepa_project.Prelude.{
  get_elem?, Result, ok, err, ℕ, Bool, Option, none, some, List, [], ◌∷◌, ◌++◌,
}
use acvjepa_project.Prelude.Float.{Floats}
use acvjepa_project.Canary.Types.{GateError, ShadowRecord, GateReport, Gate}
use acvjepa_project.Canary.{evaluate, enter_shadow, record_outcome, apply}

pub data Op (F : Type 0) : Type 0 where
  enter measure : Op F
  observe : ShadowRecord F → Op F
  -- apply the report of this number, authorized or not
  act : ℕ → Bool → Op F

pub record Console (F : Type 0) : Type 0 where
  pub gate : Gate F
  pub reports : List (GateReport F)

module _ {F : Type 0} where
  abbrev pub note : Result GateError (GateReport F) → List (GateReport F) → List (GateReport F)
  note (ok r) rs = rs ++ r ∷ []
  note (err e) rs = rs

  abbrev pub apply_found : Option (GateReport F) → Bool → Gate F → Gate F
  apply_found none authorized g = g
  apply_found (some r) authorized g = (apply r authorized g).1

module _ {F : Type 0} (fl : Floats F) where
  unfoldable pub step : Op F → Console F → Console F
  step enter c = record c { gate = (enter_shadow c.gate).1 }
  step measure c = record c { reports = note (evaluate fl c.gate) c.reports }
  step (observe r) c = record c { gate = (record_outcome r c.gate).1 }
  step (act k authorized) c = record c {
    gate = apply_found (get_elem? c.reports k) authorized c.gate;
  }

  unfoldable pub run : List (Op F) → Console F → Console F
  run [] c = c
  run (o ∷ os) c = run os (step o c)

abbrev pub console : {F : Type 0} → Gate F → Console F
console g = record { gate = g; reports = [] }
