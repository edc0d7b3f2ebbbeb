-- ===== src/Cursor/Ranges.antt =====
-- Ranges of a manifest's work IDs, and writes to the table of cursors.
use acvjepa_project.Prelude.Int.{int_eq}
use acvjepa_project.Prelude.Table.{select_one, update}
use mathlib.Core.Option
use acvjepa_project.Prelude.{
  if◌then◌else◌, string_eq, nat_eq, ◌==◌, length, take, drop, ℕ, zero, suc, ◌-◌, String, ◌≡◌, refl,
  ap, ◌∙◌, List, [], ◌∷◌, arith, eq_iff,
}
use acvjepa_project.Cursor.{CommittedCursor, CursorRow}
use acvjepa_project.Cursor.Types.{WorkWindow, work_ids, between}

work_ids-take : (n : ℕ) (ws : List WorkWindow) → work_ids (take n ws) ≡ take n (work_ids ws)
work_ids-take zero ws = refl
work_ids-take (suc n) [] = refl
work_ids-take (suc n) (w ∷ ws) = ap (λ l. w.work_id ∷ l) (work_ids-take n ws)

work_ids-drop : (n : ℕ) (ws : List WorkWindow) → work_ids (drop n ws) ≡ drop n (work_ids ws)
work_ids-drop zero ws = refl
work_ids-drop (suc n) [] = refl
work_ids-drop (suc n) (w ∷ ws) = work_ids-drop n ws

pub work_ids-between :
    (s t : ℕ) (ws : List WorkWindow) → work_ids (between s t ws) ≡ between s t (work_ids ws)
work_ids-between s t ws = work_ids-take (t - s) (drop s ws) ∙ ap (take (t - s)) (work_ids-drop s ws)

pub length-work_ids : (ws : List WorkWindow) → length (work_ids ws) ≡ length ws
length-work_ids [] = refl
length-work_ids (w ∷ ws) = ap suc (length-work_ids ws)

-- Writing another cursor to one run's row.
pub cursor_of-update :
    (key other : String) (c : CommittedCursor) (rows : List CursorRow)
    → select_one
        (λ r. r.run_key == key)
        (update (λ r. r.run_key == other) (λ r. record r { cursor = c }) rows)
      ≡ (if other == key
          then Option.map
              (λ (r : CursorRow). record r { cursor = c })
              (select_one (λ r. r.run_key == key) rows)
          else select_one (λ r. r.run_key == key) rows)
cursor_of-update key other c [] = ground arith
cursor_of-update key other c (r ∷ rows) = ground (
  arith,
  cursor_of-update key other c rows,
  eq_iff other key,
  eq_iff r.run_key other,
  eq_iff r.run_key key,
)
