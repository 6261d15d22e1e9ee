-- ===== src/Tests/Workers.antt =====
-- ol1n-vault/internal/jobs/worker.go: the slots at a concrete state.
use ol1n_super_app.Base.{◌≤◌, ◌≡◌, refl, ◌⊎◌, [], ◌∷◌}
use ol1n_super_app.Base.Ints.{pos}
use ol1n_super_app.Jobs.Worker.{new_worker}
use ol1n_super_app.Jobs.Worker.Slots.{
  System, Reach, here, later, taken, turn, submitting, working, holding, take_slot, add,
}
use ol1n_super_app.Jobs.Worker.Slots.Bounded.{count, is_working, is_unfinished, Progress, slots_lem}

-- One slot, taken by the first of two jobs.
abbrev one_runs : System
one_runs = record {
  slots = record { capacity = 1; sem = 1; wg = 1 };
  jobs = working ∷ submitting ∷ [];
}

one_runs_reached : Reach (pos 1) 2 one_runs
unfolding turn
one_runs_reached =
    later (later here (taken [] (submitting ∷ []) take_slot submitting refl refl))
      (taken [] (submitting ∷ []) add holding refl refl)

slots_lem_example :
    (count is_working one_runs.jobs ≤ new_worker (pos 1))
    × (count is_working one_runs.jobs ≤ one_runs.slots.wg)
    × ((count is_unfinished one_runs.jobs ≡ 0) ⊎ Progress one_runs)
slots_lem_example = slots_lem (pos 1) 2 one_runs_reached
