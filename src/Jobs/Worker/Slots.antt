-- ===== src/Jobs/Worker/Slots.antt =====
-- worker.go: the slots that `Submit` takes and gives back, and `Wait`. The channel `sem` is the number of
-- values in it, the wait group its counter. Each job is submitted by a goroutine of its own.
pub mod Bounded
use ol1n_super_app.Base.{
  ℕ, suc, zero, ◌+◌, ◌-◌, ◌≡◌, Bool, true, false, Option, none, some, List, [], ◌∷◌, ◌++◌, ltb,
  ◌==◌, if◌then◌else◌,
}
use ol1n_super_app.Base.Ints.{ℤ}
use ol1n_super_app.Jobs.Worker.{new_worker}

pub record Slots : Type 0 where
  pub capacity : ℕ
  pub sem : ℕ
  pub wg : ℕ

abbrev pub new_slots : ℤ → Slots
new_slots concurrency = record { capacity = new_worker concurrency; sem = 0; wg = 0 }

-- Where a job stands: at `w.sem <-`; before `w.wg.Add`; in its goroutine; before the deferred `<-w.sem`;
-- before the deferred `w.wg.Done`; at its end.
pub data Phase : Type 0 where
  submitting holding working returned released finished : Phase

pub data Turn : Type 0 where
  take_slot add returns release done : Turn

-- `none`: the channel blocks, or the job stands elsewhere.
unfoldable pub turn : Turn → Slots → Phase → Option (Slots × Phase)
turn take_slot s submitting =
    if ltb s.sem s.capacity then some (record s { sem = s.sem + 1 }, holding) else none
turn add s holding = some (record s { wg = s.wg + 1 }, working)
turn returns s working = some (s, returned)
turn release s returned = if s.sem == 0 then none else some (record s { sem = s.sem - 1 }, released)
turn done s released = some (record s { wg = s.wg - 1 }, finished)
turn t s p = none

-- `Wait` returns.
abbrev pub wait_returns : Slots → Bool
wait_returns s = s.wg == 0

pub record System : Type 0 where
  pub slots : Slots
  pub jobs : List Phase

pub data Step (s : System) : System → Type 0 where
  taken :
      (before after : List Phase) (t : Turn) (p : Phase) {q : Phase} {slots : Slots}
      → s.jobs ≡ before ++ (p ∷ after)
      → turn t s.slots p ≡ some (slots, q)
      → Step s (record { slots = slots; jobs = before ++ (q ∷ after) })

abbrev pub all_submitting : ℕ → List Phase
all_submitting zero = []
all_submitting (suc n) = submitting ∷ all_submitting n

-- The states that `n` jobs can come to.
pub data Reach (concurrency : ℤ) (n : ℕ) : System → Type 0 where
  here : Reach concurrency n (record { slots = new_slots concurrency; jobs = all_submitting n })
  later : {s s' : System} → Reach concurrency n s → Step s s' → Reach concurrency n s'
