-- ===== src/Jobs/Worker/Slots/Bounded.antt =====
-- How many jobs run, and when `Wait` returns.
use ol1n_super_app.Base.{
  ◌⊎◌, ℕ, suc, zero, ◌+◌, ◌-◌, ◌≤◌, ◌≡◌, ◌≢◌, refl, ap, sym, ◌∙◌, false, some, List, [], ◌∷◌, ◌++◌,
  ltb, ◌==◌, arith, Bool-cases, inl, inr,
}
use ol1n_super_app.Base.Ints.{ℤ, pos, negsuc}
use ol1n_super_app.Jobs.Worker.{new_worker}
use ol1n_super_app.Jobs.Worker.Slots.{
  Slots, Phase, submitting, holding, working, returned, released, finished, Turn, take_slot, add,
  returns, release, done, turn, System, Step, taken, all_submitting, Reach, here, later,
}

-- Has it taken a slot that it has not given back; is it counted by the wait group; does its `Run` run?
abbrev pub has_slot : Phase → ℕ
has_slot holding = 1
has_slot working = 1
has_slot returned = 1
has_slot p = 0

abbrev pub is_added : Phase → ℕ
is_added working = 1
is_added returned = 1
is_added released = 1
is_added p = 0

abbrev pub is_working : Phase → ℕ
is_working working = 1
is_working p = 0

unfoldable pub count : (Phase → ℕ) → List Phase → ℕ
count w [] = 0
count w (p ∷ ps) = w p + count w ps

count-append :
    (w : Phase → ℕ) (before after : List Phase) (p : Phase)
    → count w (before ++ (p ∷ after)) ≡ w p + count w (before ++ after)
unfolding count
count-append w [] after p = refl
count-append w (q ∷ before) after p = omega (arith, count-append w before after p)

record IsCounted (cap : ℕ) (s : System) : Type 0 where
  slots_kept : s.slots.capacity ≡ cap
  slots_bounded : s.slots.sem ≤ cap
  slots_counted : s.slots.sem ≡ count has_slot s.jobs
  jobs_added : s.slots.wg ≡ count is_added s.jobs

-- What one turn does to the numbers; `h` and `a` count the other jobs.
record Fits (cap h a : ℕ) (s : Slots) (p : Phase) : Type 0 where
  slots_kept : s.capacity ≡ cap
  slots_bounded : s.sem ≤ cap
  slots_counted : s.sem ≡ has_slot p + h
  jobs_added : s.wg ≡ is_added p + a

turn-Fits :
    (cap h a : ℕ) (t : Turn) (s : Slots) (p : Phase) {s' : Slots} {q : Phase}
    → turn t s p ≡ some (s', q)
    → Fits cap h a s p
    → Fits cap h a s' q
unfolding turn
turn-Fits cap h a t s p e f = ground arith

Step-IsCounted : (cap : ℕ) (s s' : System) → Step s s' → IsCounted cap s → IsCounted cap s'
Step-IsCounted cap s s' (taken before after t p {q} {slots} at e) h =
    let f =
      turn-Fits cap (count has_slot (before ++ after)) (count is_added (before ++ after)) t s.slots
        p e
        (record {
          slots_kept = h.slots_kept;
          slots_bounded = h.slots_bounded;
          slots_counted =
              h.slots_counted ∙ ap (count has_slot) at ∙ count-append has_slot before after p;
          jobs_added = h.jobs_added ∙ ap (count is_added) at ∙ count-append is_added before after p;
        }) in
    record {
      slots_kept = f.slots_kept;
      slots_bounded = f.slots_bounded;
      slots_counted = f.slots_counted ∙ sym (count-append has_slot before after q);
      jobs_added = f.jobs_added ∙ sym (count-append is_added before after q);
    }

count-all_submitting : (w : Phase → ℕ) (n : ℕ) → w submitting ≡ 0 → count w (all_submitting n) ≡ 0
unfolding count
count-all_submitting w zero h = refl
count-all_submitting w (suc n) h = omega (arith, h, count-all_submitting w n h)

Reach-IsCounted : (k : ℤ) (n : ℕ) {s : System} → Reach k n s → IsCounted (new_worker k) s
Reach-IsCounted k n here = record {
  slots_kept = refl;
  slots_bounded = omega arith;
  slots_counted = sym (count-all_submitting has_slot n refl);
  jobs_added = sym (count-all_submitting is_added n refl);
}
Reach-IsCounted k n (later {s} {s'} r step) =
    Step-IsCounted (new_worker k) s s' step (Reach-IsCounted k n r)

count_mono :
    (v w : Phase → ℕ) (ps : List Phase) → ((p : Phase) → v p ≤ w p) → count v ps ≤ count w ps
unfolding count
count_mono v w [] h = omega arith
count_mono v w (p ∷ ps) h = omega (arith, h p, count_mono v w ps h)

working_slot : (p : Phase) → is_working p ≤ has_slot p
working_slot p = ground arith

working_added : (p : Phase) → is_working p ≤ is_added p
working_added p = ground arith

-- A job that can take a turn.
abbrev pub Progress : System → Type 0
Progress s =
    (before : List Phase) × (after : List Phase) × (p : Phase) × (t : Turn) × (slots : Slots)
    × (q : Phase) × (s.jobs ≡ before ++ (p ∷ after))
    × (turn t s.slots p ≡ some (slots, q))

abbrev pub is_unfinished : Phase → ℕ
is_unfinished finished = 0
is_unfinished p = 1

find_job :
    (w : Phase → ℕ) (ps : List Phase)
    → (count w ps ≡ 0)
      ⊎ ((before : List Phase) × (after : List Phase) × (p : Phase) × (ps ≡ before ++ (p ∷ after))
          × (w p ≢ 0))
unfolding count
find_job w [] = inl refl
find_job w (p ∷ ps) = elim (Bool-cases (w p == 0)) [
  | inr e ↦ inr ([], ps, p, refl, ground (arith, e))
  | inl e ↦ elim (find_job w ps) [
    | inl none_left ↦
        let nothing : w p ≡ 0 = ground (arith, e) in inl (omega (arith, nothing, none_left))
    | inr (before, after, q, at, h) ↦ inr (p ∷ before, after, q, ap (◌∷◌ p) at, h)
  ]
]

module _ (s : System) (counted : s.slots.sem ≡ count has_slot s.jobs)
    (before after : List Phase) where
  slot_taken : (p : Phase) → s.jobs ≡ before ++ (p ∷ after) → has_slot p ≤ s.slots.sem
  slot_taken p at =
      omega (arith, counted, ap (count has_slot) at, count-append has_slot before after p)

  held-Progress : (p : Phase) → s.jobs ≡ before ++ (p ∷ after) → has_slot p ≢ 0 → Progress s
  unfolding turn
  held-Progress holding at h = (before, after, holding, add, _, _, at, refl)
  held-Progress working at h = (before, after, working, returns, _, _, at, refl)
  held-Progress returned at h =
      let taken' : (s.slots.sem == 0) ≡ false = ground (arith, slot_taken returned at) in
      (
        before,
        after,
        returned,
        release,
        record s.slots { sem = s.slots.sem - 1 },
        released,
        at,
        rw taken' refl,
      )
  held-Progress submitting at h = absurd (h refl)
  held-Progress released at h = absurd (h refl)
  held-Progress finished at h = absurd (h refl)

unfinished-Progress :
    (s : System) (before after : List Phase) (p : Phase)
    → 1 ≤ s.slots.capacity
    → s.slots.sem ≡ count has_slot s.jobs
    → s.jobs ≡ before ++ (p ∷ after)
    → is_unfinished p ≢ 0
    → Progress s
unfolding turn
unfinished-Progress s before after holding c k at h =
    held-Progress s k before after holding at (omega arith)
unfinished-Progress s before after working c k at h =
    held-Progress s k before after working at (omega arith)
unfinished-Progress s before after returned c k at h =
    held-Progress s k before after returned at (omega arith)
unfinished-Progress s before after released c k at h =
    (before, after, released, done, _, _, at, refl)
unfinished-Progress s before after finished c k at h = absurd (h refl)
unfinished-Progress s before after submitting c k at h =
    elim (Bool-cases (ltb s.slots.sem s.slots.capacity)) [
      | inl room ↦ (
        before,
        after,
        submitting,
        take_slot,
        record s.slots { sem = s.slots.sem + 1 },
        holding,
        at,
        rw room refl,
      )
      | inr full ↦ elim (find_job has_slot s.jobs) [
        | inl none_held ↦
            let more : s.slots.capacity ≤ s.slots.sem = ground (arith, full) in
            absurd (omega (arith, more, c, k, none_held))
        | inr (b, a, q, at', held) ↦ held-Progress s k b a q at' held
      ]
    ]

new_worker-positive : (k : ℤ) → 1 ≤ new_worker k
new_worker-positive (pos n) = ground arith
new_worker-positive (negsuc n) = ground arith

-- In every state that any number of jobs can come to, in any order, on a worker made with any number: at
-- most as many jobs run as it has slots; no more run than the wait group counts, so that `Wait` does not
-- return while one runs; and unless every job has ended, one can go on.
pub slots_lem :
    (k : ℤ) (n : ℕ) {s : System}
    → Reach k n s
    → (count is_working s.jobs ≤ new_worker k)
      × (count is_working s.jobs ≤ s.slots.wg)
      × ((count is_unfinished s.jobs ≡ 0) ⊎ Progress s)
slots_lem k n {s} r =
    let h = Reach-IsCounted k n r in
    let bound = count_mono is_working has_slot s.jobs working_slot in
    let added = count_mono is_working is_added s.jobs working_added in
    (
      omega (arith, bound, h.slots_counted, h.slots_bounded),
      omega (arith, added, h.jobs_added),
      elim (find_job is_unfinished s.jobs) [
        | inl all_ended ↦ inl all_ended
        | inr (before, after, p, at, unfinished) ↦ inr (
            unfinished-Progress s before after p
              (omega (arith, new_worker-positive k, h.slots_kept)) h.slots_counted at unfinished)
      ],
    )
