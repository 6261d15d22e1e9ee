-- ===== src/Jobs/Worker/Life.antt =====
-- What `Progress`, `begin_job` and the report of an error leave of the tables and the events.
use ol1n_super_app.Base.{
  Bool-cases, ◌≡◌, refl, inl, inr, if◌then◌else◌, ◌∙◌, Bool, true, false, some, List, [], ◌∷◌, ◌++◌,
  Bytes, arith, same,
}
use ol1n_super_app.Base.Ints.{ℤ}
use ol1n_super_app.Db.Tables.{refused, has_job, Job, Db, Ctx, ok, err, after, job_failed}
use ol1n_super_app.Db.Jobs.{
  update_jobs, find_job, update_job_status, update_job_progress, mark_job_failed,
}
use ol1n_super_app.Db.Artifacts.Promotion.{has_job_of}
use ol1n_super_app.Jobs.Worker.{no_event, Store, progress, report, begin_job}

-- The same artifacts, and jobs of the same artifacts.
abbrev pub SameRows : Db → Db → Type 0
SameRows d e =
    (d.foreign_keys ≡ e.foreign_keys)
    × (d.artifacts ≡ e.artifacts)
    × ((i : Bytes) → has_job_of i d.jobs ≡ has_job_of i e.jobs)
    × ((i : Bytes) → has_job i d.jobs ≡ has_job i e.jobs)

pub SameRows-refl : (d : Db) → SameRows d d
SameRows-refl d = (refl, refl, (λ i. refl), λ i. refl)

pub SameRows-trans : (d e f : Db) → SameRows d e → SameRows e f → SameRows d f
SameRows-trans d e f (a, b, c, d') (a', b', c', d'') =
    (a ∙ a', b ∙ b', (λ i. c i ∙ c' i), λ i. d' i ∙ d'' i)

has_job_of-update_jobs :
    (i id : Bytes) (change : Job → Job) (js : List Job)
    → ((j : Job) → (change j).artifact_id ≡ j.artifact_id)
    → has_job_of i (update_jobs id change js) ≡ has_job_of i js
unfolding has_job_of update_jobs
has_job_of-update_jobs i id change [] h = refl
has_job_of-update_jobs i id change (j ∷ js) h =
    ground (arith, h j, has_job_of-update_jobs i id change js h)

has_job-update_jobs :
    (i id : Bytes) (change : Job → Job) (js : List Job)
    → ((j : Job) → (change j).id ≡ j.id)
    → has_job i (update_jobs id change js) ≡ has_job i js
unfolding has_job update_jobs
has_job-update_jobs i id change [] h = refl
has_job-update_jobs i id change (j ∷ js) h =
    ground (arith, h j, has_job-update_jobs i id change js h)

after-exec {κ} :
    (P : Db → Type κ) (b : Bool) (d e : Db)
    → P d
    → P e
    → P (after d (if b then err refused else ok e))
after-exec P true d e hd he = hd
after-exec P false d e hd he = he

changed-SameRows :
    (b : Bool) (id : Bytes) (change : Job → Job) (d : Db)
    → ((j : Job) → (change j).artifact_id ≡ j.artifact_id)
    → ((j : Job) → (change j).id ≡ j.id)
    → SameRows
        (after d (if b then err refused else ok (record d { jobs = update_jobs id change d.jobs })))
        d
changed-SameRows b id change d h k =
    after-exec (λ e. SameRows e d) b d _ (SameRows-refl d)
      (
        refl,
        refl,
        (λ i. has_job_of-update_jobs i id change d.jobs h),
        λ i. has_job-update_jobs i id change d.jobs k,
      )

pub progress-SameRows :
    (c : Ctx) (id : Bytes) (pct : ℤ) (s : Store) → SameRows (progress c id pct s).db s.db
unfolding progress update_job_progress
progress-SameRows c id pct s = changed-SameRows c.refuses id _ s.db (λ j. refl) (λ j. refl)

pub begin_job-SameRows : (c : Ctx) (id : Bytes) (s : Store) → SameRows (begin_job c id s).db s.db
unfolding begin_job update_job_status
begin_job-SameRows c id s = changed-SameRows c.refuses id _ s.db (λ j. refl) (λ j. refl)

pub report-SameRows :
    (c : Ctx) (id text : Bytes) (s : Store) → SameRows (report c id text s).db s.db
unfolding report mark_job_failed
report-SameRows c id text s = changed-SameRows c.refuses id _ s.db (λ j. refl) (λ j. refl)

pub report-event :
    (c : Ctx) (id text : Bytes) (s : Store)
    → (report c id text s).events
      ≡ s.events ++ ((id, record no_event { status = job_failed; error = text }) ∷ [])
unfolding report
report-event c id text s = refl

-- The first row of an id behind an UPDATE of that id is the changed row.
find_job-update_jobs :
    (id : Bytes) (change : Job → Job) (js : List Job)
    → ((j : Job) → (change j).id ≡ j.id)
    → has_job id js ≡ true
    → (j : Job) × (find_job id (update_jobs id change js) ≡ ok (change j)) × (find_job id js ≡ ok j)
unfolding has_job update_jobs find_job
find_job-update_jobs id change [] k there = cc
find_job-update_jobs id change (j ∷ js) k there = elim (Bool-cases (same j.id id)) [
  | inl e ↦ (j, grind (arith, k j), grind arith)
  | inr e ↦
      let (i, x, y) = find_job-update_jobs id change js k (grind arith) in
      (i, grind (arith, k j), grind arith)
]

pub report-job :
    (c : Ctx) (id text : Bytes) (s : Store)
    → c.refuses ≡ false
    → has_job id s.db.jobs ≡ true
    → (j : Job) × (find_job id (report c id text s).db.jobs ≡ ok j)
      × (j.status ≡ job_failed)
      × (j.error_msg ≡ some text)
unfolding report mark_job_failed
report-job c id text s live there =
    let change : Job → Job =
      λ j. record j { status = job_failed; error_msg = some text; updated_at = c.now } in
    let (j, e, f) = find_job-update_jobs id change s.db.jobs (λ j. refl) there in
    (change j, rw live e, refl, refl)
