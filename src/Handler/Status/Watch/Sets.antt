-- ===== src/Handler/Status/Watch/Sets.antt =====
-- Who stands in the set of a key, while others come and go; and the row that `MarkJobDone` or `MarkJobFailed` leaves.
use ol1n_super_app.Base.{
  ℕ, ◌≡◌, refl, subst, Bool, true, false, ◌||◌, List, [], ◌∷◌, ◌==◌, Bytes, same, same_iff, arith,
  Bool-cases, inl, inr,
}
use ol1n_super_app.Sse.Broker.{
  subscribers, add_subscriber, delete, keep_unless_empty, remove_subscriber,
}
use ol1n_super_app.Db.Tables.{Db, Job, Ctx, ok}
use ol1n_super_app.Db.Jobs.{find_job, update_jobs, mark_job_done, mark_job_failed}
use ol1n_super_app.Db.Integrity.Statements.{exec-ok, ok-injective}
use ol1n_super_app.Handler.Status.Watch.{row_ends}

unfoldable pub stands_in : ℕ → List ℕ → Bool
stands_in ch [] = false
stands_in ch (c ∷ cs) = (c == ch) || stands_in ch cs

pub stands_in-added :
    (key : Bytes) (ch : ℕ) (subs : List (Bytes × List ℕ))
    → stands_in ch (subscribers key (add_subscriber key ch subs)) ≡ true
unfolding stands_in subscribers add_subscriber
stands_in-added key ch [] = rw ((same_iff key key).1 refl) (ground arith)
stands_in-added key ch ((k, set) ∷ rest) = elim (Bool-cases (same k key)) [
  | inl e ↦ rw (e, e) (ground arith)
  | inr e ↦ rw (e, e) (stands_in-added key ch rest)
]

pub stands_in-add_subscriber :
    (key key' : Bytes) (ch ch' : ℕ) (subs : List (Bytes × List ℕ))
    → stands_in ch (subscribers key subs) ≡ true
    → stands_in ch (subscribers key (add_subscriber key' ch' subs)) ≡ true
unfolding stands_in subscribers add_subscriber
stands_in-add_subscriber key key' ch ch' [] h = absurd (cc h)
stands_in-add_subscriber key key' ch ch' ((k, set) ∷ rest) h = elim (Bool-cases (same k key')) [
  | inl e ↦ elim (Bool-cases (same k key)) [
    | inl e' ↦ rw (e, e') (ground (arith, rw e' at h))
    | inr e' ↦ rw (e, e') (rw e' at h)
  ]
  | inr e ↦ elim (Bool-cases (same k key)) [
    | inl e' ↦ rw (e, e') (rw e' at h)
    | inr e' ↦ rw (e, e') (stands_in-add_subscriber key key' ch ch' rest (rw e' at h))
  ]
]

stands_in-delete :
    (ch ch' : ℕ) (set : List ℕ)
    → (ch == ch') ≡ false
    → stands_in ch set ≡ true
    → stands_in ch (delete ch' set) ≡ true
unfolding stands_in delete
stands_in-delete ch ch' [] ne h = h
stands_in-delete ch ch' (c ∷ set) ne h = ground (arith, stands_in-delete ch ch' set ne)

stands_in-keep :
    (key k : Bytes) (ch : ℕ) (set : List ℕ) (rest : List (Bytes × List ℕ))
    → same k key ≡ true
    → stands_in ch set ≡ true
    → stands_in ch (subscribers key (keep_unless_empty k set rest)) ≡ true
unfolding stands_in subscribers
stands_in-keep key k ch [] rest e h = absurd (cc h)
stands_in-keep key k ch (c ∷ set) rest e h = rw e h

subscribers-keep :
    (key k : Bytes) (set : List ℕ) (rest : List (Bytes × List ℕ))
    → same k key ≡ false
    → subscribers key (keep_unless_empty k set rest) ≡ subscribers key rest
unfolding subscribers
subscribers-keep key k [] rest e = refl
subscribers-keep key k (c ∷ set) rest e = rw e refl

pub stands_in-remove_subscriber :
    (key key' : Bytes) (ch ch' : ℕ) (subs : List (Bytes × List ℕ))
    → (ch == ch') ≡ false
    → stands_in ch (subscribers key subs) ≡ true
    → stands_in ch (subscribers key (remove_subscriber key' ch' subs)) ≡ true
unfolding subscribers remove_subscriber
stands_in-remove_subscriber key key' ch ch' [] ne h = h
stands_in-remove_subscriber key key' ch ch' ((k, set) ∷ rest) ne h =
    elim (Bool-cases (same k key')) [
      | inl e ↦ elim (Bool-cases (same k key)) [
        | inl e' ↦ rw e (
            stands_in-keep key k ch (delete ch' set) rest e'
              (stands_in-delete ch ch' set ne (rw e' at h)))
        | inr e' ↦ rw (e, subscribers-keep key k (delete ch' set) rest e') (rw e' at h)
      ]
      | inr e ↦ elim (Bool-cases (same k key)) [
        | inl e' ↦ rw (e, e') (rw e' at h)
        | inr e' ↦ rw (e, e') (stands_in-remove_subscriber key key' ch ch' rest ne (rw e' at h))
      ]
    ]

row_ends-update_jobs :
    (id : Bytes) (change : Job → Job) (js : List Job)
    → ((j : Job) → (change j).id ≡ j.id)
    → ((j : Job) → row_ends (ok (change j)) ≡ true)
    → row_ends (find_job id (update_jobs id change js)) ≡ true
unfolding find_job update_jobs
row_ends-update_jobs id change [] i s = refl
row_ends-update_jobs id change (j ∷ js) i s = elim (Bool-cases (same j.id id)) [
  | inl e ↦ rw (e, i j, e) (s j)
  | inr e ↦ rw (e, e) (row_ends-update_jobs id change js i s)
]

pub row_ends-mark_job_done :
    (c : Ctx) (id url : Bytes) (db db' : Db)
    → mark_job_done c id url db ≡ ok db'
    → row_ends (find_job id db'.jobs) ≡ true
unfolding mark_job_done same
row_ends-mark_job_done c id url db db' e =
    subst (λ d. row_ends (find_job id d.jobs) ≡ true) (ok-injective (exec-ok c _ db' e))
      (row_ends-update_jobs id _ db.jobs (λ j. refl) (λ j. refl))

pub row_ends-mark_job_failed :
    (c : Ctx) (id msg : Bytes) (db db' : Db)
    → mark_job_failed c id msg db ≡ ok db'
    → row_ends (find_job id db'.jobs) ≡ true
unfolding mark_job_failed same
row_ends-mark_job_failed c id msg db db' e =
    subst (λ d. row_ends (find_job id d.jobs) ≡ true) (ok-injective (exec-ok c _ db' e))
      (row_ends-update_jobs id _ db.jobs (λ j. refl) (λ j. refl))
