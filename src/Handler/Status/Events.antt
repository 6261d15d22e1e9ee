-- ===== src/Handler/Status/Events.antt =====
-- The text of a stream, as a client of server-sent events reads it.
use ol1n_super_app.Base.{
  append-nil, sym, All-append, ℕ, ◌≡◌, refl, ap, ◌∙◌, Bool, true, false, ◌&&◌, ◌||◌, none, some,
  List, [], ◌∷◌, ◌++◌, map, append_assoc, ◌==◌, if◌then◌else◌, Bytes, codes, arith, All, Bool-cases,
  inl, inr,
}
use ol1n_super_app.Go.Strings.{strip_prefix, is_nil, IsInline}
use ol1n_super_app.Db.Tables.{Ctx, Db, Job, ok}
use ol1n_super_app.Db.Jobs.{get_job}
use ol1n_super_app.Jobs.Worker.{Event}
use ol1n_super_app.Handler.Status.{
  Json, Input, peek_terminal, payload, frame, is_terminal, state_event, forward, stream_job_status,
}

abbrev value_of : Bytes → Bytes → Bytes
value_of line value = elim (strip_prefix (codes "data: ") line) [ none ↦ value | some v ↦ v ]

-- A line that ends sets the data, and an empty one dispatches it.
unfoldable pub read_events : (line value : Bytes) → Bytes → List Bytes
read_events line value [] = []
read_events line value (b ∷ bs) =
    let rest =
      read_events (if b == 10 then [] else line ++ (b ∷ []))
        (if b == 10 then (if is_nil line then [] else value_of line value) else value) bs in
    if b == 10 && is_nil line then value ∷ rest else rest

-- The events of a job, up to the first that ends it.
unfoldable pub through_terminal : List Event → List Event
through_terminal [] = []
through_terminal (e ∷ es) = if is_terminal e.status then e ∷ [] else e ∷ through_terminal es

unfoldable pub any_terminal : List Event → Bool
any_terminal [] = false
any_terminal (e ∷ es) = is_terminal e.status || any_terminal es

read_events-inline :
    (b : ℕ) (line value rest : Bytes)
    → IsInline b
    → read_events line value (b ∷ rest) ≡ read_events (line ++ (b ∷ [])) value rest
unfolding read_events
read_events-inline b line value rest (cr, lf) =
    let e : (b == 10) ≡ false = ground arith in rw e refl

read_events-line :
    (text line value rest : Bytes)
    → All IsInline text
    → read_events line value (text ++ rest) ≡ read_events (line ++ text) value rest
read_events-line [] line value rest h = ap (λ l. read_events l value rest) (sym (append-nil line))
read_events-line (b ∷ text) line value rest (hb, h) =
    read_events-inline b line value (text ++ rest) hb
    ∙ read_events-line text (line ++ (b ∷ [])) value rest h
    ∙ ap (λ l. read_events l value rest) (append_assoc line (b ∷ []) text)

read_events-ends :
    (text value rest : Bytes)
    → read_events (codes "data: " ++ text) value (10 ∷ 10 ∷ rest) ≡ text ∷ read_events [] [] rest
unfolding read_events strip_prefix
read_events-ends text value rest = refl

label-IsInline : All IsInline (codes "data: ")
label-IsInline = ground arith

read_events-frame :
    (text value rest : Bytes)
    → All IsInline text
    → read_events [] value (frame text ++ rest) ≡ text ∷ read_events [] [] rest
read_events-frame text value rest h =
    ap (λ l. read_events [] value (codes "data: " ++ l)) (append_assoc text (10 ∷ 10 ∷ []) rest)
    ∙ read_events-line (codes "data: " ++ text) [] value (10 ∷ 10 ∷ rest)
        (All-append IsInline (codes "data: ") text label-IsInline h)
    ∙ read_events-ends text value rest

-- An event whose text has no line break and gives back its status.
abbrev pub IsPlain : Json → Event → Type 0
IsPlain k e = (k.unmarshal_status (k.marshal e) ≡ some e.status) × All IsInline (k.marshal e)

abbrev pub published : Json → List Event → List Input
published k es = map (λ e. payload true (k.marshal e)) es

forward-published :
    (k : Json) (es : List Event) (value : Bytes)
    → All (IsPlain k) es
    → (read_events [] value (forward k (published k es)).0 ≡ map k.marshal (through_terminal es))
      × ((forward k (published k es)).1 ≡ any_terminal es)
unfolding forward through_terminal any_terminal read_events
forward-published k [] value h = (refl, refl)
forward-published k (e ∷ es) value ((peeked, plain), h) = elim (Bool-cases (is_terminal e.status)) [
  | inl t ↦
      let last : peek_terminal (k.unmarshal_status (k.marshal e)) ≡ true =
        ap peek_terminal peeked ∙ t in
      rw (last, t)
        (
          ap (read_events [] value) (sym (append-nil (frame (k.marshal e))))
              ∙ read_events-frame (k.marshal e) value [] plain,
          refl,
        )
  | inr t ↦
      let more : peek_terminal (k.unmarshal_status (k.marshal e)) ≡ false =
        ap peek_terminal peeked ∙ t in
      let (reads, ends) = forward-published k es [] h in
      rw (more, t)
        (read_events-frame (k.marshal e) value _ plain ∙ ap (◌∷◌ (k.marshal e)) reads, ends)
]

-- For a job that is stored, on a connection that takes every write, with events whose texts have no line
-- break and give back their status: the answer is 200; a client of server-sent events reads from the
-- body the row's state and then, unless that state is an end, the published events up to and with the
-- first that is an end, each once and in order; and the handler has returned exactly when the row or
-- one of the events is an end.
pub stream_job_status_lem :
    (k : Json) (c : Ctx) (id : Bytes) (db : Db) (j : Job) (es : List Event)
    → get_job c id db ≡ ok j
    → IsPlain k (state_event j)
    → All (IsPlain k) es
    → ((stream_job_status k true c id db true (published k es)).status ≡ 200)
      × (read_events [] [] (stream_job_status k true c id db true (published k es)).body
          ≡ map k.marshal
              (state_event j ∷ (if is_terminal j.status then [] else through_terminal es)))
      × ((stream_job_status k true c id db true (published k es)).returned
          ≡ is_terminal j.status || any_terminal es)
unfolding stream_job_status read_events
stream_job_status_lem k c id db j es found (peeked, plain) h =
    elim (Bool-cases (is_terminal j.status)) [
      | inl t ↦
          rw (found, t)
            (
              refl,
              ap (read_events [] []) (sym (append-nil (frame (k.marshal (state_event j)))))
                  ∙ read_events-frame (k.marshal (state_event j)) [] [] plain,
              refl,
            )
      | inr t ↦
          let (reads, ends) = forward-published k es [] h in
          rw (found, t)
            (
              refl,
              read_events-frame (k.marshal (state_event j)) [] _ plain
                  ∙ ap (◌∷◌ (k.marshal (state_event j))) reads,
              ends,
            )
    ]
