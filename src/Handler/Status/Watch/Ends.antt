-- ===== src/Handler/Status/Watch/Ends.antt =====
-- No client waits for the end of a job in vain, but one whose channel was full.
use ol1n_super_app.Base.{ℕ, ◌≡◌, ap, sym, subst, ◌∙◌, true, ◌||◌, List, [], Bytes, arith}
use ol1n_super_app.Sse.Broker.{Broker, subscribe, unregister, snapshot}
use ol1n_super_app.Db.Tables.{Db, Job, Result}
use ol1n_super_app.Handler.Status.Watch.{
  buffer_of, looping, sending, Watch, start, row_ends, Step, Steps, subscribes, reads, receives,
  progresses, saves, saves_failure, copies, sends, other_subscribes, other_leaves, other_closes,
  other_sends, other_receives, other_statement, none_yet, next,
}
use ol1n_super_app.Handler.Status.Watch.Buffers.{holds, Within-some, make-Holds, receive_others}
use ol1n_super_app.Handler.Status.Watch.Sets.{
  stands_in, stands_in-added, stands_in-add_subscriber, stands_in-remove_subscriber,
  row_ends-mark_job_done, row_ends-mark_job_failed,
}
use ol1n_super_app.Handler.Status.Watch.Kept.{
  Saved, Watched, IsWatched, send_one-snapshot, send_one-Holds, close_channel-snapshot,
  close_channel-Holds,
}
use ol1n_super_app.Handler.Status.Watch.Moves.{
  Saved-row, other_channel, eq_false, IsWatched-broker, IsWatched-receives, IsWatched-reads,
  IsWatched-saves, IsWatched-copies, IsWatched-sends,
}

Step-IsWatched :
    (id final : Bytes) (w v : Watch)
    → Step id final w v
    → IsWatched id final w
    → IsWatched id final v
unfolding subscribe unregister snapshot
Step-IsWatched id final w v (subscribes at) h = record {
  row_saved = h.row_saved;
  client_watched = stands_in-added id _ w.broker.subs;
}
Step-IsWatched id final w v (reads c ch at e) h = IsWatched-reads id final w h c ch at e
Step-IsWatched id final w v (receives ch row got raw cs at e) h =
    IsWatched-receives id final w h ch row got raw cs at e
Step-IsWatched id final w v (progresses c pct db at e) h = record {
  row_saved = subst (Saved id db) (sym at) tt;
  client_watched = h.client_watched;
}
Step-IsWatched id final w v (saves c url db at e) h =
    IsWatched-saves id final w h db (row_ends-mark_job_done c id url w.db db e)
Step-IsWatched id final w v (saves_failure c msg db at e) h =
    IsWatched-saves id final w h db (row_ends-mark_job_failed c id msg w.db db e)
Step-IsWatched id final w v (copies at) h = IsWatched-copies id final w h at
Step-IsWatched id final w v (sends ch chs b at e) h = IsWatched-sends id final w h ch chs b at e
Step-IsWatched id final w v (other_subscribes key) h =
    IsWatched-broker id final w h _
      (λ i own there. stands_in-add_subscriber id key i _ w.broker.subs there)
      (λ i own waits. make-Holds final 16 i w.broker.chans waits)
Step-IsWatched id final w v (other_leaves key ch not_own) h =
    IsWatched-broker id final w h _
      (λ i own there.
        stands_in-remove_subscriber id key i ch w.broker.subs
          (other_channel ch i w.client own not_own) there)
      (λ i own waits. waits)
Step-IsWatched id final w v (other_closes ch b not_own e) h =
    IsWatched-broker id final w h b
      (λ i own there. ap (stands_in i) (close_channel-snapshot id ch w.broker b e) ∙ there)
      (λ i own waits. close_channel-Holds final ch i w.broker b e waits)
Step-IsWatched id final w v (other_sends raw ch b e) h =
    IsWatched-broker id final w h b
      (λ i own there. ap (stands_in i) (send_one-snapshot id raw ch w.broker b e) ∙ there)
      (λ i own waits. send_one-Holds final raw ch i w.broker b e waits)
Step-IsWatched id final w v (other_receives ch raw cs not_own e) h =
    IsWatched-broker id final w h _ (λ i own there. there)
      (λ i own waits.
        Within-some _ _ (raw, cs) e
          (receive_others final ch i w.broker.chans
            (eq_false i ch (other_channel ch i w.client own not_own)) waits))
Step-IsWatched id final w v (other_statement db e) h = record {
  row_saved = Saved-row id w.db db w.publisher e h.row_saved;
  client_watched = h.client_watched;
}

Steps-IsWatched :
    (id final : Bytes) (w v : Watch)
    → Steps id final w v
    → IsWatched id final w
    → IsWatched id final v
Steps-IsWatched id final w v none_yet h = h
Steps-IsWatched id final w v (next {v = u} s t) h =
    Step-IsWatched id final u v t (Steps-IsWatched id final w u s h)

-- From any tables and any broker, with a worker that ends the job by a `MarkJobDone` or a `MarkJobFailed`
-- that goes through and then publishes `final`, a client of its stream, and other users of the broker and
-- the tables, who leave the job's row as it is, in any order: when the worker has sent to every
-- subscriber that it copied, and the client is in its loop, then the row that the client read was an
-- end, or it has received `final`, or `final` waits in its channel, or its channel was full when
-- `final` was sent to it.
pub stream_ends :
    (id final : Bytes) (db : Db) (b : Broker) (w : Watch) (ch : ℕ) (row : Result Job)
    (got : List Bytes)
    → Steps id final (start db b) w
    → w.client ≡ looping ch row got
    → w.publisher ≡ sending []
    → row_ends row || holds final got || holds final (buffer_of ch w.broker.chans) || w.dropped
      ≡ true
unfolding stands_in
stream_ends id final db b w ch row got s at sent =
    let watched =
      Steps-IsWatched id final (start db b) w s (record { row_saved = tt; client_watched = tt }) in
    let at_client =
      subst (Watched id final w.broker w.dropped w.publisher) at watched.client_watched in
    let announced =
      (subst (λ p. Watched id final w.broker w.dropped p (looping ch row got)) sent at_client).1 in
    ground (arith, announced)
