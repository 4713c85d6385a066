-- ===== src/Consumer/Rounds.antt =====
-- The loop of `Run` in internal/consumer/consumer.go. What the client returns in a round is an input.
pub mod Commit
pub mod Delivered
pub mod Settled
pub mod Steady
pub mod Redis
pub mod Standing
pub mod Batch
pub mod History
pub mod Outcome
use sluice_gate_telemetery_i.Base.{ℕ, ℤ, negsuc, Bytes, List, [], ◌∷◌, ◌++◌, Option, none, some}
use sluice_gate_telemetery_i.Event.{Event, PoisonedEvent, Error, marshal_event}
use sluice_gate_telemetery_i.Dlq.{Letter}
use sluice_gate_telemetery_i.Consumer.{
  Env, Consumer, Metrics, fetch_error, flush_error, commit_error, inc_if, say, send_to_dlq,
  handle_batch,
}

-- What `PollFetches` comes back with: the context is done, the client is closed, or fetch errors and
-- records. `commit` is the result of the round's commit, if it makes one.
pub data Round : Type 0 where
  cancelled : Error → Round
  client_closed : Round
  fetched : List Error → List Letter → Option Error → Round

pub data Ended : Type 0 where
  waiting returned_nil : Ended
  returned : Error → Ended

module _ (v : Env) where
  unfoldable pub log_fetch_errors : List Error → Consumer v → Consumer v
  log_fetch_errors [] c = c
  log_fetch_errors (x ∷ xs) c = log_fetch_errors xs (say v (fetch_error x) c)

  -- The records that the client hands out count as polled, and a commit covers all of those.
  abbrev pub poll : List Letter → Consumer v → Consumer v
  poll ls c = record c { polled = c.polled ++ ls }

  unfoldable pub flush_sink : Consumer v → Consumer v × Option Error
  flush_sink c = elim v.sink.flusher [
    | none ↦ (c, none)
    | some f ↦ (
      record c {
        sink = (f c.sink).0;
        metrics = record (c.metrics) { flushes = inc_if v.metrics c.metrics.flushes };
      },
      (f c.sink).1,
    )
  ]

  unfoldable pub poison_letter : PoisonedEvent → Letter
  poison_letter p = record {
    topic = v.topic;
    partition = negsuc 0;
    offset = negsuc 0;
    key = p.event.device_id;
    value = marshal_event v.proto p.event;
  }

  unfoldable pub send_poisoned : List PoisonedEvent → Consumer v → Consumer v
  unfolding poison_letter
  send_poisoned [] c = c
  send_poisoned (p ∷ ps) c = send_poisoned ps (send_to_dlq v (poison_letter p) p.cause c)

  unfoldable pub report_poisoned : Consumer v → Consumer v
  unfolding send_poisoned
  report_poisoned c = elim v.sink.poison_reporter [
    | none ↦ c
    | some g ↦ send_poisoned (g c.sink).1 (record c { sink = (g c.sink).0 })
  ]

  unfoldable pub commit_offsets : Option Error → Consumer v → Consumer v
  commit_offsets none c = record c { committed = c.polled }
  commit_offsets (some x) c = say v (commit_error x) c

  -- Behind `handleBatch`: a flush error ends the round ahead of the commit.
  unfoldable pub finish : Option Error → Consumer v → Consumer v
  unfolding flush_sink report_poisoned commit_offsets
  finish r c = elim (flush_sink c).1 [
    | some x ↦ say v (flush_error x) (flush_sink c).0
    | none ↦ commit_offsets r (report_poisoned (flush_sink c).0)
  ]

  unfoldable pub round : List Error → List Letter → Option Error → Consumer v → Consumer v
  unfolding log_fetch_errors finish
  round xs ls r c = finish r (handle_batch v ls (log_fetch_errors xs (poll ls c)))

  -- The rounds until the loop returns, or those that the client has answered so far.
  unfoldable pub run : List Round → Consumer v → Consumer v × Ended
  unfolding round
  run [] c = (c, waiting)
  run (cancelled x ∷ rs) c = (c, returned x)
  run (client_closed ∷ rs) c = (c, returned_nil)
  run (fetched xs ls r ∷ rs) c = run rs (round xs ls r c)
