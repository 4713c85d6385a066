-- ===== src/Consumer.antt =====
-- internal/consumer/consumer.go: decode a fetched batch, check it for duplicates, persist the rest,
-- flush, hand over what the sink has set aside, commit.
pub mod Tally
pub mod NoLoss
pub mod Keys
pub mod Unseen
pub mod Once
pub mod Replay
pub mod Frame
pub mod Rounds
pub mod Reporting
use sluice_gate_telemetery_i.Base.{
  ℕ, suc, ◌+◌, ℤ, negsuc, Bytes, ◌≡◌, refl, List, [], ◌∷◌, ◌++◌, map, Bool, true, false, Option,
  none, some, attempts, add_u64, if◌then◌else◌,
}
use sluice_gate_telemetery_i.Event.{
  Event, PoisonedEvent, Error, Proto, Result, ok, err, decode_record, marshal_event,
}
use sluice_gate_telemetery_i.Retry.{Loop, last_err, retry}
use sluice_gate_telemetery_i.Broker.{Broker}
use sluice_gate_telemetery_i.Sink.{Sink}
use sluice_gate_telemetery_i.Dedup.{Redis, seen_batch}
use sluice_gate_telemetery_i.Dlq.{Letter, send}

-- The settings, with whether `dedup`, `dlq` and `metrics` are there (not nil).
pub record Config : Type 0 where
  pub topic : Bytes
  pub dlq_topic : Bytes
  pub max_retries : ℤ
  pub dedup : Bool
  pub dlq : Bool
  pub metrics : Bool

-- What a consumer works with.
pub record Env : Type 1 where
  pub proto : Proto
  pub SinkState : Type 0
  pub sink : Sink SinkState
  pub redis : Redis
  pub broker : Broker
  pub config : Config
  pub open config use *

-- The lines that it logs.
pub data Line : Type 0 where
  unmarshal_error dedup_error sink_write_error no_dlq dlq_failed : Error → Line
  persist_failed : ℤ → Error → Line
  fetch_error flush_error commit_error : Error → Line

-- The collectors of metrics.Consumer that count.
pub record Metrics : Type 0 where
  pub consumed_total : ℕ
  pub dedup_dropped_total : ℕ
  pub dlq_total : ℕ
  pub flushes : ℕ

-- A decoded record keeps where it came from: a kgo.Record is a `Letter`.
pub record DecodedRecord : Type 0 where
  pub record_ : Letter
  pub event : Event

abbrev pub inc_if : Bool → ℕ → ℕ
inc_if true n = n + 1
inc_if false n = n

module _ (v : Env) where
  -- The consumer with the systems that it writes to. `log` has the newest line first; `polled` and
  -- `committed` are the records that the client has handed out and that its group has committed.
  pub record Consumer : Type 0 where
    pub sink : v.SinkState
    pub redis : v.redis.State
    pub dlq : v.broker.State
    pub consumed : ℕ
    pub deduped : ℕ
    pub dlq_sent : ℕ
    pub metrics : Metrics
    pub log : List Line
    pub polled : List Letter
    pub committed : List Letter

  -- `New`, with its counters at zero; the client is one that has handed out nothing yet.
  unfoldable pub new : v.SinkState → v.redis.State → v.broker.State → Consumer
  new sink redis dlq = record {
    sink = sink;
    redis = redis;
    dlq = dlq;
    consumed = 0;
    deduped = 0;
    dlq_sent = 0;
    metrics = record { consumed_total = 0; dedup_dropped_total = 0; dlq_total = 0; flushes = 0 };
    log = [];
    polled = [];
    committed = [];
  }

  abbrev pub say : Line → Consumer → Consumer
  say l c = record c { log = l ∷ c.log }

  unfoldable pub count_consumed : Consumer → Consumer
  count_consumed c = record c {
    consumed = add_u64 c.consumed 1;
    metrics = record (c.metrics) { consumed_total = inc_if v.metrics c.metrics.consumed_total };
  }

  unfoldable pub count_deduped : Consumer → Consumer
  count_deduped c = record c {
    deduped = add_u64 c.deduped 1;
    metrics = record (c.metrics) {
      dedup_dropped_total = inc_if v.metrics c.metrics.dedup_dropped_total;
    };
  }

  unfoldable pub count_dlq : Consumer → Consumer
  count_dlq c = record c {
    dlq_sent = add_u64 c.dlq_sent 1;
    metrics = record (c.metrics) { dlq_total = inc_if v.metrics c.metrics.dlq_total };
  }

  unfoldable pub deliver : Letter → Error → Consumer → Consumer
  unfolding count_dlq
  deliver l cause c =
      let r = send v.broker v.dlq_topic l cause c.dlq in
      elim r.1 [
        | none ↦ count_dlq (record c { dlq = r.0 })
        | some x ↦ say (dlq_failed x) (record c { dlq = r.0 })
      ]

  unfoldable pub send_to_dlq : Letter → Error → Consumer → Consumer
  unfolding deliver
  send_to_dlq l cause c = if v.dlq then deliver l cause c else say (no_dlq cause) c

  -- The branch of `persist` for a sink that reports poison.
  unfoldable pub persist_buffered : Event → Consumer → Consumer
  unfolding count_consumed
  persist_buffered e c =
      let r = v.sink.write e c.sink in
      let c' : Consumer = record c { sink = r.0 } in
      count_consumed (elim r.1 [ none ↦ c' | some x ↦ say (sink_write_error x) c' ])

  -- The branch with retries.
  unfoldable pub persist_retried : Letter → Event → Consumer → Consumer
  unfolding count_consumed
  persist_retried l e c =
      let r = retry (attempts v.max_retries) (v.sink.write e) c.sink none in
      let c' : Consumer = record c { sink = r.0 } in
      elim (last_err r.1) [
        | none ↦ count_consumed c'
        | some x ↦ send_to_dlq l x (say (persist_failed v.max_retries x) c')
      ]

  unfoldable pub persist : Letter → Event → Consumer → Consumer
  unfolding persist_buffered persist_retried
  persist l e c = elim v.sink.poison_reporter [
    | some _ ↦ persist_buffered e c
    | none ↦ persist_retried l e c
  ]

  -- The first loop of `handleBatch`.
  unfoldable pub decode_all : List Letter → Consumer → Consumer × List DecodedRecord
  decode_all [] c = (c, [])
  decode_all (l ∷ ls) c = elim (decode_record v.proto l.value) [
    | err x ↦ decode_all ls (send_to_dlq l x (say (unmarshal_error x) c))
    | ok e ↦ ((decode_all ls c).0, record { record_ = l; event = e } ∷ (decode_all ls c).1)
  ]

  abbrev pub keys_of : List DecodedRecord → List Bytes
  keys_of = map (λ d. d.event.idempotency_key)

  -- What `handleBatch` makes of the answer; after an error no entry of `seen` is set.
  unfoldable pub note_seen : Result (List Bool) → Consumer → Consumer × List Bool
  note_seen (ok seen) c = (c, seen)
  note_seen (err x) c = (say (dedup_error x) c, [])

  -- `seen`, empty without a deduper.
  unfoldable pub check_seen : List DecodedRecord → Consumer → Consumer × List Bool
  unfolding note_seen
  check_seen ds c =
      let r = seen_batch v.redis (keys_of ds) c.redis in
      if v.dedup then note_seen r.1 (record c { redis = r.0 }) else (c, [])

  -- The last loop of `handleBatch`; where `seen` has no entry it is false.
  unfoldable pub persist_all : List DecodedRecord → List Bool → Consumer → Consumer
  unfolding count_deduped persist
  persist_all [] seen c = c
  persist_all (d ∷ ds) [] c = persist_all ds [] (persist d.record_ d.event c)
  persist_all (d ∷ ds) (true ∷ seen) c = persist_all ds seen (count_deduped c)
  persist_all (d ∷ ds) (false ∷ seen) c = persist_all ds seen (persist d.record_ d.event c)

  unfoldable pub handle_decoded : List DecodedRecord → Consumer → Consumer
  unfolding check_seen persist_all
  handle_decoded [] c = c
  handle_decoded (d ∷ ds) c = let r = check_seen (d ∷ ds) c in persist_all (d ∷ ds) r.1 r.0

  unfoldable pub handle_batch : List Letter → Consumer → Consumer
  unfolding decode_all handle_decoded
  handle_batch ls c = let r = decode_all ls c in handle_decoded r.1 r.0
