-- ===== src/Examples/ConsumerRuns.antt =====
-- Runs of the consumer (internal/consumer/consumer.go) on a Timescale sink.
use sluice_gate_telemetery_i.Base.{
  pos, Bytes, codes, ◌≡◌, refl, inl, inr, List, [], ◌∷◌, true, false, none, some, length,
}
use sluice_gate_telemetery_i.Event.{message_of, event_of, decode_record}
use sluice_gate_telemetery_i.Dlq.{Letter, send}
use sluice_gate_telemetery_i.Dedup.{seen_batch, collect}
use sluice_gate_telemetery_i.Retry.{retry}
use sluice_gate_telemetery_i.Sink.Timescale.{
  flush, write, drain_buffer, store_batch, copy_batch, row_of, World, timescale_sink,
}
use sluice_gate_telemetery_i.Sink.Timescale.Durable.{timescale_durable}
use sluice_gate_telemetery_i.Sink.Timescale.Settles.{timescale_settling}
use sluice_gate_telemetery_i.Consumer.{
  Env, Consumer, handle_batch, handle_decoded, check_seen, note_seen, persist_all, persist,
  persist_buffered, count_consumed, count_deduped, decode_all, send_to_dlq, deliver, count_dlq,
}
use sluice_gate_telemetery_i.Consumer.NoLoss.{decoded, Reliable, Fate, handle_batch-Fate}
use sluice_gate_telemetery_i.Consumer.Tally.Counts.{Tallied}
use sluice_gate_telemetery_i.Consumer.Tally.{handle_batch-Tallied}
use sluice_gate_telemetery_i.Consumer.Rounds.{round, flush_sink}
use sluice_gate_telemetery_i.Consumer.Rounds.Outcome.{Settlement, round-Settlement}
use sluice_gate_telemetery_i.Consumer.Rounds.Commit.{round-committed}
use sluice_gate_telemetery_i.Consumer.Rounds.Standing.{Standing}
use sluice_gate_telemetery_i.Consumer.Once.{Once, handle_batch-Once}
use sluice_gate_telemetery_i.Consumer.Replay.{replay_writes_nothing}
use sluice_gate_telemetery_i.Examples.Systems.{
  proto, broker, redis, Table, database, event, encode, decode,
}

abbrev pub env : Env
env = record {
  proto = proto;
  SinkState = World database;
  sink = timescale_sink database;
  redis = redis;
  broker = broker;
  config = record {
    topic = codes "telemetry";
    dlq_topic = codes "telemetry.dlq";
    max_retries = pos 1;
    dedup = true;
    dlq = true;
    metrics = true;
  };
}

abbrev pub reliable : Reliable env
reliable = record { dlq_on = refl; dlq_takes = λ r s. refl; retries = 1; not_negative = refl }

-- A consumer at its start, with a sink of batches of two.
abbrev pub consumer : Table → Consumer env
consumer t = record {
  sink = (record { batch_size = pos 2; max_retries = pos 1; buffer = []; poisoned = [] }, t);
  redis = [];
  dlq = [];
  consumed = 0;
  deduped = 0;
  dlq_sent = 0;
  metrics = record { consumed_total = 0; dedup_dropped_total = 0; dlq_total = 0; flushes = 0 };
  log = [];
  polled = [];
  committed = [];
}

abbrev pub letter : Bytes → Letter
letter b = record {
  topic = codes "telemetry";
  partition = pos 2;
  offset = pos 41;
  key = codes "device-7";
  value = b;
}

-- Two events, a repeat of the first, and bytes that do not decode.
abbrev pub letters : List Letter
letters =
    letter (encode (message_of (event (codes "k1"))))
    ∷ letter (encode (message_of (event (codes "k2"))))
    ∷ letter (encode (message_of (event (codes "k1"))))
    ∷ letter (codes "bad")
    ∷ []

abbrev pub no_rows : Table
no_rows = record { rows = []; script = [] }

-- The table fails at each of the two batch attempts, and at both attempts of the first row.
abbrev pub failing : Table
failing = record {
  rows = [];
  script =
      some (codes "down")
      ∷ some (codes "down")
      ∷ some (codes "bad row")
      ∷ some (codes "bad row")
      ∷ [];
}

handle_batch-Fate_example :
    Fate env
      (timescale_durable database 1)
      reliable
      letters
      (consumer failing)
      (handle_batch env letters (consumer failing))
      (letter (codes "bad"))
handle_batch-Fate_example =
    handle_batch-Fate env (timescale_durable database 1) reliable letters (consumer failing)
      (letter (codes "bad")) refl (inr (inr (inr (inl refl))))

handle_batch-Tallied_example :
    Tallied env (length letters) (consumer no_rows) (handle_batch env letters (consumer no_rows))
handle_batch-Tallied_example = handle_batch-Tallied env letters (consumer no_rows)

round-Settlement_example :
    Settlement env
      (timescale_durable database 1)
      (timescale_settling database 1)
      reliable
      letters
      (consumer failing)
      (round env [] letters none (consumer failing))
      (letter (encode (message_of (event (codes "k1")))))
unfolding flush_sink flush
round-Settlement_example =
    round-Settlement env (timescale_durable database 1) (timescale_settling database 1) reliable []
      letters none (consumer failing) (letter (encode (message_of (event (codes "k1"))))) refl refl
      (inl refl)

round-committed_example :
    ((round env [] letters none (consumer no_rows)).polled ≡ letters)
    × ((round env [] letters none (consumer no_rows)).committed ≡ letters)
unfolding flush_sink flush
round-committed_example = round-committed env [] letters none (consumer no_rows)

handle_batch-Once_example : Once env letters (consumer no_rows)
unfolding decoded decode_record event_of message_of encode decode seen_batch collect
handle_batch-Once_example =
    handle_batch-Once env letters (consumer no_rows) (false ∷ false ∷ true ∷ []) refl refl

-- The consumer behind the batch is gone with its sink; Redis is still there.
abbrev restarted : Consumer env
restarted = record (consumer no_rows) {
  redis = (handle_batch env letters (consumer no_rows)).redis;
}

replay_writes_nothing_example :
    ((handle_batch env letters restarted).sink ≡ restarted.sink)
    × ((handle_batch env letters restarted).consumed ≡ 0)
unfolding decoded decode_record event_of message_of encode decode seen_batch collect handle_batch
    handle_decoded check_seen note_seen persist_all persist persist_buffered count_consumed
    count_deduped decode_all send_to_dlq deliver count_dlq send write flush drain_buffer store_batch
    copy_batch row_of retry
replay_writes_nothing_example =
    replay_writes_nothing env letters (consumer no_rows) restarted (false ∷ false ∷ true ∷ [])
      (true ∷ true ∷ true ∷ []) refl refl refl refl
