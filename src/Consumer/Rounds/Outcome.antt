-- ===== src/Consumer/Rounds/Outcome.antt =====
-- Every record of a round that internal/consumer/consumer.go commits is settled.
use sluice_gate_telemetery_i.Base.{◌≡◌, sym, subst, List, Option, none, In, true}
use sluice_gate_telemetery_i.Event.{Event, Error, err, ok, decode_record}
use sluice_gate_telemetery_i.Dlq.{Letter}
use sluice_gate_telemetery_i.Consumer.{Env, Consumer, DecodedRecord, handle_batch}
use sluice_gate_telemetery_i.Consumer.NoLoss.{
  Durable, Reliable, IsDead, IsPersisted, decoded, Placed, persisted, Fate, handle_batch-Kept,
  handle_batch-Fate,
}
use sluice_gate_telemetery_i.Consumer.Rounds.{log_fetch_errors, poll, flush_sink, finish, round}
use sluice_gate_telemetery_i.Consumer.Rounds.Settled.{
  Settling, IsFinal, finish-IsFinal, log_fetch_errors-sink,
}
use sluice_gate_telemetery_i.Consumer.Rounds.Delivered.{finish-Delivered}

module _ (v : Env) (p : Durable v.sink) (q : Settling v.sink p) (h : Reliable v) where
  -- What has become of the record l of the round ls, which c has gone through and so become c'.
  pub data Settlement (ls : List Letter) (c c' : Consumer v) (l : Letter) : Type 0 where
    undecodable :
        (x : Error) → decode_record v.proto l.value ≡ err x → IsDead v p l c' → Settlement ls c c' l
    final :
        (e : Event)
        → decode_record v.proto l.value ≡ ok e
        → IsFinal v p q h l e c'
        → Settlement ls c c' l
    repeats_before :
        (e : Event)
        → decode_record v.proto l.value ≡ ok e
        → v.redis.has c.redis e.idempotency_key ≡ true
        → Settlement ls c c' l
    repeats_other :
        (e : Event) (o : DecodedRecord)
        → decode_record v.proto l.value ≡ ok e
        → In o (decoded v ls)
        → o.event.idempotency_key ≡ e.idempotency_key
        → IsFinal v p q h o.record_ o.event c'
        → Settlement ls c c' l

  -- Where the dead-letter topic is there and takes every record, the retries are not negative, and the
  -- sink is ready, durable and settles what it holds: behind a round whose flush reports no error (the
  -- only rounds that commit) every record of the round is settled. It is dead-lettered with its bytes if
  -- it does not decode; else it is stored by the sink, or in the dead-letter topic, or a repeat of a key
  -- that Redis held before the round or of another record of the round that is settled so. It makes no
  -- difference whether the commit itself then fails.
  pub round-Settlement :
      (xs : List Error) (ls : List Letter) (r : Option Error) (c : Consumer v) (l : Letter)
      → p.IsReady c.sink
      → (flush_sink v (handle_batch v ls (log_fetch_errors v xs (poll v ls c)))).1 ≡ none
      → In l ls
      → Settlement ls c (round v xs ls r c) l
  unfolding round
  round-Settlement xs ls r c l k n i = by_fate (handle_batch-Fate v p h ls start l ready i)
    where
      start : Consumer v
      start = log_fetch_errors v xs (poll v ls c)

      same : (start.sink ≡ c.sink) × (start.redis ≡ c.redis)
      same = log_fetch_errors-sink v p q h xs (poll v ls c)

      ready : p.IsReady start.sink
      ready = subst p.IsReady (sym same.0) k

      handled : Consumer v
      handled = handle_batch v ls start

      settled :
          (o : Letter) (e : Event)
          → IsPersisted v p h o e handled
          → IsFinal v p q h o e (finish v r handled)
      settled o e a =
          finish-IsFinal v p q h r o e handled ((handle_batch-Kept v p h ls start).0 ready) n a

      by_fate : Fate v p h ls start handled l → Settlement ls c (finish v r handled) l
      by_fate (Fate.undecodable x m (y, d)) =
          undecodable x m (y, finish-Delivered v p r handled _ d)
      by_fate (Fate.decodes e m (persisted a)) = final e m (settled l e a)
      by_fate (Fate.decodes e m (Placed.repeats_before b)) =
          repeats_before e m (subst (λ s. v.redis.has s e.idempotency_key ≡ true) same.1 b)
      by_fate (Fate.decodes e m (Placed.repeats_other o j f a)) =
          repeats_other e o m j f (settled o.record_ o.event a)
