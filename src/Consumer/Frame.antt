-- ===== src/Consumer/Frame.antt =====
-- What every primitive update keeps, `handleBatch` of internal/consumer/consumer.go keeps.
use sluice_gate_telemetery_i.Base.{
  List, [], ◌∷◌, Bool, true, false, Option, none, some, if◌then◌else◌, attempts, inl, inr,
}
use sluice_gate_telemetery_i.Event.{
  Event, PoisonedEvent, Error, Result, ok, err, Result-cases, decode_record,
}
use sluice_gate_telemetery_i.Retry.{last_err, retry}
use sluice_gate_telemetery_i.Dedup.{seen_batch}
use sluice_gate_telemetery_i.Dlq.{Letter, send}
use sluice_gate_telemetery_i.Consumer.{
  Env, Consumer, Line, DecodedRecord, sink_write_error, no_dlq, dlq_failed, persist_failed, say,
  count_consumed, count_deduped, count_dlq, deliver, send_to_dlq, persist_buffered, persist_retried,
  persist, decode_all, keys_of, check_seen, note_seen, persist_all, handle_decoded, handle_batch,
}

module _ (v : Env) where
  pub record IsFrame (P : Consumer v → Type 0) : Type 0 where
    pub on_sink : (c : Consumer v) (s : v.SinkState) → P c → P (record c { sink = s })
    pub on_redis : (c : Consumer v) (s : v.redis.State) → P c → P (record c { redis = s })
    pub on_dlq : (c : Consumer v) (s : v.broker.State) → P c → P (record c { dlq = s })
    pub on_say : (l : Line) (c : Consumer v) → P c → P (say v l c)
    pub on_consumed : (c : Consumer v) → P c → P (count_consumed v c)
    pub on_deduped : (c : Consumer v) → P c → P (count_deduped v c)
    pub on_sent : (c : Consumer v) → P c → P (count_dlq v c)

  module _ (P : Consumer v → Type 0) (f : IsFrame P) where
    deliver-frame : (l : Letter) (x : Error) (c : Consumer v) → P c → P (deliver v l x c)
    unfolding deliver
    deliver-frame l x c a = by_result (send v.broker v.dlq_topic l x c.dlq).1
      where
        s : v.broker.State
        s = (send v.broker v.dlq_topic l x c.dlq).0

        by_result :
            (o : Option Error)
            → P (elim o [
              | none ↦ count_dlq v (record c { dlq = s })
              | some y ↦ say v (dlq_failed y) (record c { dlq = s })
            ])
        by_result none = f.on_sent _ (f.on_dlq c s a)
        by_result (some y) = f.on_say _ _ (f.on_dlq c s a)

    pub send_to_dlq-frame :
        (l : Letter) (x : Error) (c : Consumer v) → P c → P (send_to_dlq v l x c)
    unfolding send_to_dlq
    send_to_dlq-frame l x c a = by_config v.dlq
      where
        by_config : (b : Bool) → P (if b then deliver v l x c else say v (no_dlq x) c)
        by_config true = deliver-frame l x c a
        by_config false = f.on_say _ c a

    persist-frame : (l : Letter) (e : Event) (c : Consumer v) → P c → P (persist v l e c)
    unfolding persist persist_buffered persist_retried
    persist-frame l e c a = by_sink v.sink.poison_reporter
      where
        by_write :
            (s : v.SinkState) (o : Option Error)
            → P (
                count_consumed v (elim o [
                  | none ↦ record c { sink = s }
                  | some x ↦ say v (sink_write_error x) (record c { sink = s })
                ]))
        by_write s none = f.on_consumed _ (f.on_sink c s a)
        by_write s (some x) = f.on_consumed _ (f.on_say _ _ (f.on_sink c s a))

        by_loop :
            (s : v.SinkState) (o : Option Error)
            → P (elim o [
              | none ↦ count_consumed v (record c { sink = s })
              | some x ↦
                  send_to_dlq v l x (say v (persist_failed v.max_retries x) (record c { sink = s }))
            ])
        by_loop s none = f.on_consumed _ (f.on_sink c s a)
        by_loop s (some x) = send_to_dlq-frame l x _ (f.on_say _ _ (f.on_sink c s a))

        by_sink :
            (o : Option (v.SinkState → v.SinkState × List PoisonedEvent))
            → P (elim o [ some g ↦ persist_buffered v e c | none ↦ persist_retried v l e c ])
        by_sink none =
            by_loop _ (last_err (retry (attempts v.max_retries) (v.sink.write e) c.sink none).1)
        by_sink (some g) = by_write _ (v.sink.write e c.sink).1

    persist_all-frame :
        (ds : List DecodedRecord) (seen : List Bool) (c : Consumer v)
        → P c
        → P (persist_all v ds seen c)
    unfolding persist_all
    persist_all-frame [] seen c a = a
    persist_all-frame (d ∷ ds) [] c a =
        persist_all-frame ds [] _ (persist-frame d.record_ d.event c a)
    persist_all-frame (d ∷ ds) (true ∷ seen) c a = persist_all-frame ds seen _ (f.on_deduped c a)
    persist_all-frame (d ∷ ds) (false ∷ seen) c a =
        persist_all-frame ds seen _ (persist-frame d.record_ d.event c a)

    decode_all-frame : (ls : List Letter) (c : Consumer v) → P c → P (decode_all v ls c).0
    unfolding decode_all
    decode_all-frame [] c a = a
    decode_all-frame (l ∷ ls) c a = elim (Result-cases (decode_record v.proto l.value)) [
      | inl (e, k) ↦ rw (k, decode_all) (decode_all-frame ls c a)
      | inr (x, k) ↦
          rw (k, decode_all) (decode_all-frame ls _ (send_to_dlq-frame l x _ (f.on_say _ c a)))
    ]

    handle_decoded-frame :
        (ds : List DecodedRecord) (c : Consumer v) → P c → P (handle_decoded v ds c)
    unfolding handle_decoded check_seen note_seen
    handle_decoded-frame [] c a = a
    handle_decoded-frame (d ∷ ds) c a = by_config v.dedup
      where
        reply : v.redis.State × Result (List Bool)
        reply = seen_batch v.redis (keys_of v (d ∷ ds)) c.redis

        Good : Consumer v × List Bool → Type 0
        Good q = P (persist_all v (d ∷ ds) q.1 q.0)

        checked : Consumer v
        checked = record c { redis = reply.0 }

        by_answer : (r : Result (List Bool)) → Good (note_seen v r checked)
        by_answer (ok seen) = persist_all-frame (d ∷ ds) seen checked (f.on_redis c reply.0 a)
        by_answer (err x) =
            persist_all-frame (d ∷ ds) [] _ (f.on_say _ checked (f.on_redis c reply.0 a))

        by_config :
            (b : Bool)
            → Good
                (if◌then◌else◌ {A = Consumer v × List Bool} b (note_seen v reply.1 checked) (c, []))
        by_config true = by_answer reply.1
        by_config false = persist_all-frame (d ∷ ds) [] c a

    pub handle_batch-frame : (ls : List Letter) (c : Consumer v) → P c → P (handle_batch v ls c)
    unfolding handle_batch
    handle_batch-frame ls c a =
        handle_decoded-frame (decode_all v ls c).1 _ (decode_all-frame ls c a)
