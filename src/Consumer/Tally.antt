-- ===== src/Consumer/Tally.antt =====
-- The counters of internal/consumer/consumer.go against the records of a batch.
pub mod Counts
use sluice_gate_telemetery_i.Base.{
  ℕ, suc, ◌+◌, ◌%◌, ◌≡◌, refl, List, [], ◌∷◌, Bool, true, false, Option, none, some, attempts,
  u64_mod, if◌then◌else◌, length, arith, inl, inr,
}
use sluice_gate_telemetery_i.Event.{
  Event, PoisonedEvent, Error, Result, ok, err, Result-cases, decode_record,
}
use sluice_gate_telemetery_i.Retry.{last_err, retry}
use sluice_gate_telemetery_i.Dedup.{seen_batch}
use sluice_gate_telemetery_i.Dlq.{Letter, send}
use sluice_gate_telemetery_i.Consumer.{
  Env, Consumer, Line, Metrics, unmarshal_error, dedup_error, sink_write_error, no_dlq, dlq_failed,
  persist_failed, fetch_error, flush_error, commit_error, DecodedRecord, inc_if, say,
  count_consumed, count_deduped, count_dlq, deliver, send_to_dlq, persist_buffered, persist_retried,
  persist, decode_all, keys_of, check_seen, note_seen, persist_all, handle_decoded, handle_batch,
}
use sluice_gate_telemetery_i.Consumer.Tally.Counts.{
  Tallied, Tallied-trans, count_consumed-Tallied, count_deduped-Tallied, count_dlq-Tallied,
  drop-Tallied, nothing-Tallied,
}

module _ (v : Env) where
  deliver-Tallied : (l : Letter) (x : Error) (c : Consumer v) → Tallied v 1 c (deliver v l x c)
  unfolding deliver
  deliver-Tallied l x c = by_result _ (send v.broker v.dlq_topic l x c.dlq).1
    where
      by_result :
          (s : v.broker.State) (o : Option Error)
          → Tallied v 1 c (elim o [
            | none ↦ count_dlq v (record c { dlq = s })
            | some y ↦ say v (dlq_failed y) (record c { dlq = s })
          ])
      by_result s none = count_dlq-Tallied v (record c { dlq = s })
      by_result s (some y) = drop-Tallied v (record c { dlq = s }) (dlq_failed y) refl

  send_to_dlq-Tallied :
      (l : Letter) (x : Error) (c : Consumer v) → Tallied v 1 c (send_to_dlq v l x c)
  unfolding send_to_dlq
  send_to_dlq-Tallied l x c = by_config v.dlq
    where
      by_config : (b : Bool) → Tallied v 1 c (if b then deliver v l x c else say v (no_dlq x) c)
      by_config true = deliver-Tallied l x c
      by_config false = drop-Tallied v c (no_dlq x) refl

  persist_buffered-Tallied : (e : Event) (c : Consumer v) → Tallied v 1 c (persist_buffered v e c)
  unfolding persist_buffered
  persist_buffered-Tallied e c = by_result _ (v.sink.write e c.sink).1
    where
      by_result :
          (s : v.SinkState) (o : Option Error)
          → Tallied v 1 c (
              count_consumed v (elim o [
                | none ↦ record c { sink = s }
                | some x ↦ say v (sink_write_error x) (record c { sink = s })
              ]))
      by_result s none = count_consumed-Tallied v (record c { sink = s })
      by_result s (some x) =
          count_consumed-Tallied v (say v (sink_write_error x) (record c { sink = s }))

  persist_retried-Tallied :
      (l : Letter) (e : Event) (c : Consumer v) → Tallied v 1 c (persist_retried v l e c)
  unfolding persist_retried
  persist_retried-Tallied l e c =
      by_result _ (last_err (retry (attempts v.max_retries) (v.sink.write e) c.sink none).1)
    where
      by_result :
          (s : v.SinkState) (o : Option Error)
          → Tallied v 1 c (elim o [
            | none ↦ count_consumed v (record c { sink = s })
            | some x ↦
                send_to_dlq v l x (say v (persist_failed v.max_retries x) (record c { sink = s }))
          ])
      by_result s none = count_consumed-Tallied v (record c { sink = s })
      by_result s (some x) =
          send_to_dlq-Tallied l x (say v (persist_failed v.max_retries x) (record c { sink = s }))

  persist-Tallied : (l : Letter) (e : Event) (c : Consumer v) → Tallied v 1 c (persist v l e c)
  unfolding persist
  persist-Tallied l e c = by_sink v.sink.poison_reporter
    where
      by_sink :
          (o : Option (v.SinkState → v.SinkState × List PoisonedEvent))
          → Tallied v 1 c
              (elim o [ some g ↦ persist_buffered v e c | none ↦ persist_retried v l e c ])
      by_sink none = persist_retried-Tallied l e c
      by_sink (some g) = persist_buffered-Tallied e c

  -- The decoded records are left over for the rest of the batch.
  decode_all-Tallied :
      (ls : List Letter) (c : Consumer v)
      → (n : ℕ) × Tallied v n c (decode_all v ls c).0
        × (n + length (decode_all v ls c).1 ≡ length ls)
  unfolding decode_all
  decode_all-Tallied [] c = (0, nothing-Tallied v c, refl)
  decode_all-Tallied (l ∷ ls) c = elim (Result-cases (decode_record v.proto l.value)) [
    | inl (e, h) ↦
        rw (h, decode_all) (let (n, t, k) = decode_all-Tallied ls c in (n, t, omega (arith, k)))
    | inr (x, h) ↦
        rw (h, decode_all)
          (let c' : Consumer v = say v (unmarshal_error x) c in
            let c'' : Consumer v = send_to_dlq v l x c' in
            let (n, t, k) = decode_all-Tallied ls c'' in
            (
              1 + n,
              Tallied-trans v 1 n _ c c'' (decode_all v ls c'').0 refl (send_to_dlq-Tallied l x c')
                  t,
              omega (arith, k),
            ))
  ]

  persist_all-Tallied :
      (ds : List DecodedRecord) (seen : List Bool) (c : Consumer v)
      → Tallied v (length ds) c (persist_all v ds seen c)
  unfolding persist_all
  persist_all-Tallied [] seen c = nothing-Tallied v c
  persist_all-Tallied (d ∷ ds) [] c =
      let c' = persist v d.record_ d.event c in
      Tallied-trans v 1 (length ds) _ c c' (persist_all v ds [] c') (omega arith)
        (persist-Tallied d.record_ d.event c) (persist_all-Tallied ds [] c')
  persist_all-Tallied (d ∷ ds) (true ∷ seen) c =
      let c' = count_deduped v c in
      Tallied-trans v 1 (length ds) _ c c' (persist_all v ds seen c') (omega arith)
        (count_deduped-Tallied v c) (persist_all-Tallied ds seen c')
  persist_all-Tallied (d ∷ ds) (false ∷ seen) c =
      let c' = persist v d.record_ d.event c in
      Tallied-trans v 1 (length ds) _ c c' (persist_all v ds seen c') (omega arith)
        (persist-Tallied d.record_ d.event c) (persist_all-Tallied ds seen c')

  note_seen-Tallied : (r : Result (List Bool)) (c : Consumer v) → Tallied v 0 c (note_seen v r c).0
  unfolding note_seen
  note_seen-Tallied (ok seen) c = nothing-Tallied v c
  note_seen-Tallied (err x) c = nothing-Tallied v c

  check_seen-Tallied :
      (ds : List DecodedRecord) (c : Consumer v) → Tallied v 0 c (check_seen v ds c).0
  unfolding check_seen
  check_seen-Tallied ds c = by_config v.dedup
    where
      checked : Consumer v × List Bool
      checked =
          let r = seen_batch v.redis (keys_of v ds) c.redis in
          note_seen v r.1 (record c { redis = r.0 })

      by_config :
          (b : Bool)
          → Tallied v 0 c (if◌then◌else◌ {A = Consumer v × List Bool} b checked (c, [])).0
      by_config true =
          let r = seen_batch v.redis (keys_of v ds) c.redis in
          note_seen-Tallied r.1 (record c { redis = r.0 })
      by_config false = nothing-Tallied v c

  handle_decoded-Tallied :
      (ds : List DecodedRecord) (c : Consumer v) → Tallied v (length ds) c (handle_decoded v ds c)
  unfolding handle_decoded
  handle_decoded-Tallied [] c = nothing-Tallied v c
  handle_decoded-Tallied (d ∷ ds) c =
      let r = check_seen v (d ∷ ds) c in
      Tallied-trans v 0 (suc (length ds)) _ c r.0 (persist_all v (d ∷ ds) r.1 r.0) (omega arith)
        (check_seen-Tallied (d ∷ ds) c) (persist_all-Tallied (d ∷ ds) r.1 r.0)

  -- Every record of a batch is counted once, on every path: as consumed, as a duplicate, as
  -- dead-lettered, or by a line about a record that was given up. The counters (modulo 2 ^ 64), the
  -- collectors where there are any, and the lines move by four numbers with the batch's length for sum.
  pub handle_batch-Tallied :
      (ls : List Letter) (c : Consumer v) → Tallied v (length ls) c (handle_batch v ls c)
  unfolding handle_batch
  handle_batch-Tallied ls c =
      let (n, t, k) = decode_all-Tallied ls c in
      let r = decode_all v ls c in
      Tallied-trans v n (length r.1) _ c r.0 (handle_decoded v r.1 r.0) k t
        (handle_decoded-Tallied r.1 r.0)
