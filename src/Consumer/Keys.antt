-- ===== src/Consumer/Keys.antt =====
-- What a batch of internal/consumer/consumer.go sets in Redis.
use mathlib.Core.Path.{ap₂}
use sluice_gate_telemetery_i.Base.{
  ◌≡◌, refl, sym, subst, ◌∙◌, List, [], ◌∷◌, Bool, true, false, Option, none, some, if◌then◌else◌,
  attempts, inl, inr,
}
use sluice_gate_telemetery_i.Event.{
  Event, PoisonedEvent, Error, Result, ok, err, Result-cases, decode_record,
}
use sluice_gate_telemetery_i.Retry.{last_err, retry}
use sluice_gate_telemetery_i.Dedup.{seen_batch}
use sluice_gate_telemetery_i.Dlq.{Letter}
use sluice_gate_telemetery_i.Consumer.{
  Env, Consumer, DecodedRecord, unmarshal_error, dedup_error, persist_failed, sink_write_error, say,
  count_consumed, count_deduped, send_to_dlq, persist_buffered, persist_retried, persist,
  decode_all, keys_of, check_seen, note_seen, persist_all, handle_decoded, handle_batch,
}
use sluice_gate_telemetery_i.Consumer.NoLoss.{decoded, decode_all-decoded, send_to_dlq-redis}

module _ (v : Env) where
  persist-redis : (l : Letter) (e : Event) (c : Consumer v) → (persist v l e c).redis ≡ c.redis
  unfolding persist persist_buffered persist_retried count_consumed
  persist-redis l e c = by_sink v.sink.poison_reporter
    where
      by_write :
          (s : v.SinkState) (o : Option Error)
          → (count_consumed v (elim o [
            | none ↦ record c { sink = s }
            | some x ↦ say v (sink_write_error x) (record c { sink = s })
          ])).redis
            ≡ c.redis
      by_write s none = refl
      by_write s (some x) = refl

      by_loop :
          (s : v.SinkState) (o : Option Error)
          → (let c' : Consumer v = elim o [
            | none ↦ count_consumed v (record c { sink = s })
            | some x ↦
                send_to_dlq v l x (say v (persist_failed v.max_retries x) (record c { sink = s }))
          ] in
              c'.redis)
            ≡ c.redis
      by_loop s none = refl
      by_loop s (some x) = send_to_dlq-redis v l x _

      by_sink :
          (o : Option (v.SinkState → v.SinkState × List PoisonedEvent))
          → (let c' : Consumer v = elim o [
            | some g ↦ persist_buffered v e c
            | none ↦ persist_retried v l e c
          ] in
              c'.redis)
            ≡ c.redis
      by_sink none =
          by_loop _ (last_err (retry (attempts v.max_retries) (v.sink.write e) c.sink none).1)
      by_sink (some g) = by_write _ (v.sink.write e c.sink).1

  persist_all-redis :
      (ds : List DecodedRecord) (seen : List Bool) (c : Consumer v)
      → (persist_all v ds seen c).redis ≡ c.redis
  unfolding persist_all count_deduped
  persist_all-redis [] seen c = refl
  persist_all-redis (d ∷ ds) [] c =
      persist_all-redis ds [] (persist v d.record_ d.event c) ∙ persist-redis d.record_ d.event c
  persist_all-redis (d ∷ ds) (true ∷ seen) c = persist_all-redis ds seen (count_deduped v c)
  persist_all-redis (d ∷ ds) (false ∷ seen) c =
      persist_all-redis ds seen (persist v d.record_ d.event c) ∙ persist-redis d.record_ d.event c

  decode_all-redis : (ls : List Letter) (c : Consumer v) → (decode_all v ls c).0.redis ≡ c.redis
  unfolding decode_all
  decode_all-redis [] c = refl
  decode_all-redis (l ∷ ls) c = elim (Result-cases (decode_record v.proto l.value)) [
    | inl (e, k) ↦ rw (k, decode_all) (decode_all-redis ls c)
    | inr (x, k) ↦
        rw (k, decode_all)
          (let c' : Consumer v = say v (unmarshal_error x) c in
            decode_all-redis ls (send_to_dlq v l x c') ∙ send_to_dlq-redis v l x c')
  ]

  -- The answer of Redis to a batch, and what it holds behind it.
  abbrev pub answer : List Letter → v.redis.State → v.redis.State × Result (List Bool)
  answer ls s = seen_batch v.redis (keys_of v (decoded v ls)) s

  handle_decoded-redis :
      (ds : List DecodedRecord) (c : Consumer v)
      → v.dedup ≡ true
      → (handle_decoded v ds c).redis ≡ (seen_batch v.redis (keys_of v ds) c.redis).0
  unfolding handle_decoded check_seen note_seen
  handle_decoded-redis [] c on = unfold seen_batch in refl
  handle_decoded-redis (d ∷ ds) c on = subst by_config (sym on) (by_answer reply.1)
    where
      reply : v.redis.State × Result (List Bool)
      reply = seen_batch v.redis (keys_of v (d ∷ ds)) c.redis

      checked : Consumer v
      checked = record c { redis = reply.0 }

      end : Consumer v × List Bool → Consumer v
      end q = persist_all v (d ∷ ds) q.1 q.0

      by_answer : (a : Result (List Bool)) → (end (note_seen v a checked)).redis ≡ reply.0
      by_answer (ok seen) = persist_all-redis (d ∷ ds) seen checked
      by_answer (err x) = persist_all-redis (d ∷ ds) [] (say v (dedup_error x) checked)

      by_config : Bool → Type 0
      by_config b =
          (end (
            if◌then◌else◌ {A = Consumer v × List Bool} b (note_seen v reply.1 checked)
              (c, []))).redis
          ≡ reply.0

  handle_decoded-unchecked :
      (ds : List DecodedRecord) (c : Consumer v)
      → v.dedup ≡ false
      → (handle_decoded v ds c).redis ≡ c.redis
  unfolding handle_decoded check_seen
  handle_decoded-unchecked [] c off = refl
  handle_decoded-unchecked (d ∷ ds) c off = rw (off, check_seen) (persist_all-redis (d ∷ ds) [] c)

  pub handle_batch-redis :
      (ls : List Letter) (c : Consumer v)
      → v.dedup ≡ true
      → (handle_batch v ls c).redis ≡ (answer ls c.redis).0
  unfolding handle_batch
  handle_batch-redis ls c on =
      handle_decoded-redis (decode_all v ls c).1 (decode_all v ls c).0 on
      ∙ ap₂ (λ ds s. (seen_batch v.redis (keys_of v ds) s).0) (decode_all-decoded v ls c)
          (decode_all-redis ls c)

  pub handle_batch-unchecked :
      (ls : List Letter) (c : Consumer v) → v.dedup ≡ false → (handle_batch v ls c).redis ≡ c.redis
  unfolding handle_batch
  handle_batch-unchecked ls c off =
      handle_decoded-unchecked (decode_all v ls c).1 (decode_all v ls c).0 off
      ∙ decode_all-redis ls c
