-- ===== src/Consumer/Replay.antt =====
-- A batch that internal/consumer/consumer.go fetches a second time, as after a crash ahead of the
-- commit.
use mathlib.Core.Path.{ap₂}
use sluice_gate_telemetery_i.Base.{
  ◌≡◌, refl, sym, ap, subst, ◌∙◌, List, [], ◌∷◌, Bool, true, false, Bytes, if◌then◌else◌, arith,
  length, length-map, inl, inr,
}
use sluice_gate_telemetery_i.Event.{Error, Result, ok, Result-cases, decode_record}
use sluice_gate_telemetery_i.Dedup.{seen_batch}
use sluice_gate_telemetery_i.Dedup.Replay.{
  AllTrue, seen_batch_again, seen_batch-repeats, length-repeats,
}
use sluice_gate_telemetery_i.Dlq.{Letter}
use sluice_gate_telemetery_i.Consumer.{
  Env, Consumer, DecodedRecord, unmarshal_error, say, count_deduped, count_dlq, deliver,
  send_to_dlq, decode_all, keys_of, check_seen, note_seen, persist_all, handle_decoded,
  handle_batch,
}
use sluice_gate_telemetery_i.Consumer.NoLoss.{decoded, decode_all-decoded, send_to_dlq-redis}
use sluice_gate_telemetery_i.Consumer.Keys.{answer, handle_batch-redis}

module _ (v : Env) where
  -- What a batch leaves alone if every decoded record is taken for a repeat.
  abbrev pub Untouched : Consumer v → Consumer v → Type 0
  Untouched c c' = (c'.sink ≡ c.sink) × (c'.consumed ≡ c.consumed)

  persist_all-repeats :
      (ds : List DecodedRecord) (seen : List Bool) (c : Consumer v)
      → length seen ≡ length ds
      → AllTrue seen
      → Untouched c (persist_all v ds seen c)
  unfolding persist_all count_deduped
  persist_all-repeats [] seen c n t = (refl, refl)
  persist_all-repeats (d ∷ ds) [] c n t = absurd (omega arith)
  persist_all-repeats (d ∷ ds) (true ∷ seen) c n t =
      persist_all-repeats ds seen (count_deduped v c) (omega arith) t.1
  persist_all-repeats (d ∷ ds) (false ∷ seen) c n t = cc (t.0)

  pub send_to_dlq-Untouched :
      (l : Letter) (x : Error) (c : Consumer v) → Untouched c (send_to_dlq v l x c)
  unfolding send_to_dlq deliver count_dlq
  send_to_dlq-Untouched l x c = ground arith

  pub decode_all-Untouched :
      (ls : List Letter) (c : Consumer v)
      → Untouched c (decode_all v ls c).0 × ((decode_all v ls c).0.redis ≡ c.redis)
  unfolding decode_all
  decode_all-Untouched [] c = ((refl, refl), refl)
  decode_all-Untouched (l ∷ ls) c = elim (Result-cases (decode_record v.proto l.value)) [
    | inl (e, k) ↦ rw (k, decode_all) (decode_all-Untouched ls c)
    | inr (x, k) ↦
        rw (k, decode_all)
          (let c' : Consumer v = say v (unmarshal_error x) c in
            let (rest, same) = decode_all-Untouched ls (send_to_dlq v l x c') in
            let now = send_to_dlq-Untouched l x c' in
            ((rest.0 ∙ now.0, rest.1 ∙ now.1), same ∙ send_to_dlq-redis v l x c'))
  ]

  handle_decoded-repeats :
      (ds : List DecodedRecord) (c : Consumer v) (seen : List Bool)
      → v.dedup ≡ true
      → (seen_batch v.redis (keys_of v ds) c.redis).1 ≡ ok seen
      → AllTrue seen
      → Untouched c (handle_decoded v ds c)
  unfolding handle_decoded check_seen note_seen
  handle_decoded-repeats [] c seen on a t = (refl, refl)
  handle_decoded-repeats (d ∷ ds) c seen on a t =
      subst by_config (sym on)
        (subst by_answer (sym a) (persist_all-repeats (d ∷ ds) seen checked count t))
    where
      keys : List Bytes
      keys = keys_of v (d ∷ ds)

      reply : v.redis.State × Result (List Bool)
      reply = seen_batch v.redis keys c.redis

      checked : Consumer v
      checked = record c { redis = reply.0 }

      end : Consumer v × List Bool → Consumer v
      end q = persist_all v (d ∷ ds) q.1 q.0

      count : length seen ≡ length (d ∷ ds)
      count =
          ap length (seen_batch-repeats v.redis keys c.redis seen a).0
          ∙ length-repeats (v.redis.has c.redis) keys
          ∙ length-map (λ o. o.event.idempotency_key) (d ∷ ds)

      by_answer : Result (List Bool) → Type 0
      by_answer r = Untouched c (end (note_seen v r checked))

      by_config : Bool → Type 0
      by_config b =
          Untouched c (
            end
              (if◌then◌else◌ {A = Consumer v × List Bool} b (note_seen v reply.1 checked) (c, [])))

  -- The keys of a batch are set in Redis before its events are persisted. So with dedup on, a batch that
  -- comes again while Redis holds the keys (and answers both times) writes nothing to the sink and
  -- consumes nothing, whatever has become of the sink since: also if a crash has emptied it.
  pub replay_writes_nothing :
      (ls : List Letter) (c again : Consumer v) (bs cs : List Bool)
      → v.dedup ≡ true
      → again.redis ≡ (handle_batch v ls c).redis
      → (answer v ls c.redis).1 ≡ ok bs
      → (answer v ls again.redis).1 ≡ ok cs
      → ((handle_batch v ls again).sink ≡ again.sink)
        × ((handle_batch v ls again).consumed ≡ again.consumed)
  unfolding handle_batch
  replay_writes_nothing ls c again bs cs on same a b = (second.0 ∙ first.0.0, second.1 ∙ first.0.1)
    where
      d : Consumer v
      d = (decode_all v ls again).0

      ds : List DecodedRecord
      ds = (decode_all v ls again).1

      first : Untouched again d × (d.redis ≡ again.redis)
      first = decode_all-Untouched ls again

      repeated : AllTrue cs
      repeated =
          seen_batch_again v.redis (keys_of v (decoded v ls)) c.redis bs cs a
            (subst (λ s. (answer v ls s).1 ≡ ok cs) (same ∙ handle_batch-redis v ls c on) b)

      checked : (seen_batch v.redis (keys_of v ds) d.redis).1 ≡ ok cs
      checked =
          ap₂ (λ os s. (seen_batch v.redis (keys_of v os) s).1) (decode_all-decoded v ls again)
            first.1
          ∙ b

      second : Untouched d (handle_decoded v ds d)
      second = handle_decoded-repeats ds d cs on checked repeated
