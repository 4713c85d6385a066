-- ===== src/Consumer/NoLoss/Batch.antt =====
-- Every record of a batch finds a place (internal/consumer/consumer.go).
use sluice_gate_telemetery_i.Base.{
  ◌≡◌, refl, sym, subst, List, [], ◌∷◌, Bool, true, false, if◌then◌else◌, In,
}
use sluice_gate_telemetery_i.Event.{Event, Error, Result, ok, err, decode_record}
use sluice_gate_telemetery_i.Dedup.{seen_batch}
use sluice_gate_telemetery_i.Dedup.Replay.{seen_batch-repeats}
use sluice_gate_telemetery_i.Dlq.{Letter}
use sluice_gate_telemetery_i.Consumer.{
  Env, Consumer, DecodedRecord, dedup_error, say, decode_all, keys_of, check_seen, note_seen,
  persist_all, handle_decoded, handle_batch,
}
use sluice_gate_telemetery_i.Consumer.NoLoss.Steps.{
  Durable, IsDead, Kept, Kept-trans, Kept-refl, IsDead-Kept,
}
use sluice_gate_telemetery_i.Consumer.NoLoss.Decode.{
  decoded, decode_all-decoded, decode_all-Kept, Read, decode_all-Read,
}
use sluice_gate_telemetery_i.Consumer.NoLoss.Outcome.{Reliable}
use sluice_gate_telemetery_i.Consumer.NoLoss.Places.{
  persist_all-Kept, Placed, persist_all-Placed, persist_all-none, persisted,
}

module _ (v : Env) (p : Durable v.sink) (h : Reliable v) where
  Placed-decoded :
      (ds : List DecodedRecord) (c : Consumer v) (o : DecodedRecord)
      → p.IsReady c.sink
      → In o ds
      → Placed v p h (v.redis.has c.redis) ds (handle_decoded v ds c) o
  unfolding handle_decoded check_seen note_seen
  Placed-decoded [] c o r i = absurd i
  Placed-decoded (d ∷ ds) c o r i = by_config v.dedup
    where
      all : List DecodedRecord
      all = d ∷ ds

      answer : v.redis.State × Result (List Bool)
      answer = seen_batch v.redis (keys_of v all) c.redis

      Good : Consumer v × List Bool → Type 0
      Good q = Placed v p h (v.redis.has c.redis) all (persist_all v all q.1 q.0) o

      checked : Consumer v
      checked = record c { redis = answer.0 }

      by_answer : (a : Result (List Bool)) → answer.1 ≡ a → Good (note_seen v a checked)
      by_answer (ok seen) e =
          subst (λ bs. Good (checked, bs))
            (sym (seen_batch-repeats v.redis (keys_of v all) c.redis seen e).0)
            (persist_all-Placed v p h (v.redis.has c.redis) all checked o r i)
      by_answer (err x) e =
          persisted (persist_all-none v p h all (say v (dedup_error x) checked) o r i)

      by_config :
          (b : Bool)
          → Good
              (if◌then◌else◌ {A = Consumer v × List Bool} b (note_seen v answer.1 checked) (c, []))
      by_config true = by_answer answer.1 refl
      by_config false = persisted (persist_all-none v p h all c o r i)

  handle_decoded-Kept :
      (ds : List DecodedRecord) (c : Consumer v) → Kept v p c (handle_decoded v ds c)
  unfolding handle_decoded check_seen note_seen
  handle_decoded-Kept [] c = Kept-refl v p c
  handle_decoded-Kept (d ∷ ds) c = by_config v.dedup
    where
      answer : v.redis.State × Result (List Bool)
      answer = seen_batch v.redis (keys_of v (d ∷ ds)) c.redis

      Good : Consumer v × List Bool → Type 0
      Good q = Kept v p c (persist_all v (d ∷ ds) q.1 q.0)

      checked : Consumer v
      checked = record c { redis = answer.0 }

      by_answer : (a : Result (List Bool)) → Good (note_seen v a checked)
      by_answer (ok seen) = persist_all-Kept v p h (d ∷ ds) seen checked
      by_answer (err x) = persist_all-Kept v p h (d ∷ ds) [] (say v (dedup_error x) checked)

      by_config :
          (b : Bool)
          → Good
              (if◌then◌else◌ {A = Consumer v × List Bool} b (note_seen v answer.1 checked) (c, []))
      by_config true = by_answer answer.1
      by_config false = persist_all-Kept v p h (d ∷ ds) [] c

  pub handle_batch-Kept : (ls : List Letter) (c : Consumer v) → Kept v p c (handle_batch v ls c)
  unfolding handle_batch
  handle_batch-Kept ls c =
      let r = decode_all v ls c in
      Kept-trans v p c r.0 (handle_decoded v r.1 r.0) (decode_all-Kept v p h ls c).0
        (handle_decoded-Kept r.1 r.0)

  -- What has become of a record of the batch ls, which c has handled and so become c'.
  pub data Fate (ls : List Letter) (c c' : Consumer v) (l : Letter) : Type 0 where
    undecodable :
        (x : Error) → decode_record v.proto l.value ≡ err x → IsDead v p l c' → Fate ls c c' l
    decodes :
        (e : Event)
        → decode_record v.proto l.value ≡ ok e
        → Placed v p h (v.redis.has c.redis) (decoded v ls) c' (record { record_ = l; event = e })
        → Fate ls c c' l

  -- Where the dead-letter topic is there and takes every record, the retries are not negative and the
  -- sink is durable, no record of a batch is lost: one that does not decode is dead-lettered with its
  -- bytes; one that does is held by the sink or dead-lettered, or its key was in Redis before the
  -- batch, or another record of the batch has its key and is held or dead-lettered. Whether dedup is
  -- on, and whether its check fails, makes no difference.
  pub handle_batch-Fate :
      (ls : List Letter) (c : Consumer v) (l : Letter)
      → p.IsReady c.sink
      → In l ls
      → Fate ls c (handle_batch v ls c) l
  unfolding handle_batch
  handle_batch-Fate ls c l r i = by_reading (decode_all-Read v p h ls c l i)
    where
      c' : Consumer v
      c' = (decode_all v ls c).0

      ds : List DecodedRecord
      ds = (decode_all v ls c).1

      end : Consumer v
      end = handle_decoded v ds c'

      r' : p.IsReady c'.sink
      r' = (decode_all-Kept v p h ls c).0.0 r

      place :
          (o : DecodedRecord)
          → In o (decoded v ls)
          → Placed v p h (v.redis.has c.redis) (decoded v ls) end o
      place o m =
          subst (λ s. Placed v p h (v.redis.has s) (decoded v ls) end o)
            (decode_all-Kept v p h ls c).1
            (subst (λ os. In o os → Placed v p h (v.redis.has c'.redis) os end o)
              (decode_all-decoded v ls c) (Placed-decoded ds c' o r') m)

      by_reading : Read v p h ls c' l → Fate ls c end l
      by_reading (Read.undecodable x k d) =
          undecodable x k (IsDead-Kept v p l c' end (handle_decoded-Kept ds c') d)
      by_reading (Read.decodes e k m) = decodes e k (place (record { record_ = l; event = e }) m)
