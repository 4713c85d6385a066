-- ===== src/Consumer/NoLoss/Decode.antt =====
-- The first loop of `handleBatch`: what decodes, and what becomes of the rest (internal/consumer/consumer.go).
use sluice_gate_telemetery_i.Base.{
  ◌≡◌, refl, sym, ap, subst, ◌∙◌, inl, inr, List, [], ◌∷◌, In, arith,
}
use sluice_gate_telemetery_i.Event.{Event, Error, ok, err, Result-cases, decode_record}
use sluice_gate_telemetery_i.Dlq.{Letter}
use sluice_gate_telemetery_i.Consumer.{
  Env, Consumer, DecodedRecord, unmarshal_error, say, count_dlq, deliver, send_to_dlq, decode_all,
}
use sluice_gate_telemetery_i.Consumer.NoLoss.Steps.{
  Durable, IsDead, Kept, Kept-trans, Kept-refl, IsDead-Kept, send_to_dlq-Kept,
}
use sluice_gate_telemetery_i.Consumer.NoLoss.Outcome.{Reliable, send_to_dlq-IsDead}

module _ (v : Env) where
  -- The records of a batch that decode.
  unfoldable pub decoded : List Letter → List DecodedRecord
  decoded [] = []
  decoded (l ∷ ls) = elim (decode_record v.proto l.value) [
    | ok e ↦ record { record_ = l; event = e } ∷ decoded ls
    | err x ↦ decoded ls
  ]

  pub decode_all-decoded : (ls : List Letter) (c : Consumer v) → (decode_all v ls c).1 ≡ decoded ls
  unfolding decode_all decoded
  decode_all-decoded [] c = refl
  decode_all-decoded (l ∷ ls) c = elim (Result-cases (decode_record v.proto l.value)) [
    | inl (e, k) ↦
        rw (k, decode_all, decoded)
          (ap (◌∷◌ (record { record_ = l; event = e })) (decode_all-decoded ls c))
    | inr (x, k) ↦ rw (k, decode_all, decoded) (decode_all-decoded ls _)
  ]

  pub send_to_dlq-redis :
      (l : Letter) (x : Error) (c : Consumer v) → (send_to_dlq v l x c).redis ≡ c.redis
  unfolding send_to_dlq deliver count_dlq
  send_to_dlq-redis l x c = ground arith

module _ (v : Env) (p : Durable v.sink) (h : Reliable v) where
  pub decode_all-Kept :
      (ls : List Letter) (c : Consumer v)
      → Kept v p c (decode_all v ls c).0 × ((decode_all v ls c).0.redis ≡ c.redis)
  unfolding decode_all
  decode_all-Kept [] c = (Kept-refl v p c, refl)
  decode_all-Kept (l ∷ ls) c = elim (Result-cases (decode_record v.proto l.value)) [
    | inl (e, k) ↦ rw (k, decode_all) (decode_all-Kept ls c)
    | inr (x, k) ↦
        rw (k, decode_all)
          (let c' : Consumer v = say v (unmarshal_error x) c in
            let c'' : Consumer v = send_to_dlq v l x c' in
            let (kept, same) = decode_all-Kept ls c'' in
            (
              Kept-trans v p c c'' (decode_all v ls c'').0 (send_to_dlq-Kept v p l x c') kept,
              same ∙ send_to_dlq-redis v l x c',
            ))
  ]

  -- A record that does not decode is dead-lettered as it came; one that does is among `decoded`.
  pub data Read (ls : List Letter) (c : Consumer v) (l : Letter) : Type 0 where
    undecodable : (x : Error) → decode_record v.proto l.value ≡ err x → IsDead v p l c → Read ls c l
    decodes :
        (e : Event)
        → decode_record v.proto l.value ≡ ok e
        → In (record { record_ = l; event = e }) (decoded v ls)
        → Read ls c l

  Read-here :
      (l : Letter) (ls : List Letter) (c : Consumer v) → Read (l ∷ ls) (decode_all v (l ∷ ls) c).0 l
  unfolding decode_all decoded
  Read-here l ls c = elim (Result-cases (decode_record v.proto l.value)) [
    | inl (e, k) ↦ decodes e k (rw (k, decoded) (inl refl))
    | inr (x, k) ↦
        let c' : Consumer v = send_to_dlq v l x (say v (unmarshal_error x) c) in
        undecodable x k (
          rw (k, decode_all)
            (IsDead-Kept v p l c' (decode_all v ls c').0 (decode_all-Kept ls c').0
              (send_to_dlq-IsDead v p h l x (say v (unmarshal_error x) c))))
  ]

  Read-later : (o l : Letter) (ls : List Letter) (c : Consumer v) → Read ls c l → Read (o ∷ ls) c l
  unfolding decoded
  Read-later o l ls c (undecodable x k d) = undecodable x k d
  Read-later o l ls c (decodes e k i) = elim (Result-cases (decode_record v.proto o.value)) [
    | inl (f, q) ↦ decodes e k (rw (q, decoded) (inr i))
    | inr (x, q) ↦ decodes e k (rw (q, decoded) i)
  ]

  pub decode_all-Read :
      (ls : List Letter) (c : Consumer v) (l : Letter) → In l ls → Read ls (decode_all v ls c).0 l
  unfolding decode_all
  decode_all-Read [] c l i = absurd i
  decode_all-Read (o ∷ ls) c l (inl e) =
      subst (Read (o ∷ ls) (decode_all v (o ∷ ls) c).0) (sym e) (Read-here o ls c)
  decode_all-Read (o ∷ ls) c l (inr i) = elim (Result-cases (decode_record v.proto o.value)) [
    | inl (f, q) ↦ rw (q, decode_all) (Read-later o l ls _ (decode_all-Read ls c l i))
    | inr (x, q) ↦ rw (q, decode_all) (Read-later o l ls _ (decode_all-Read ls _ l i))
  ]
