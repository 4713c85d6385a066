-- ===== src/Dedup/OneByOne.antt =====
-- The pipelined check of internal/dedup/redis.go against `Seen` called for one key after the other.
use mathlib.Core.Path.{fun_ext}
use sluice_gate_telemetery_i.Base.{Bytes, ◌≡◌, refl, sym, ap, ◌∙◌, List, [], ◌∷◌, Bool, not, arith}
use sluice_gate_telemetery_i.Event.{Result, ok, err}
use sluice_gate_telemetery_i.Dedup.{also, claimed, Redis, seen, seen_batch}
use sluice_gate_telemetery_i.Dedup.Replay.{repeats, seen_batch-repeats}

not-not : (b : Bool) → not (not b) ≡ b
not-not b = ground arith

module _ (r : Redis) where
  -- `Seen` for each key in order, up to the first error.
  unfoldable pub seen_all : List Bytes → r.State → r.State × Result (List Bool)
  unfolding seen
  seen_all [] s = (s, ok [])
  seen_all (k ∷ ks) s =
      let first = seen r k s in
      let rest = seen_all ks first.0 in
      elim first.1 [
        | ok b ↦ (rest.0, elim rest.1 [ ok bs ↦ ok (b ∷ bs) | err x ↦ err x ])
        | err x ↦ (first.0, err x)
      ]

  -- What a run of single checks without an error answers and leaves behind.
  abbrev Answered : (Bytes → Bool) → List Bytes → List Bool → r.State × Result (List Bool) → Type 0
  Answered has ks cs a =
      a.1 ≡ ok cs → (cs ≡ repeats has ks) × ((j : Bytes) → r.has a.0 j ≡ claimed has ks j)

  seen-claims :
      (k : Bytes) (s : r.State) (b : Bool)
      → (seen r k s).1 ≡ ok b
      → (b ≡ r.has s k) × (r.has (seen r k s).0 ≡ also (r.has s) k)
  unfolding seen
  seen-claims k s b h = by_reply (r.set_nx k s).1 refl
    where
      by_reply :
          (o : Result Bool)
          → (r.set_nx k s).1 ≡ o
          → (b ≡ r.has s k) × (r.has (r.set_nx k s).0 ≡ also (r.has s) k)
      by_reply (ok was_set) e =
          let (answer, kept) = r.set_nx_ok k s was_set e in
          let same : ok (not was_set) ≡ ok b = rw (e, seen) at h in
          (cc (same, ap not answer, not-not (r.has s k)), fun_ext kept)
      by_reply (err x) e = let same : err x ≡ ok b = rw (e, seen) at h in cc

  seen_all-Answered :
      (ks : List Bytes) (s : r.State) (cs : List Bool) → Answered (r.has s) ks cs (seen_all ks s)
  unfolding seen_all
  seen_all-Answered [] s cs = λ h. (cc, λ j. refl)
  seen_all-Answered (k ∷ ks) s cs =
      by_first (seen r k s).1 refl (seen_all-Answered ks (seen r k s).0)
    where
      rest : r.State × Result (List Bool)
      rest = seen_all ks (seen r k s).0

      by_rest :
          (b : Bool) (o : Result (List Bool))
          → (seen r k s).1 ≡ ok b
          → ((ds : List Bool) → Answered (r.has (seen r k s).0) ks ds (rest.0, o))
          → Answered (r.has s) (k ∷ ks) cs (rest.0, elim o [ ok bs ↦ ok (b ∷ bs) | err x ↦ err x ])
      by_rest b (ok bs) e ih h =
          let (answer, kept) = seen-claims k s b e in
          let (tail, all) = ih bs refl in
          (cc (h, answer, tail), λ j. all j ∙ ap (λ f. claimed f ks j) kept)
      by_rest b (err x) e ih h = cc

      by_first :
          (o : Result Bool)
          → (seen r k s).1 ≡ o
          → ((ds : List Bool) → Answered (r.has (seen r k s).0) ks ds rest)
          → Answered (r.has s) (k ∷ ks) cs (elim o [
            | ok b ↦ (rest.0, elim rest.1 [ ok bs ↦ ok (b ∷ bs) | err x ↦ err x ])
            | err x ↦ ((seen r k s).0, err x)
          ])
      by_first (ok b) e ih = by_rest b rest.1 e ih
      by_first (err x) e ih = λ h. cc

  -- Where neither meets an error, the pipelined check of a batch gives the answers that `Seen` gives
  -- for its keys one after the other, and leaves the same keys in Redis.
  pub seen_batch-seen_all :
      (ks : List Bytes) (s : r.State) (bs cs : List Bool)
      → (seen_batch r ks s).1 ≡ ok bs
      → (seen_all ks s).1 ≡ ok cs
      → (bs ≡ cs) × ((j : Bytes) → r.has (seen_batch r ks s).0 j ≡ r.has (seen_all ks s).0 j)
  seen_batch-seen_all ks s bs cs h k =
      let (batch, held) = seen_batch-repeats r ks s bs h in
      let (single, left) = seen_all-Answered ks s cs k in
      (batch ∙ sym single, λ j. held j ∙ sym (left j))
