-- ===== src/Dedup/Replay.antt =====
-- What the batch check of internal/dedup/redis.go answers, and what it answers the second time.
use sluice_gate_telemetery_i.Base.{
  Bytes, beq_refl, ◌≡◌, refl, ap, ◌∙◌, List, [], ◌∷◌, map, Bool, true, arith, inl, inr, length, In,
  suc,
}
use sluice_gate_telemetery_i.Event.{Result, ok, err}
use sluice_gate_telemetery_i.Dedup.{also, sets, claimed, Redis, collect, seen_batch}

-- The keys of a batch that are there already: held before, or earlier in the batch.
abbrev pub repeats : (Bytes → Bool) → List Bytes → List Bool
repeats has [] = []
repeats has (k ∷ ks) = has k ∷ repeats (also has k) ks

collect-sets :
    (has : Bytes → Bool) (ks : List Bytes) → collect (map ok (sets has ks)) ≡ ok (repeats has ks)
unfolding collect
collect-sets has [] = refl
collect-sets has (k ∷ ks) = ground (arith, collect-sets (also has k) ks)

pub length-repeats : (has : Bytes → Bool) (ks : List Bytes) → length (repeats has ks) ≡ length ks
length-repeats has [] = refl
length-repeats has (k ∷ ks) = ap suc (length-repeats (also has k) ks)

claimed-keeps :
    (has : Bytes → Bool) (ks : List Bytes) (j : Bytes) → has j ≡ true → claimed has ks j ≡ true
claimed-keeps has [] j h = h
claimed-keeps has (k ∷ ks) j h = claimed-keeps (also has k) ks j (ground arith)

-- `AllTrue` of the answers: every key is a repeat.
abbrev pub AllTrue : List Bool → Type 0
AllTrue [] = Unit
AllTrue (b ∷ bs) = (b ≡ true) × AllTrue bs

repeats-AllTrue :
    (has : Bytes → Bool) (ks : List Bytes)
    → ((j : Bytes) → In j ks → has j ≡ true)
    → AllTrue (repeats has ks)
repeats-AllTrue has [] h = tt
repeats-AllTrue has (k ∷ ks) h =
    (h k (inl refl), repeats-AllTrue (also has k) ks (λ j m. ground (arith, h j (inr m))))

claimed_all : (has : Bytes → Bool) (ks : List Bytes) (j : Bytes) → In j ks → claimed has ks j ≡ true
claimed_all has [] j m = absurd m
claimed_all has (k ∷ ks) j (inl e) =
    claimed-keeps (also has k) ks j (rw (e, beq_refl k) (ground arith))
claimed_all has (k ∷ ks) j (inr m) = claimed_all (also has k) ks j m

module _ (r : Redis) where
  -- Without an error the batch check answers once for each key, in order, whether it was held before
  -- the call or stands earlier in the batch; afterwards exactly the keys held before and those of the
  -- batch are held.
  pub seen_batch-repeats :
      (ks : List Bytes) (s : r.State) (bs : List Bool)
      → (seen_batch r ks s).1 ≡ ok bs
      → (bs ≡ repeats (r.has s) ks)
        × ((j : Bytes) → r.has (seen_batch r ks s).0 j ≡ claimed (r.has s) ks j)
  unfolding seen_batch
  seen_batch-repeats [] s bs h = (cc, λ j. refl)
  seen_batch-repeats (k ∷ ks) s bs h = by_reply (r.exec (k ∷ ks) s).1 refl
    where
      by_reply :
          (o : Result (List (Result Bool)))
          → (r.exec (k ∷ ks) s).1 ≡ o
          → (bs ≡ repeats (r.has s) (k ∷ ks))
            × ((j : Bytes) → r.has (seen_batch r (k ∷ ks) s).0 j ≡ claimed (r.has s) (k ∷ ks) j)
      by_reply (ok cmds) e =
          let (shape, kept) = r.exec_ok (k ∷ ks) s cmds e in
          let answers : collect cmds ≡ ok bs = rw (e, seen_batch) at h in
          (cc (answers, ap collect shape, collect-sets (r.has s) (k ∷ ks)), kept)
      by_reply (err x) e = let answers : err x ≡ ok bs = rw (e, seen_batch) at h in cc

  -- A key of a batch that was checked without an error is taken for a repeat ever after: the same
  -- batch checked again, before its keys expire, is all repeats.
  pub seen_batch_again :
      (ks : List Bytes) (s : r.State) (bs cs : List Bool)
      → (seen_batch r ks s).1 ≡ ok bs
      → (seen_batch r ks (seen_batch r ks s).0).1 ≡ ok cs
      → AllTrue cs
  seen_batch_again ks s bs cs h k =
      let again = (seen_batch-repeats ks (seen_batch r ks s).0 cs k).0 in
      let held = (seen_batch-repeats ks s bs h).1 in
      rw again (repeats-AllTrue _ ks (λ j m. held j ∙ claimed_all (r.has s) ks j m))
