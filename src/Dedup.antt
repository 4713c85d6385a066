-- ===== src/Dedup.antt =====
-- internal/dedup/redis.go: idempotency keys claimed in Redis by SETNX, one by one or in a pipeline.
pub mod Replay
pub mod OneByOne
use sluice_gate_telemetery_i.Base.{
  ℕ, Bytes, beq, ◌⊎◌, inl, inr, In, ◌≡◌, refl, List, [], ◌∷◌, map, Bool, true, false, not, ◌||◌,
}
use sluice_gate_telemetery_i.Event.{Result, ok, err}

-- Which of the keys, set in order where `has` says that they are absent, are set by their SETNX.
abbrev pub also : (Bytes → Bool) → Bytes → Bytes → Bool
also has k j = has j || beq j k

abbrev pub sets : (Bytes → Bool) → List Bytes → List Bool
sets has [] = []
sets has (k ∷ ks) = not (has k) ∷ sets (also has k) ks

abbrev pub claimed : (Bytes → Bool) → List Bytes → Bytes → Bool
claimed has [] j = has j
claimed has (k ∷ ks) j = claimed (also has k) ks j

-- go-redis. `Exec` reports the first error of its commands, so without an error each SETNX has done
-- its work, in order. No key expires within a call; with an error some keys may have been set.
pub record Redis : Type 1 where
  pub State : Type 0
  pub has : State → Bytes → Bool
  pub set_nx : Bytes → State → State × Result Bool
  pub exec : List Bytes → State → State × Result (List (Result Bool))
  pub set_nx_ok :
      (k : Bytes) (s : State) (b : Bool)
      → (set_nx k s).1 ≡ ok b
      → (b ≡ not (has s k)) × ((j : Bytes) → has (set_nx k s).0 j ≡ also (has s) k j)
  pub exec_ok :
      (ks : List Bytes) (s : State) (rs : List (Result Bool))
      → (exec ks s).1 ≡ ok rs
      → (rs ≡ map ok (sets (has s) ks)) × ((j : Bytes) → has (exec ks s).0 j ≡ claimed (has s) ks j)
  pub exec_keeps :
      (ks : List Bytes) (s : State) (j : Bytes) → has s j ≡ true → has (exec ks s).0 j ≡ true
  pub exec_only :
      (ks : List Bytes) (s : State) (j : Bytes)
      → has (exec ks s).0 j ≡ true
      → (has s j ≡ true) ⊎ In j ks

-- `for i, cmd := range cmds`
unfoldable pub collect : List (Result Bool) → Result (List Bool)
collect [] = ok []
collect (err x ∷ cmds) = err x
collect (ok was_set ∷ cmds) = elim (collect cmds) [
  | ok seen ↦ ok (not was_set ∷ seen)
  | err x ↦ err x
]

module _ (r : Redis) where
  unfoldable pub seen : Bytes → r.State → r.State × Result Bool
  seen k s =
      let reply = r.set_nx k s in
      (reply.0, elim reply.1 [ ok was_set ↦ ok (not was_set) | err x ↦ err x ])

  unfoldable pub seen_batch : List Bytes → r.State → r.State × Result (List Bool)
  unfolding collect
  seen_batch [] s = (s, ok [])
  seen_batch (k ∷ ks) s =
      let reply = r.exec (k ∷ ks) s in
      (reply.0, elim reply.1 [ ok cmds ↦ collect cmds | err x ↦ err x ])

  -- A call adds no other keys than the ones asked for, whether it comes back with an error or not.
  pub seen_batch-only :
      (ks : List Bytes) (s : r.State) (j : Bytes)
      → r.has (seen_batch ks s).0 j ≡ true
      → (r.has s j ≡ true) ⊎ In j ks
  unfolding seen_batch
  seen_batch-only [] s j h = inl h
  seen_batch-only (k ∷ ks) s j h = r.exec_only (k ∷ ks) s j h
