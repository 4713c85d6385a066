-- ===== src/Loadgen/Hdr.antt =====
-- internal/hdr/hdr.go over the library's histograms.
use sluice_gate_telemetery_i.Base.{
  ℕ, zero, suc, ◌+◌, ◌*◌, ◌≤◌, ◌≡◌, refl, ap, ◌∙◌, List, [], ◌∷◌, Option, none, some, get_elem?,
  set, replicate, arith,
}

-- `int64(60 * time.Second)`, in nanoseconds.
abbrev pub highest_trackable_value : ℕ
highest_trackable_value = 60 * 1000000000

-- HdrHistogram: `new` as `New` here makes it, with the bounds of this package. A value within the bounds
-- is counted, in the bucket that it falls into; merging adds the counts up bucket by bucket. The
-- quantiles are in nanoseconds.
pub record Histograms : Type 1 where
  pub Hist : Type 0
  pub new : Hist
  pub record_value : ℕ → Hist → Hist
  pub merge : Hist → Hist → Hist
  pub total_count : Hist → ℕ
  pub value_at_quantile : ℕ → Hist → ℕ
  pub max : Hist → ℕ
  pub new_empty : total_count new ≡ 0
  pub record_counts :
      (n : ℕ) (h : Hist)
      → n ≤ highest_trackable_value
      → total_count (record_value n h) ≡ suc (total_count h)
  pub merge_counts : (h g : Hist) → total_count (merge h g) ≡ total_count h + total_count g
  pub merge_new : (h : Hist) → merge h new ≡ h
  pub merge_left :
      (n : ℕ) (h g : Hist)
      → n ≤ highest_trackable_value
      → merge (record_value n h) g ≡ record_value n (merge h g)
  pub merge_right :
      (n : ℕ) (h g : Hist)
      → n ≤ highest_trackable_value
      → merge h (record_value n g) ≡ record_value n (merge h g)

-- The four values, floats by their bits.
pub record Percentiles : Type 0 where
  pub p50_ms : ℕ
  pub p95_ms : ℕ
  pub p99_ms : ℕ
  pub max_ms : ℕ

module _ (t : Histograms) where
  -- The loop of `Merge`; nil is passed over.
  unfoldable pub merge_into : t.Hist → List (Option t.Hist) → t.Hist
  merge_into merged [] = merged
  merge_into merged (none ∷ hs) = merge_into merged hs
  merge_into merged (some h ∷ hs) = merge_into (t.merge merged h) hs

  unfoldable pub merge : List (Option t.Hist) → t.Hist
  unfolding merge_into
  merge hs = merge_into t.new hs

  -- `to_ms` is the division of an int64 of nanoseconds by `time.Millisecond`, in floats.
  unfoldable pub compute_percentiles : (ℕ → ℕ) → t.Hist → Percentiles
  compute_percentiles to_ms h = record {
    p50_ms = to_ms (t.value_at_quantile 50 h);
    p95_ms = to_ms (t.value_at_quantile 95 h);
    p99_ms = to_ms (t.value_at_quantile 99 h);
    max_ms = to_ms (t.max h);
  }

  -- The values counted in all histograms of a list.
  abbrev pub counted : List (Option t.Hist) → ℕ
  counted [] = 0
  counted (none ∷ hs) = counted hs
  counted (some h ∷ hs) = t.total_count h + counted hs

  merge_into-counted :
      (hs : List (Option t.Hist)) (m : t.Hist)
      → t.total_count (merge_into m hs) ≡ t.total_count m + counted hs
  unfolding merge_into
  merge_into-counted [] m = omega arith
  merge_into-counted (none ∷ hs) m = merge_into-counted hs m
  merge_into-counted (some h ∷ hs) m =
      omega (arith, merge_into-counted hs (t.merge m h), t.merge_counts m h)

  pub merge-counted : (hs : List (Option t.Hist)) → t.total_count (merge hs) ≡ counted hs
  unfolding merge
  merge-counted hs = omega (arith, merge_into-counted hs t.new, t.new_empty)

  -- The values recorded one after the other.
  abbrev pub record_all : List ℕ → t.Hist → t.Hist
  record_all [] h = h
  record_all (n ∷ ns) h = record_all ns (t.record_value n h)

  pub merge_into-record_value :
      (n : ℕ) (hs : List (Option t.Hist)) (m : t.Hist)
      → n ≤ highest_trackable_value
      → merge_into (t.record_value n m) hs ≡ t.record_value n (merge_into m hs)
  unfolding merge_into
  merge_into-record_value n [] m l = refl
  merge_into-record_value n (none ∷ hs) m l = merge_into-record_value n hs m l
  merge_into-record_value n (some h ∷ hs) m l =
      ap (λ k. merge_into k hs) (t.merge_left n m h l)
      ∙ merge_into-record_value n hs (t.merge m h) l

  -- An empty histogram changes nothing.
  pub merge_into-set_new :
      (hs : List (Option t.Hist)) (m : t.Hist) (g : ℕ)
      → get_elem? hs g ≡ some none
      → merge_into m (set hs g (some t.new)) ≡ merge_into m hs
  unfolding merge_into
  merge_into-set_new [] m g h = refl
  merge_into-set_new (some j ∷ hs) m zero h = cc
  merge_into-set_new (none ∷ hs) m zero h = ap (λ k. merge_into k hs) (t.merge_new m)
  merge_into-set_new (none ∷ hs) m (suc g) h = merge_into-set_new hs m g h
  merge_into-set_new (some j ∷ hs) m (suc g) h = merge_into-set_new hs (t.merge m j) g h

  pub merge_into-none : (n : ℕ) (m : t.Hist) → merge_into m (replicate n none) ≡ m
  unfolding merge_into
  merge_into-none zero m = refl
  merge_into-none (suc n) m = merge_into-none n m
