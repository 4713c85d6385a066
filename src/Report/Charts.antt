-- ===== src/Report/Charts.antt =====
-- internal/report/charts.go: what the charts show. Drawing is left to the plotting library.
pub mod Phases
pub mod Plots
pub mod Partition
pub mod Lines
use sluice_gate_telemetery_i.Base.{
  ℕ, zero, suc, ◌+◌, ◌*◌, ◌%◌, ◌≤◌, ◌<◌, Bytes, codes, beq, beq_eq, beq_refl, bytes_lt, ◌≡◌, refl,
  sym, ap, subst, ◌∙◌, ◌⊎◌, inl, inr, ◌↔◌, List, [], ◌∷◌, ◌++◌, Bool, true, false, ◌||◌, not,
  Option, none, some, if◌then◌else◌, arith, In, ltb, Bool-cases,
}
use sluice_gate_telemetery_i.Event.{Result, ok, err}
use sluice_gate_telemetery_i.Report.{SweepPoint, ScalingPoint, Scaling, Report}
use sluice_gate_telemetery_i.Report.Load.{insert, sort_slice, int_lt}
use sluice_gate_telemetery_i.Report.Load.Order.{InOrder, sort_slice-InOrder, bytes_lt-asym}

-- `seen[p]`.
abbrev pub member : Bytes → List Bytes → Bool
member p [] = false
member p (q ∷ qs) = beq p q || member p qs

-- The loop of distinctPhases.
unfoldable pub collect_phases : List SweepPoint → List Bytes → List Bytes
collect_phases [] seen = []
collect_phases (s ∷ ss) seen = elim (member s.phase seen) [
  | true ↦ collect_phases ss seen
  | false ↦ s.phase ∷ collect_phases ss (s.phase ∷ seen)
]

unfoldable pub distinct_phases : List SweepPoint → List Bytes
unfolding collect_phases
distinct_phases sweeps = sort_slice bytes_lt (collect_phases sweeps [])

abbrev pub filter : (SweepPoint → Bool) → List SweepPoint → List SweepPoint
filter t [] = []
filter t (s ∷ ss) = let rest = filter t ss in if t s then s ∷ rest else rest

-- The points of LatencyPercentiles, or its error.
unfoldable pub latency_points : Report → Bytes → Result (List SweepPoint)
latency_points r phase = by_points (filter (λ s. beq s.phase phase) r.sweeps)
  where
    by_points : List SweepPoint → Result (List SweepPoint)
    by_points [] = err (codes "no sweep data for phase " ++ phase ++ codes " to chart")
    by_points (s ∷ ss) = ok (sort_slice (λ a b. int_lt a.concurrency b.concurrency) (s ∷ ss))

-- The points of ThroughputVsReplicas, or its error.
unfoldable pub replica_points : Report → Result (List ScalingPoint)
replica_points r = elim r.scaling [
  | none ↦ none_there
  | some s ↦ if s.blocked then none_there else by_points s.points
]
  where
    none_there : Result (List ScalingPoint)
    none_there = err (codes "no valid (non-blocked) phase4 scaling data to chart")

    by_points : List ScalingPoint → Result (List ScalingPoint)
    by_points [] = none_there
    by_points (p ∷ ps) = ok (p ∷ ps)

-- `u | u<<8` of a byte: its bits twice.
unfoldable pub to_u32 : ℕ → ℕ
to_u32 v = v + v * 256
