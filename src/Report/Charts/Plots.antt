-- ===== src/Report/Charts/Plots.antt =====
-- internal/report/charts.go: the charts as the code builds them, up to the drawing.
use sluice_gate_telemetery_i.Base.{
  ℕ, zero, suc, ◌%◌, ℤ, Bytes, codes, beq, List, [], ◌∷◌, ◌++◌, map, Bool, true, false, Option,
  none, some,
}
use sluice_gate_telemetery_i.Event.{Error, Result, ok, err}
use sluice_gate_telemetery_i.Report.{Float64, SweepPoint, ScalingPoint, Report}
use sluice_gate_telemetery_i.Report.Float.{float_gt}
use sluice_gate_telemetery_i.Report.Load.{sort_slice}
use sluice_gate_telemetery_i.Report.Charts.{
  distinct_phases, filter, latency_points, replica_points, to_u32,
}

-- colorRGBA, its fields bytes.
pub record Color : Type 0 where
  pub r : ℕ
  pub g : ℕ
  pub b : ℕ
  pub a : ℕ

-- `RGBA`.
abbrev pub rgba : Color → ℕ × ℕ × ℕ × ℕ
rgba c = (to_u32 c.r, to_u32 c.g, to_u32 c.b, to_u32 c.a)

abbrev pub palette : ℕ → Color
palette zero = record { r = 31; g = 119; b = 180; a = 255 }
palette (suc zero) = record { r = 255; g = 127; b = 14; a = 255 }
palette (suc (suc zero)) = record { r = 44; g = 160; b = 44; a = 255 }
palette (suc (suc (suc zero))) = record { r = 214; g = 39; b = 40; a = 255 }
palette (suc (suc (suc (suc n)))) = record { r = 148; g = 103; b = 189; a = 255 }

unfoldable pub palette_color : ℕ → Color
palette_color i = palette (i % 5)

-- plotter.XY.
pub record Xy : Type 0 where
  pub x : Float64
  pub y : Float64

-- What is added to the plot; the chart of the replicas has no legend.
pub record Line : Type 0 where
  pub legend : Option Bytes
  pub color : Color
  pub points : List Xy

pub record Chart : Type 0 where
  pub title : Bytes
  pub x_label : Bytes
  pub y_label : Bytes
  pub log_scale : Bool
  pub lines : List Line

-- gonum's plot, the file system, and Go's conversion of an int.
pub record Plotting : Type 0 where
  pub float_of : ℤ → Float64
  pub new_line : List Xy → Option Error
  pub mkdir_all : Bytes → Option Error
  pub join : Bytes → Bytes → Bytes
  pub save : Chart → Bytes → Option Error

abbrev pub bind : {A B : Type 0} → Result A → (A → Result B) → Result B
bind (ok a) f = f a
bind (err x) f = err x

-- `pts[a].X < pts[b].X`.
abbrev pub x_less : Xy → Xy → Bool
x_less p q = float_gt q.x p.x

module _ (k : Plotting) where
  -- `plotter.NewLine`, its colour, and its place in the plot.
  unfoldable pub add_line : Option Bytes → ℕ → List Xy → Chart → Result Chart
  unfolding palette_color
  add_line legend i xys c = elim (k.new_line xys) [
    | some x ↦ err x
    | none ↦ ok (record c {
      lines = c.lines ++ record { legend = legend; color = palette_color i; points = xys } ∷ [];
    })
  ]

  abbrev pub sweep_xy : SweepPoint → Xy
  sweep_xy s = record { x = k.float_of s.concurrency; y = s.throughput_events_per_sec }

  abbrev pub of_phase : List SweepPoint → Bytes → List SweepPoint
  of_phase ss phase = filter (λ s. beq s.phase phase) ss

  -- The points of a phase, in the order of X.
  unfoldable pub phase_xys : List SweepPoint → Bytes → List Xy
  phase_xys ss phase = sort_slice x_less (map sweep_xy (of_phase ss phase))

  -- The loop over the phases, from the i-th on.
  unfoldable pub add_phases : List SweepPoint → List Bytes → ℕ → Chart → Result Chart
  unfolding add_line phase_xys
  add_phases ss [] i c = ok c
  add_phases ss (phase ∷ phases) i c = elim (add_line (some phase) i (phase_xys ss phase) c) [
    | err x ↦ err x
    | ok d ↦ add_phases ss phases (suc i) d
  ]

  abbrev pub new_throughput_chart : Chart
  new_throughput_chart = record {
    title = codes "Throughput vs Concurrency";
    x_label = codes "Concurrency";
    y_label = codes "Events/sec (log scale)";
    log_scale = true;
    lines = [];
  }

  unfoldable pub throughput_chart : Report → Result Chart
  unfolding add_phases
  throughput_chart r = by_sweeps r.sweeps
    where
      by_sweeps : List SweepPoint → Result Chart
      by_sweeps [] = err (codes "no sweep data to chart")
      by_sweeps (s ∷ ss) = add_phases (s ∷ ss) (distinct_phases (s ∷ ss)) 0 new_throughput_chart

  unfoldable pub save_png : Bytes → Bytes → Chart → Result Bytes
  save_png dir file c = elim (k.mkdir_all dir) [
    | some x ↦ err x
    | none ↦ elim (k.save c (k.join dir file)) [ some x ↦ err x | none ↦ ok (k.join dir file) ]
  ]

  unfoldable pub throughput_vs_concurrency : Report → Bytes → Result Bytes
  unfolding throughput_chart save_png
  throughput_vs_concurrency r dir =
      bind (throughput_chart r) (save_png dir (codes "throughput-vs-concurrency.png"))

  abbrev pub latency_xys : (SweepPoint → Float64) → List SweepPoint → List Xy
  latency_xys get pts = map (λ s. record { x = k.float_of s.concurrency; y = get s }) pts

  -- The loop over p50, p95 and p99.
  unfoldable pub add_series :
      List (Bytes × (SweepPoint → Float64)) → List SweepPoint → ℕ → Chart → Result Chart
  unfolding add_line
  add_series [] pts i c = ok c
  add_series (s ∷ ss) pts i c = elim (add_line (some s.0) i (latency_xys s.1 pts) c) [
    | err x ↦ err x
    | ok d ↦ add_series ss pts (suc i) d
  ]

  abbrev pub series : List (Bytes × (SweepPoint → Float64))
  series =
      (codes "p50", λ s. s.latency_ms_p50)
      ∷ (codes "p95", λ s. s.latency_ms_p95)
      ∷ (codes "p99", λ s. s.latency_ms_p99)
      ∷ []

  unfoldable pub latency_chart : Report → Bytes → Result Chart
  unfolding add_series latency_points
  latency_chart r phase = bind (latency_points r phase) (λ pts. add_series series pts 0 (record {
    title = codes "Latency Percentiles (" ++ (phase ++ codes ")");
    x_label = codes "Concurrency";
    y_label = codes "Latency (ms)";
    log_scale = false;
    lines = [];
  }))

  unfoldable pub latency_percentiles : Report → Bytes → Bytes → Result Bytes
  unfolding latency_chart save_png
  latency_percentiles r phase dir =
      bind (latency_chart r phase) (save_png dir (codes "latency-percentiles.png"))

  abbrev pub replica_xy : ScalingPoint → Xy
  replica_xy p = record { x = k.float_of p.replicas; y = p.throughput_events_per_sec }

  unfoldable pub replicas_chart : Report → Result Chart
  unfolding add_line replica_points
  replicas_chart r = bind (replica_points r) (λ pts. add_line none 0 (map replica_xy pts) (record {
    title = codes "Throughput vs Consumer Replicas";
    x_label = codes "Consumer Replicas";
    y_label = codes "Events/sec";
    log_scale = false;
    lines = [];
  }))

  unfoldable pub throughput_vs_replicas : Report → Bytes → Result Bytes
  unfolding replicas_chart save_png
  throughput_vs_replicas r dir =
      bind (replicas_chart r) (save_png dir (codes "throughput-vs-replicas.png"))
