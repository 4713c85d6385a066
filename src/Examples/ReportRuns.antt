-- ===== src/Examples/ReportRuns.antt =====
-- Runs of the report (internal/report).
use mathlib.Core.List.{Perm}
use sluice_gate_telemetery_i.Base.{
  ◌<◌, ℤ, pos, Bytes, codes, refl, List, [], ◌∷◌, true, false, none, some, length,
}
use sluice_gate_telemetery_i.Event.{ok, err}
use sluice_gate_telemetery_i.Report.{Float64, SweepPoint, Report}
use sluice_gate_telemetery_i.Report.Markers.{
  Replaced, replace_between_markers, replace_between_markers-Replaced, index, splice, match_prefix,
  match_suffix,
}
use sluice_gate_telemetery_i.Report.Headlines.{headlines}
use sluice_gate_telemetery_i.Report.Peak.{
  Highest, any_sweep, real_sweep, no_peak, peak_of, real_peak_of, headlines-Highest,
}
use sluice_gate_telemetery_i.Report.Files.{file_kind, sweep_file, scaling_real_file, timestamp_json}
use sluice_gate_telemetery_i.Report.Load.{
  SweepShape, Files, Entry, load, load_entries, load_entry, load_file, finish, sweep_point,
}
use sluice_gate_telemetery_i.Report.Load.Ordered.{Ordered, ByPhase}
use sluice_gate_telemetery_i.Report.Load.Sweeps.{sweep_points, load-sweeps}

abbrev pub readme : Bytes
readme = codes "a <!-- RESULTS:BEGIN --> old <!-- RESULTS:END --> b"

replace_between_markers-Replaced_example : Replaced readme (codes "new") (codes "a new b")
unfolding replace_between_markers index splice match_prefix
replace_between_markers-Replaced_example =
    replace_between_markers-Replaced readme (codes "new") (codes "a new b") refl

abbrev pub point_at : Bytes → ℤ → Float64 → SweepPoint
point_at phase concurrency throughput = record {
  phase = phase;
  concurrency = concurrency;
  sink = codes "kafka";
  real_infra = true;
  throughput_events_per_sec = throughput;
  latency_ms_p50 = 0;
  latency_ms_p95 = 0;
  latency_ms_p99 = 0;
  latency_ms_max = 0;
  source_file = codes "phase2_c8_20240101T000000Z.json";
}

abbrev pub report : Report
report = record {
  sweeps =
      point_at (codes "phase2") (pos 8) 4607182418800017408
      ∷ point_at (codes "phase2") (pos 32) 4611686018427387904
      ∷ [];
  loss_test = some (record { produced = pos 5; consumed = pos 5; pass = true });
  dedup = none;
  dlq = none;
  backpressure = none;
  scaling = none;
  machine_tag = codes "m1";
}

abbrev first : Float64 → Float64 → Float64
first x y = x

abbrev pub nothing : Float64 → Bytes
nothing x = []

headlines-Highest_example :
    Highest any_sweep report.sweeps no_peak (peak_of (headlines first nothing report))
    × Highest real_sweep report.sweeps no_peak (real_peak_of (headlines first nothing report))
headlines-Highest_example = headlines-Highest first nothing report

abbrev pub shape : SweepShape
shape = record {
  machine_tag = codes "m1";
  sink = codes "memory";
  concurrency = pos 8;
  throughput_events_per_sec = 4607182418800017408;
  p50 = 0;
  p95 = 0;
  p99 = 0;
  max = 0;
}

-- Every sweep file holds `shape`; there are no others.
abbrev pub files : Files
files = record {
  sweep = λ name. ok shape;
  loss = λ name. err (codes "no such file");
  correctness = λ name. err (codes "no such file");
  backpressure = λ name. err (codes "no such file");
  blocked = λ name. err (codes "no such file");
}

abbrev pub sweep_name : Bytes
sweep_name = codes "phase0_c8_20240101T000000Z.json"

abbrev pub entries : List Entry
entries =
    record { name = codes "README.md"; is_dir = false }
    ∷ record { name = sweep_name; is_dir = false }
    ∷ []

abbrev pub loaded : Report
loaded = record {
  sweeps = sweep_point sweep_name (codes "0") shape ∷ [];
  loss_test = none;
  dedup = none;
  dlq = none;
  backpressure = none;
  scaling = none;
  machine_tag = codes "m1";
}

load-sweeps_example :
    Perm loaded.sweeps (sweep_points files entries)
    × (0 < length (sweep_points files entries))
    × Ordered ByPhase loaded.sweeps
unfolding load load_entries load_entry load_file finish file_kind sweep_file scaling_real_file
    timestamp_json match_prefix match_suffix
load-sweeps_example = load-sweeps (codes "bench/results") files entries loaded refl
