-- ===== src/Examples/ChartRuns.antt =====
-- Runs of the charts (internal/report/charts.go) and of cmd/report.
use sluice_gate_telemetery_i.Base.{pos, codes, refl, [], ◌∷◌, ◌++◌, none, some}
use sluice_gate_telemetery_i.Event.{ok, err}
use sluice_gate_telemetery_i.Report.{Report}
use sluice_gate_telemetery_i.Report.Float.{float_gt}
use sluice_gate_telemetery_i.Report.Markers.{
  index, splice, match_prefix, match_suffix, replace_between_markers,
}
use sluice_gate_telemetery_i.Report.Table.{render_markdown, update_readme}
use sluice_gate_telemetery_i.Report.Files.{file_kind, sweep_file, scaling_real_file, timestamp_json}
use sluice_gate_telemetery_i.Report.Load.{load, load_entries, load_entry, load_file, finish}
use sluice_gate_telemetery_i.Report.Charts.{
  distinct_phases, collect_phases, latency_points, replica_points,
}
use sluice_gate_telemetery_i.Report.Charts.Plots.{
  Plotting, Chart, palette, palette_color, add_line, add_phases, phase_xys, new_throughput_chart,
  throughput_chart, throughput_vs_concurrency, latency_chart, latency_percentiles, replicas_chart,
  throughput_vs_replicas, save_png,
}
use sluice_gate_telemetery_i.Report.Charts.Lines.{Shows, throughput_chart-Shows}
use sluice_gate_telemetery_i.Cmd.ReportMain.{Flags, Disk, Written, report_main}
use sluice_gate_telemetery_i.Cmd.ReportMain.Reported.{Reported, report_main-Reported}
use sluice_gate_telemetery_i.Examples.ReportRuns.{readme, point_at, nothing, files, entries, loaded}

-- A plotting library that draws everything.
abbrev plotting : Plotting
plotting = record {
  float_of = λ n. 0;
  new_line = λ xys. none;
  mkdir_all = λ dir. none;
  join = λ dir file. dir ++ (codes "/" ++ file);
  save = λ c path. none;
}

-- Sweeps of two phases.
abbrev report : Report
report = record loaded {
  sweeps =
      point_at (codes "phase2") (pos 8) 4607182418800017408
      ∷ point_at (codes "phase0") (pos 8) 4611686018427387904
      ∷ point_at (codes "phase2") (pos 32) 4611686018427387904
      ∷ [];
}

abbrev chart : Chart
chart = record (new_throughput_chart plotting) {
  lines =
      record {
        legend = some (codes "phase0");
        color = palette 0;
        points = record { x = 0; y = 4611686018427387904 } ∷ [];
      }
      ∷ record {
        legend = some (codes "phase2");
        color = palette 1;
        points =
            record { x = 0; y = 4607182418800017408 }
            ∷ record { x = 0; y = 4611686018427387904 }
            ∷ [];
      }
      ∷ [];
}

throughput_chart-Shows_example : Shows plotting report.sweeps chart
unfolding throughput_chart add_phases add_line phase_xys palette_color distinct_phases
    collect_phases float_gt
throughput_chart-Shows_example = throughput_chart-Shows plotting report chart refl

abbrev flags : Flags
flags = record {
  results_dir = codes "bench/results";
  readme_path = codes "README.md";
  charts_dir = codes "docs/charts";
  latency_phase = codes "phase2";
}

abbrev disk : Disk
disk = record {
  files = files;
  entries = ok entries;
  read_file = λ path. ok readme;
  write_file = λ path text. none;
}

-- There is no sweep of phase 2, and nothing of phase 4.
abbrev written : Written
written = record {
  readme = codes "a " ++ (render_markdown nothing loaded ++ codes " b");
  throughput = ok (codes "docs/charts/throughput-vs-concurrency.png");
  latency = err (codes "no sweep data for phase phase2 to chart");
  replicas = err (codes "no valid (non-blocked) phase4 scaling data to chart");
}

report_main-Reported_example : Reported nothing plotting flags disk written
unfolding report_main load load_entries load_entry load_file finish file_kind sweep_file
    scaling_real_file timestamp_json match_prefix match_suffix update_readme replace_between_markers
    index splice throughput_vs_concurrency throughput_chart add_phases add_line save_png
    latency_percentiles latency_chart latency_points throughput_vs_replicas replicas_chart
    replica_points distinct_phases collect_phases
report_main-Reported_example = report_main-Reported nothing plotting flags disk written refl
