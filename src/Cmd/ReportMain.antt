-- ===== src/Cmd/ReportMain.antt =====
-- cmd/report/main.go: from the result files to the README and the charts.
pub mod Reported
use sluice_gate_telemetery_i.Base.{Bytes, List, Option, none, some}
use sluice_gate_telemetery_i.Event.{Error, Result, ok, err}
use sluice_gate_telemetery_i.Report.{Float64, Report}
use sluice_gate_telemetery_i.Report.Load.{Files, Entry, load}
use sluice_gate_telemetery_i.Report.Table.{update_readme}
use sluice_gate_telemetery_i.Report.Charts.Plots.{
  Plotting, throughput_vs_concurrency, latency_percentiles, throughput_vs_replicas,
}

pub record Flags : Type 0 where
  pub results_dir : Bytes
  pub readme_path : Bytes
  pub charts_dir : Bytes
  pub latency_phase : Bytes

-- What the file system answers.
pub record Disk : Type 0 where
  pub files : Files
  pub entries : Result (List Entry)
  pub read_file : Bytes → Result Bytes
  pub write_file : Bytes → Bytes → Option Error

-- The calls of `log.Fatalf`.
pub data Stop : Type 0 where
  report_failed read_failed update_failed write_failed : Error → Stop

-- The README's new text, and for each chart its path, or the error that is logged.
pub record Written : Type 0 where
  pub readme : Bytes
  pub throughput : Result Bytes
  pub latency : Result Bytes
  pub replicas : Result Bytes

pub data Outcome : Type 0 where
  stopped : Stop → Outcome
  finished : Written → Outcome

module _ (format_float : Float64 → Bytes) (k : Plotting) (f : Flags) (d : Disk) where
  -- Behind the README come the charts, whose errors stop nothing.
  abbrev pub charts : Report → Bytes → Outcome
  charts r updated = finished (record {
    readme = updated;
    throughput = throughput_vs_concurrency k r f.charts_dir;
    latency = latency_percentiles k r f.latency_phase f.charts_dir;
    replicas = throughput_vs_replicas k r f.charts_dir;
  })

  abbrev pub write_readme : Report → Bytes → Outcome
  write_readme r updated = elim (d.write_file f.readme_path updated) [
    | some x ↦ stopped (write_failed x)
    | none ↦ charts r updated
  ]

  abbrev pub put_table : Report → Bytes → Outcome
  put_table r original = elim (update_readme format_float r original) [
    | err x ↦ stopped (update_failed x)
    | ok updated ↦ write_readme r updated
  ]

  abbrev pub read_readme : Report → Outcome
  read_readme r = elim (d.read_file f.readme_path) [
    | err x ↦ stopped (read_failed x)
    | ok original ↦ put_table r original
  ]

  unfoldable pub report_main : Outcome
  report_main = elim (load f.results_dir d.files d.entries) [
    | err x ↦ stopped (report_failed x)
    | ok r ↦ read_readme r
  ]
