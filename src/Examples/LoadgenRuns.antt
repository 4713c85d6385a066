-- ===== src/Examples/LoadgenRuns.antt =====
-- A run of cmd/loadgen.
use sluice_gate_telemetery_i.Base.{pos, Bytes, codes, ◌≡◌, refl, Option, none, some, arith}
use sluice_gate_telemetery_i.Loadgen.Tally.{new_counters, tally, result_of}
use sluice_gate_telemetery_i.Results.{Flags, file_of, write_json, result_name, sweep_prefix, join}
use sluice_gate_telemetery_i.Cmd.LoadgenMain.{Course, loadgen_main, run_failed}
use sluice_gate_telemetery_i.Cmd.LoadgenMain.Measured.{Measured, loadgen_main-Measured}
use sluice_gate_telemetery_i.Examples.ToolRuns.{
  histograms, course, course-IsCourse, no_rate, no_float,
}
use sluice_gate_telemetery_i.Examples.ResultRuns.{
  disk, reads, flags, machine, now, no_files, nothing_yet,
}

abbrev two : Flags
two = record flags { concurrency = pos 2; results_prefix = sweep_prefix 2 2 }

abbrev measuring : Course
measuring = record { dial = none; acts = course; window = 30; machine = machine; now = now }

abbrev dir : Bytes
dir = codes "bench/results"

abbrev disk_after : Bytes → Option Bytes
disk_after =
    (write_json disk dir (sweep_prefix 2 2) now
      (file_of two machine (
        result_of histograms no_rate no_float 30
          (tally histograms course (new_counters histograms 2))))
      (λ q. none)).0

loadgen_main-Measured_example :
    Measured histograms no_rate no_float disk reads no_files dir 2 2 measuring disk_after
      nothing_yet
unfolding loadgen_main write_json
loadgen_main-Measured_example =
    loadgen_main-Measured histograms no_rate no_float disk reads no_files dir 2 2 100 two measuring
      (λ q. none) disk_after nothing_yet (join dir (result_name (sweep_prefix 2 2) now)) refl refl
      course-IsCourse (omega arith) (omega arith) refl

no_gateway :
    loadgen_main histograms no_rate no_float disk two dir
      (record measuring { dial = some (codes "no such host") })
      (λ q. none)
    ≡ run_failed (codes "dial localhost:50051: no such host") (λ q. none)
unfolding loadgen_main
no_gateway = refl
