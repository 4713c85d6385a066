-- ===== src/Cmd/LoadgenMain.antt =====
-- cmd/loadgen/main.go: a run of the load generator, and its result file.
pub mod Measured
use sluice_gate_telemetery_i.Base.{ℕ, ℤ, pos, negsuc, Bytes, codes, List, ◌++◌, Option, none, some}
use sluice_gate_telemetery_i.Event.{Error, Result, ok, err}
use sluice_gate_telemetery_i.Loadgen.Hdr.{Histograms}
use sluice_gate_telemetery_i.Loadgen.Tally as Tally
use sluice_gate_telemetery_i.Loadgen.Tally.{Act, new_counters, tally, result_of}
use sluice_gate_telemetery_i.Results.{Flags, Machine, Time, Disk, file_of, write_json}

-- What the run meets: the answer of grpc.NewClient, the calls in the order in which they come back,
-- `cfg.Duration.Seconds()`, and the clock at the end.
pub record Course : Type 0 where
  pub dial : Option Error
  pub acts : List Act
  pub window : ℕ
  pub machine : Machine
  pub now : Time

-- `rate` is the division of a uint64 by a float64, `to_ms` of nanoseconds to a float64 of milliseconds.
module _ (t : Histograms) (rate : ℕ → ℕ → ℕ) (to_ms : ℕ → ℕ) where
  -- A run: its result, its error, or the panic of `make` on a negative length.
  pub data Ran : Type 0 where
    ran : Tally.Result → Ran
    run_error : Error → Ran
    panicked : Ran

  -- `Run`.
  unfoldable pub run : Flags → Course → Ran
  run f c = elim c.dial [
    | some x ↦ run_error (codes "dial " ++ (f.target ++ (codes ": " ++ x)))
    | none ↦ elim f.concurrency [
      | pos n ↦ ran (result_of t rate to_ms c.window (tally t c.acts (new_counters t n)))
      | negsuc n ↦ panicked
    ]
  ]

  module _ (d : Disk) where
    -- `log.Fatalf`, the panic, or the path of the file.
    pub data Outcome : Type 0 where
      run_failed write_failed : Error → d.State → Outcome
      crashed : d.State → Outcome
      wrote : Bytes → d.State → Outcome

    abbrev pub write_result : Flags → Bytes → Course → Tally.Result → d.State → Outcome
    write_result f dir c res s =
        let written = write_json d dir f.results_prefix c.now (file_of f c.machine res) s in
        elim written.1 [ err x ↦ write_failed x written.0 | ok path ↦ wrote path written.0 ]

    unfoldable pub loadgen_main : Flags → Bytes → Course → d.State → Outcome
    unfolding run
    loadgen_main f dir c s = elim (run f c) [
      | run_error x ↦ run_failed x s
      | panicked ↦ crashed s
      | ran res ↦ write_result f dir c res s
    ]
