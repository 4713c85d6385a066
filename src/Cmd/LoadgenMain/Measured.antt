-- ===== src/Cmd/LoadgenMain/Measured.antt =====
-- What the report shows of a run of cmd/loadgen/main.go.
use sluice_gate_telemetery_i.Base.{
  ℕ, ℤ, pos, negsuc, ◌*◌, ◌<◌, ◌≡◌, refl, sym, subst, Bytes, codes, [], ◌∷◌, ◌++◌, true, false,
  Option, none, some, u64_mod,
}
use sluice_gate_telemetery_i.Event.{Error, Result, ok, err}
use sluice_gate_telemetery_i.Strconv.{format_nat}
use sluice_gate_telemetery_i.Loadgen.Hdr.{Histograms}
use sluice_gate_telemetery_i.Loadgen.Tally as Tally
use sluice_gate_telemetery_i.Loadgen.Tally.{Act, new_counters, tally, result_of}
use sluice_gate_telemetery_i.Loadgen.Tally.Course.{IsCourse}
use sluice_gate_telemetery_i.Loadgen.Tally.Totals.{
  over_calls, succeeded, failed, accepted_by, tally-totals,
}
use sluice_gate_telemetery_i.Report.{SweepPoint}
use sluice_gate_telemetery_i.Report.Load.{Files, Progress, load_entry, keep_tag}
use sluice_gate_telemetery_i.Results.{
  Flags, Disk, file_of, write_json, result_name, sweep_prefix, machine_tag_here,
}
use sluice_gate_telemetery_i.Results.Loaded.{Reads, files_in, write_json-loads}
use sluice_gate_telemetery_i.Cmd.LoadgenMain.{
  Course, Ran, ran, run_error, panicked, run, Outcome, run_failed, write_failed, crashed, wrote,
  write_result, loadgen_main,
}

module _ (t : Histograms) (rate : ℕ → ℕ → ℕ) (to_ms : ℕ → ℕ) (d : Disk) (j : Reads d) where
  -- The one sweep point that a report gets from the file in the directory.
  pub record Measured (fs : Files) (dir : Bytes) (phase n : ℕ) (c : Course) (s : d.State)
      (p : Progress) : Type 0 where
    pub point : SweepPoint
    pub loads :
        load_entry
          (files_in d j dir s fs)
          (record { name = result_name (sweep_prefix phase n) c.now; is_dir = false })
          p
        ≡ ok (record {
          report = record p.report {
            sweeps = p.report.sweeps ++ point ∷ [];
            machine_tag = keep_tag p.report.machine_tag machine_tag_here;
          };
          saw_any_sweep = true;
        })
    pub of_phase : point.phase ≡ codes "phase" ++ format_nat phase
    pub of_concurrency : point.concurrency ≡ pos n
    pub throughput : point.throughput_events_per_sec ≡ rate (over_calls accepted_by c.acts) c.window

  module _ (fs : Files) (dir : Bytes) (phase n size : ℕ) (f : Flags) (c : Course) (s : d.State)
      (p : Progress) where
    abbrev IfMeasured : Outcome t rate to_ms d → Type 0
    IfMeasured (run_failed x s') = Unit
    IfMeasured (write_failed x s') = Unit
    IfMeasured (crashed s') = Unit
    IfMeasured (wrote path s') = Measured fs dir phase n c s' p

    loadgen_main-IfMeasured :
        f.concurrency ≡ pos n
        → f.results_prefix ≡ sweep_prefix phase n
        → IsCourse t size c.acts (new_counters t n)
        → over_calls succeeded c.acts * size < u64_mod
        → over_calls failed c.acts < u64_mod
        → IfMeasured (loadgen_main t rate to_ms d f dir c s)
    unfolding loadgen_main run
    loadgen_main-IfMeasured many prefix course room few = by_dial c.dial f.concurrency many
      where
        res : Tally.Result
        res = result_of t rate to_ms c.window (tally t c.acts (new_counters t n))

        file : d.State × Result Bytes
        file = write_json d dir (sweep_prefix phase n) c.now (file_of f c.machine res) s

        by_file :
            (o : Result Bytes)
            → file.1 ≡ o
            → IfMeasured (elim o [ err x ↦ write_failed x file.0 | ok path ↦ wrote path file.0 ])
        by_file (err x) h = tt
        by_file (ok path) h = record {
          point = _;
          loads = write_json-loads d j fs dir phase n c.now f c.machine res s path p h;
          of_phase = refl;
          of_concurrency = many;
          throughput = (tally-totals t size n c.window rate to_ms c.acts course room few).4;
        }

        by_prefix : IfMeasured (write_result t rate to_ms d f dir c res s)
        by_prefix =
            subst
              (λ q. IfMeasured (
                let w = write_json d dir q c.now (file_of f c.machine res) s in
                elim w.1 [ err x ↦ write_failed x w.0 | ok path ↦ wrote path w.0 ]))
              (sym prefix) (by_file file.1 refl)

        by_dial :
            (o : Option Error) (z : ℤ)
            → z ≡ pos n
            → IfMeasured
                (elim (let r : Ran t rate to_ms = elim o [
                  | some x ↦ run_error (codes "dial " ++ (f.target ++ (codes ": " ++ x)))
                  | none ↦ elim z [
                    | pos n ↦
                        ran (result_of t rate to_ms c.window (tally t c.acts (new_counters t n)))
                    | negsuc n ↦ panicked
                  ]
                ] in
                  r) [
                    | run_error x ↦ run_failed x s
                    | panicked ↦ crashed s
                    | ran r ↦ write_result t rate to_ms d f dir c r s
                  ])
        by_dial (some x) z e = tt
        by_dial none z e = rw e by_prefix

  -- Take a run of at least zero goroutines whose calls are answered as the gateway does, with counters that
  -- do not wrap, and with the scripts' prefix for the phase and its concurrency. When the program says that
  -- it wrote its file, `Load` makes of that file one sweep point, of that phase and concurrency, whose
  -- throughput is the number of accepted events by the window.
  pub loadgen_main-Measured :
      (fs : Files) (dir : Bytes) (phase n size : ℕ) (f : Flags) (c : Course) (s s' : d.State)
      (p : Progress) (path : Bytes)
      → f.concurrency ≡ pos n
      → f.results_prefix ≡ sweep_prefix phase n
      → IsCourse t size c.acts (new_counters t n)
      → over_calls succeeded c.acts * size < u64_mod
      → over_calls failed c.acts < u64_mod
      → loadgen_main t rate to_ms d f dir c s ≡ wrote path s'
      → Measured fs dir phase n c s' p
  loadgen_main-Measured fs dir phase n size f c s s' p path many prefix course room few h =
      subst (IfMeasured fs dir phase n size f c s p) h
        (loadgen_main-IfMeasured fs dir phase n size f c s p many prefix course room few)
