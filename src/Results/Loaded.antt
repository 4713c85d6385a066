-- ===== src/Results/Loaded.antt =====
-- What internal/report makes of the file that cmd/loadgen has written.
use sluice_gate_telemetery_i.Base.{
  ℕ, ltb, ◌&&◌, Bool, subst, ◌≡◌, refl, ap, Bytes, codes, beq, [], ◌∷◌, ◌++◌, true, false, not,
  Option, none, some,
}
use sluice_gate_telemetery_i.Event.{Error, Result, ok, err}
use sluice_gate_telemetery_i.Strconv.{format_nat}
use sluice_gate_telemetery_i.Report.Files.{file_kind, sweep_kind}
use sluice_gate_telemetery_i.Report.Load.{
  SweepShape, Files, Progress, keep_tag, map_ok, add_sweep, load_file, load_entry,
}
use sluice_gate_telemetery_i.Results.{
  Phase0File, Disk, join, write_json, Time, result_name, sweep_prefix, Flags, Machine, file_of,
  machine_tag_here,
}
use sluice_gate_telemetery_i.Results.Names.{file_kind-result_name}
use sluice_gate_telemetery_i.Loadgen.Tally as Tally

-- The fields of a result file under the names that sweepFileShape reads, its strings as `utf8` leaves
-- them.
abbrev pub shape_of : (Bytes → Bytes) → Phase0File → SweepShape
shape_of utf8 f = record {
  machine_tag = utf8 f.environment.machine_tag;
  sink = utf8 f.config.sink;
  concurrency = f.config.concurrency;
  throughput_events_per_sec = f.results.throughput_events_per_sec;
  p50 = f.results.latency_ms.p50;
  p95 = f.results.latency_ms.p95;
  p99 = f.results.latency_ms.p99;
  max = f.results.latency_ms.max;
}

abbrev pub is_ascii : Bytes → Bool
is_ascii [] = true
is_ascii (c ∷ s) = ltb c 128 && is_ascii s

-- encoding/json into a sweepFileShape: it reads by name what was written by name, and strings come back
-- with what is not UTF-8 in them replaced.
pub record Reads (d : Disk) : Type 0 where
  pub unmarshal : Bytes → Result SweepShape
  pub utf8 : Bytes → Bytes
  pub utf8_ascii : (s : Bytes) → is_ascii s ≡ true → utf8 s ≡ s
  pub unmarshal-marshal :
      (f : Phase0File) (b : Bytes) → d.marshal_indent f ≡ ok b → unmarshal b ≡ ok (shape_of utf8 f)

module _ (d : Disk) (j : Reads d) where
  -- readJSON.
  unfoldable pub read_json : Bytes → d.State → Result SweepShape
  read_json path s = elim (d.read_file path s) [
    | err x ↦ err (codes "read " ++ (path ++ (codes ": " ++ x)))
    | ok b ↦ elim (j.unmarshal b) [
      | err x ↦ err (codes "parse " ++ (path ++ (codes ": " ++ x)))
      | ok v ↦ ok v
    ]
  ]

  -- The directory's files, with its sweeps read from the disk.
  abbrev pub files_in : Bytes → d.State → Files → Files
  files_in dir s fs = record fs { sweep = λ name. read_json (join dir name) s }

  read_json-written :
      (path b : Bytes) (f : Phase0File) (s : d.State)
      → d.marshal_indent f ≡ ok b
      → (d.write_file path b s).1 ≡ none
      → read_json path (d.write_file path b s).0 ≡ ok (shape_of j.utf8 f)
  unfolding read_json
  read_json-written path b f s m w =
      rw (d.write_ok path b s w, read_json) (rw (j.unmarshal-marshal f b m) refl)

  write_json-read :
      (dir prefix : Bytes) (now : Time) (f : Phase0File) (s : d.State) (path : Bytes)
      → (write_json d dir prefix now f s).1 ≡ ok path
      → read_json (join dir (result_name prefix now)) (write_json d dir prefix now f s).0
        ≡ ok (shape_of j.utf8 f)
  unfolding write_json
  write_json-read dir prefix now f s path = by_made (d.mkdir_all dir s).1 (d.marshal_indent f) refl
    where
      to : Bytes
      to = join dir (result_name prefix now)

      s1 : d.State
      s1 = (d.mkdir_all dir s).0

      encoded : Result Bytes → d.State × Result Bytes
      encoded o = elim o [
        | err x ↦ (s1, err x)
        | ok b ↦
            let written = d.write_file to b s1 in
            (written.0, elim written.1 [ none ↦ ok to | some x ↦ err x ])
      ]

      by_written :
          (b : Bytes) (o : Option Error)
          → d.marshal_indent f ≡ ok b
          → (d.write_file to b s1).1 ≡ o
          → elim o as (λ y. Result Bytes) [ none ↦ ok to | some x ↦ err x ] ≡ ok path
          → read_json to (d.write_file to b s1).0 ≡ ok (shape_of j.utf8 f)
      by_written b none m w h = read_json-written to b f s1 m w
      by_written b (some x) m w h = cc

      by_made :
          (a : Option Error) (o : Result Bytes)
          → d.marshal_indent f ≡ o
          → let r : d.State × Result Bytes = elim a [ some x ↦ (s1, err x) | none ↦ encoded o ] in
            r.1 ≡ ok path → read_json to r.0 ≡ ok (shape_of j.utf8 f)
      by_made (some x) o m = λ h. cc
      by_made none (err x) m = λ h. cc
      by_made none (ok b) m = by_written b (d.write_file to b s1).1 m refl

  load_entry-sweep :
      (fs : Files) (name m : Bytes) (x : SweepShape) (p : Progress)
      → file_kind name ≡ sweep_kind m
      → fs.sweep name ≡ ok x
      → load_entry fs (record { name = name; is_dir = false }) p ≡ ok (add_sweep name m p x)
  unfolding load_entry load_file
  load_entry-sweep fs name m x p k r = rw (k, load_entry) (ap (map_ok (add_sweep name m p)) r)

  -- What cmd/loadgen has measured and written without error, under the scripts' prefix for a phase and a
  -- concurrency, is what `Load` adds to the report when it comes to that file: one sweep point of
  -- that phase, with the throughput and the latencies of the result, and with the sink's label as
  -- encoding/json gives it back (itself, where it is ASCII).
  pub write_json-loads :
      (fs : Files) (dir : Bytes) (phase concurrency : ℕ) (now : Time) (f : Flags) (m : Machine)
      (res : Tally.Result) (s : d.State) (path : Bytes) (p : Progress)
      → let written = write_json d dir (sweep_prefix phase concurrency) now (file_of f m res) s in
        let name = result_name (sweep_prefix phase concurrency) now in
        written.1 ≡ ok path
        → load_entry (files_in dir written.0 fs) (record { name = name; is_dir = false }) p
          ≡ ok (record {
            report = record p.report {
              sweeps =
                  p.report.sweeps
                  ++ record {
                    phase = codes "phase" ++ format_nat phase;
                    concurrency = f.concurrency;
                    sink = j.utf8 f.sink_label;
                    real_infra = not (beq (j.utf8 f.sink_label) (codes "memory"));
                    throughput_events_per_sec = res.throughput_events_per_sec;
                    latency_ms_p50 = res.latency.p50_ms;
                    latency_ms_p95 = res.latency.p95_ms;
                    latency_ms_p99 = res.latency.p99_ms;
                    latency_ms_max = res.latency.max_ms;
                    source_file = name;
                  }
                    ∷ [];
              machine_tag = keep_tag p.report.machine_tag machine_tag_here;
            };
            saw_any_sweep = true;
          })
  unfolding file_of
  write_json-loads fs dir phase concurrency now f m res s path p h =
      let name = result_name (sweep_prefix phase concurrency) now in
      let there =
        files_in dir (write_json d dir (sweep_prefix phase concurrency) now file s).0 fs in
      subst
        (λ tag.
          load_entry there (record { name = name; is_dir = false }) p
          ≡ ok (
              add_sweep name (format_nat phase) p
                (record (shape_of j.utf8 file) { machine_tag = tag })))
        (j.utf8_ascii machine_tag_here refl)
        (load_entry-sweep there name (format_nat phase) (shape_of j.utf8 file) p
          (file_kind-result_name phase concurrency now)
          (write_json-read dir (sweep_prefix phase concurrency) now file s path h))
    where
      file : Phase0File
      file = file_of f m res
