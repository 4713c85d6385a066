-- ===== src/Examples/ResultRuns.antt =====
-- A run of the result files (internal/results, internal/report/data.go).
use sluice_gate_telemetery_i.Base.{
  pos, Bytes, codes, beq, beq_refl, ◌≡◌, refl, ap, subst, [], ◌∷◌, ◌++◌, length, true, false,
  Option, none, some, if◌then◌else◌,
}
use sluice_gate_telemetery_i.Event.{Result, ok, err}
use sluice_gate_telemetery_i.Strconv.{format_nat}
use sluice_gate_telemetery_i.Report.Markers.{take, drop, drop-append}
use sluice_gate_telemetery_i.Report.Load.{SweepShape, Files, Progress, no_report, load_entry}
use sluice_gate_telemetery_i.Loadgen.Tally as Tally
use sluice_gate_telemetery_i.Results.{
  Disk, join, write_json, Time, result_name, sweep_prefix, Flags, Machine, file_of,
  machine_tag_here,
}
use sluice_gate_telemetery_i.Results.Loaded.{shape_of, Reads, files_in, write_json-loads}
use sluice_gate_telemetery_i.Examples.Systems.{
  sign_of, size_of, int_of, int_of-parts, take-append, ok_inj,
}

-- Two lengths, the numbers, and the two strings.
abbrev pub encode_shape : SweepShape → Bytes
encode_shape x =
    length x.machine_tag
    ∷ sign_of x.concurrency
    ∷ size_of x.concurrency
    ∷ x.throughput_events_per_sec
    ∷ x.p50
    ∷ x.p95
    ∷ x.p99
    ∷ x.max
    ∷ (x.machine_tag ++ x.sink)

abbrev pub decode_shape : Bytes → Result SweepShape
decode_shape (n ∷ s ∷ z ∷ v ∷ a ∷ b ∷ c ∷ m ∷ t) = ok (record {
  machine_tag = take t n;
  sink = drop t n;
  concurrency = int_of s z;
  throughput_events_per_sec = v;
  p50 = a;
  p95 = b;
  p99 = c;
  max = m;
})
decode_shape _ = err (codes "short")

pub decode_shape-encode : (x : SweepShape) → decode_shape (encode_shape x) ≡ ok x
decode_shape-encode x = ap ok (λ i. record {
  machine_tag = take-append x.machine_tag x.sink i;
  sink = drop-append x.machine_tag x.sink i;
  concurrency = int_of-parts x.concurrency i;
  throughput_events_per_sec = x.throughput_events_per_sec;
  p50 = x.p50;
  p95 = x.p95;
  p99 = x.p99;
  max = x.max;
})

abbrev pub read_at : Bytes → (Bytes → Option Bytes) → Result Bytes
read_at path s = elim (s path) [ none ↦ err (codes "no such file") | some b ↦ ok b ]

pub read_at-written :
    (path b : Bytes) (s : Bytes → Option Bytes)
    → read_at path (λ q. if beq q path then some b else s q) ≡ ok b
read_at-written path b s = rw (beq_refl path, read_at) refl

abbrev pub disk : Disk
disk = record {
  State = Bytes → Option Bytes;
  marshal_indent = λ f. ok (encode_shape (shape_of (λ b. b) f));
  mkdir_all = λ dir s. (s, none);
  write_file = λ path b s. ((λ q. if beq q path then some b else s q), none);
  read_file = read_at;
  write_ok = λ path b s h. read_at-written path b s;
}

abbrev pub reads : Reads disk
reads = record {
  unmarshal = decode_shape;
  utf8 = λ b. b;
  utf8_ascii = λ b h. refl;
  unmarshal-marshal = λ f b h.
      subst (λ c. decode_shape c ≡ ok (shape_of (λ b. b) f))
        (ok_inj (encode_shape (shape_of (λ b. b) f)) b h)
        (decode_shape-encode (shape_of (λ b. b) f));
}

abbrev pub flags : Flags
flags = record {
  target = codes "localhost:50051";
  duration = codes "30s";
  warmup = codes "5s";
  concurrency = pos 32;
  batch_size = pos 100;
  devices = pos 10000;
  rate = pos 0;
  sink_label = codes "kafka";
  real_infra = true;
  results_prefix = codes "phase2_c32";
  gateway_workers = pos 32;
  gateway_queue = pos 10000;
}

abbrev pub machine : Machine
machine = record {
  version = codes "go1.22";
  gomaxprocs = pos 8;
  goos = codes "linux";
  goarch = codes "amd64";
  now = codes "2024-03-05T14:07:09Z";
}

abbrev pub now : Time
now = record { year = 2024; month = 3; day = 5; hour = 14; minute = 7; second = 9 }

abbrev measured : Tally.Result
measured = record {
  events_accepted = 9000;
  events_rejected = 0;
  errors = 0;
  window_seconds = 4629137466983448576;
  throughput_events_per_sec = 4643985272004935680;
  latency = record { p50_ms = 1; p95_ms = 2; p99_ms = 3; max_ms = 4 };
}

abbrev pub no_files : Files
no_files = record {
  sweep = λ name. err [];
  loss = λ name. err [];
  correctness = λ name. err [];
  backpressure = λ name. err [];
  blocked = λ name. err [];
}

abbrev pub nothing_yet : Progress
nothing_yet = record { report = no_report; saw_any_sweep = false }

abbrev written : (Bytes → Option Bytes) × Result Bytes
written =
    write_json disk (codes "bench/results") (sweep_prefix 2 32) now (file_of flags machine measured)
      (λ q. none)

file_name : result_name (sweep_prefix 2 32) now ≡ codes "phase2_c32_20240305T140709Z.json"
unfolding result_name format_nat
file_name = refl

write_json-loads_example :
    let name = result_name (sweep_prefix 2 32) now in
    load_entry
      (files_in disk reads (codes "bench/results") written.0 no_files)
      (record { name = name; is_dir = false })
      nothing_yet
    ≡ ok (record {
      report = record no_report {
        sweeps =
            record {
              phase = codes "phase" ++ format_nat 2;
              concurrency = pos 32;
              sink = codes "kafka";
              real_infra = true;
              throughput_events_per_sec = 4643985272004935680;
              latency_ms_p50 = 1;
              latency_ms_p95 = 2;
              latency_ms_p99 = 3;
              latency_ms_max = 4;
              source_file = name;
            }
            ∷ [];
        machine_tag = machine_tag_here;
      };
      saw_any_sweep = true;
    })
unfolding write_json
write_json-loads_example =
    write_json-loads disk reads no_files (codes "bench/results") 2 32 now flags machine measured
      (λ q. none) (join (codes "bench/results") (result_name (sweep_prefix 2 32) now)) nothing_yet
      refl
