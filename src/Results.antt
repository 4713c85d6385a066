-- ===== src/Results.antt =====
-- internal/results/phase0.go and internal/benchmeta/meta.go: the result files that cmd/loadgen writes.
pub mod Names
pub mod Loaded
use sluice_gate_telemetery_i.Base.{
  ℕ, ◌+◌, ◌/◌, ◌%◌, ℤ, Bytes, codes, ◌≡◌, List, [], ◌∷◌, ◌++◌, Bool, Option, none, some,
}
use sluice_gate_telemetery_i.Event.{Error, Result, ok, err}
use sluice_gate_telemetery_i.Strconv.{format_nat}
use sluice_gate_telemetery_i.Report.{Float64}
use sluice_gate_telemetery_i.Loadgen.Hdr.{Percentiles}
use sluice_gate_telemetery_i.Loadgen.Tally as Tally

abbrev pub machine_tag_here : Bytes
machine_tag_here =
    codes
      "Intel MacBook Pro, quad-core i5-1038NG7 (8 threads), 16GB RAM, Ubuntu 20.04, native Docker"

-- benchmeta.Environment.
pub record Environment : Type 0 where
  pub go_version : Bytes
  pub gomaxprocs : ℤ
  pub os : Bytes
  pub arch : Bytes
  pub real_infra : Bool
  pub machine_tag : Bytes
  pub timestamp : Bytes

-- What package runtime and the clock give.
pub record Machine : Type 0 where
  pub version : Bytes
  pub gomaxprocs : ℤ
  pub goos : Bytes
  pub goarch : Bytes
  pub now : Bytes

unfoldable pub current_environment : Machine → Bool → Environment
current_environment m real_infra = record {
  go_version = m.version;
  gomaxprocs = m.gomaxprocs;
  os = m.goos;
  arch = m.goarch;
  real_infra = real_infra;
  machine_tag = machine_tag_here;
  timestamp = m.now;
}

pub record Phase0Config : Type 0 where
  pub target : Bytes
  pub sink : Bytes
  pub workers : ℤ
  pub queue : ℤ
  pub duration : Bytes
  pub warmup : Bytes
  pub concurrency : ℤ
  pub batch_size : ℤ
  pub devices : ℤ
  pub rate_hz : ℤ

pub record LatencyMs : Type 0 where
  pub p50 : Float64
  pub p95 : Float64
  pub p99 : Float64
  pub max : Float64

pub record Phase0Results : Type 0 where
  pub events_accepted : ℕ
  pub events_rejected : ℕ
  pub errors : ℕ
  pub window_seconds : Float64
  pub throughput_events_per_sec : Float64
  pub latency_ms : LatencyMs

pub record Phase0File : Type 0 where
  pub phase : Bytes
  pub environment : Environment
  pub config : Phase0Config
  pub results : Phase0Results

unfoldable pub latency_from_percentiles : Percentiles → LatencyMs
latency_from_percentiles p = record {
  p50 = p.p50_ms;
  p95 = p.p95_ms;
  p99 = p.p99_ms;
  max = p.max_ms;
}

-- A time in UTC.
pub record Time : Type 0 where
  pub year : ℕ
  pub month : ℕ
  pub day : ℕ
  pub hour : ℕ
  pub minute : ℕ
  pub second : ℕ

abbrev pub digit : ℕ → ℕ
digit n = b'0' + n % 10

abbrev pub two_digits : ℕ → Bytes
two_digits n = digit (n / 10) ∷ digit n ∷ []

abbrev pub four_digits : ℕ → Bytes
four_digits n = digit (n / 1000) ∷ digit (n / 100) ∷ two_digits n

-- `t.Format("20060102T150405Z")`, for a year of four digits.
unfoldable pub timestamp : Time → Bytes
timestamp t =
    four_digits t.year
    ++ (two_digits t.month
        ++ (two_digits t.day
            ++ (codes "T"
                ++ (two_digits t.hour
                    ++ (two_digits t.minute ++ (two_digits t.second ++ codes "Z"))))))

-- `fmt.Sprintf("%s_%s.json", prefix, ts)`.
unfoldable pub result_name : Bytes → Time → Bytes
unfolding timestamp
result_name prefix t = prefix ++ (codes "_" ++ (timestamp t ++ codes ".json"))

-- The scripts' "phase<phase>_c<concurrency>".
abbrev pub sweep_prefix : ℕ → ℕ → Bytes
sweep_prefix phase concurrency =
    codes "phase" ++ (format_nat phase ++ (codes "_c" ++ format_nat concurrency))

-- encoding/json on a result file, and package os; `mkdir_all` and `write_file` with the modes of the code.
-- What is written without error is read back.
pub record Disk : Type 1 where
  pub State : Type 0
  pub marshal_indent : Phase0File → Result Bytes
  pub mkdir_all : Bytes → State → State × Option Error
  pub write_file : Bytes → Bytes → State → State × Option Error
  pub read_file : Bytes → State → Result Bytes
  pub write_ok :
      (path b : Bytes) (s : State)
      → (write_file path b s).1 ≡ none
      → read_file path (write_file path b s).0 ≡ ok b

-- `filepath.Join` of a directory that is clean and not empty, and a file's name.
abbrev pub join : Bytes → Bytes → Bytes
join dir name = dir ++ (codes "/" ++ name)

unfoldable pub write_json :
    (d : Disk) → Bytes → Bytes → Time → Phase0File → d.State → d.State × Result Bytes
unfolding result_name
write_json d dir prefix now v s =
    let made = d.mkdir_all dir s in
    elim made.1 [
      | some x ↦ (made.0, err x)
      | none ↦ elim (d.marshal_indent v) [
        | err x ↦ (made.0, err x)
        | ok b ↦
            let path = join dir (result_name prefix now) in
            let written = d.write_file path b made.0 in
            (written.0, elim written.1 [ none ↦ ok path | some x ↦ err x ])
      ]
    ]

-- The flags of cmd/loadgen that it records; durations as `String` gives them.
pub record Flags : Type 0 where
  pub target : Bytes
  pub duration : Bytes
  pub warmup : Bytes
  pub concurrency : ℤ
  pub batch_size : ℤ
  pub devices : ℤ
  pub rate : ℤ
  pub sink_label : Bytes
  pub real_infra : Bool
  pub results_prefix : Bytes
  pub gateway_workers : ℤ
  pub gateway_queue : ℤ

-- `file` of cmd/loadgen.
unfoldable pub file_of : Flags → Machine → Tally.Result → Phase0File
unfolding current_environment latency_from_percentiles
file_of f m res = record {
  phase = f.results_prefix;
  environment = current_environment m f.real_infra;
  config = record {
    target = f.target;
    sink = f.sink_label;
    workers = f.gateway_workers;
    queue = f.gateway_queue;
    duration = f.duration;
    warmup = f.warmup;
    concurrency = f.concurrency;
    batch_size = f.batch_size;
    devices = f.devices;
    rate_hz = f.rate;
  };
  results = record {
    events_accepted = res.events_accepted;
    events_rejected = res.events_rejected;
    errors = res.errors;
    window_seconds = res.window_seconds;
    throughput_events_per_sec = res.throughput_events_per_sec;
    latency_ms = latency_from_percentiles res.latency;
  };
}
