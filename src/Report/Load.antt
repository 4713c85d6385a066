-- ===== src/Report/Load.antt =====
-- Load of internal/report/data.go: one report from the files of a directory.
pub mod Order
pub mod Ordered
pub mod Sweeps
use sluice_gate_telemetery_i.Base.{
  ℕ, zero, suc, ℤ, pos, negsuc, Bytes, codes, beq, bytes_lt, List, [], ◌∷◌, ◌++◌, Bool, true, false,
  not, Option, none, some, ltb, ◌==◌, if◌then◌else◌,
}
use sluice_gate_telemetery_i.Event.{Error, Result, ok, err}
use sluice_gate_telemetery_i.Report.{
  Float64, SweepPoint, LossTest, DedupTest, DlqTest, Backpressure, ScalingPoint, Scaling, Report,
}
use sluice_gate_telemetery_i.Report.Files.{
  FileKind, sweep_kind, loss_kind, correctness_kind, backpressure_kind, blocked_kind, scaling_kind,
  other_kind, file_kind, atoi,
}

-- sweepFileShape.
pub record SweepShape : Type 0 where
  pub machine_tag : Bytes
  pub sink : Bytes
  pub concurrency : ℤ
  pub throughput_events_per_sec : Float64
  pub p50 : Float64
  pub p95 : Float64
  pub p99 : Float64
  pub max : Float64

-- The shapes that the cases of the `switch` decode, with the machine's tag.
pub record Tagged (A : Type 0) : Type 0 where
  pub content : A
  pub machine_tag : Bytes

-- readJSON (os.ReadFile and encoding/json) into each shape, by the file's name.
pub record Files : Type 0 where
  pub sweep : Bytes → Result SweepShape
  pub loss : Bytes → Result (Tagged LossTest)
  pub correctness : Bytes → Result (Tagged (DedupTest × DlqTest))
  pub backpressure : Bytes → Result (Tagged Backpressure)
  pub blocked : Bytes → Result (Tagged Scaling)

pub record Entry : Type 0 where
  pub name : Bytes
  pub is_dir : Bool

-- The report and `sawAnySweep`.
pub record Progress : Type 0 where
  pub report : Report
  pub saw_any_sweep : Bool

-- The first tag that is not empty stays.
abbrev pub keep_tag : Bytes → Bytes → Bytes
keep_tag [] tag = tag
keep_tag (c ∷ s) tag = c ∷ s

abbrev pub sweep_point : Bytes → Bytes → SweepShape → SweepPoint
sweep_point name m x = record {
  phase = codes "phase" ++ m;
  concurrency = x.concurrency;
  sink = x.sink;
  real_infra = not (beq x.sink (codes "memory"));
  throughput_events_per_sec = x.throughput_events_per_sec;
  latency_ms_p50 = x.p50;
  latency_ms_p95 = x.p95;
  latency_ms_p99 = x.p99;
  latency_ms_max = x.max;
  source_file = name;
}

abbrev pub map_ok : {A B : Type 0} → (A → B) → Result A → Result B
map_ok f (ok a) = ok (f a)
map_ok f (err x) = err x

abbrev pub add_sweep : Bytes → Bytes → Progress → SweepShape → Progress
add_sweep name m p x = record {
  report = record p.report {
    sweeps = p.report.sweeps ++ sweep_point name m x ∷ [];
    machine_tag = keep_tag p.report.machine_tag x.machine_tag;
  };
  saw_any_sweep = true;
}

abbrev pub put_loss : Progress → Tagged LossTest → Progress
put_loss p x = record p {
  report = record p.report {
    loss_test = some x.content;
    machine_tag = keep_tag p.report.machine_tag x.machine_tag;
  };
}

abbrev pub put_correctness : Progress → Tagged (DedupTest × DlqTest) → Progress
put_correctness p x = record p {
  report = record p.report {
    dedup = some x.content.0;
    dlq = some x.content.1;
    machine_tag = keep_tag p.report.machine_tag x.machine_tag;
  };
}

abbrev pub put_backpressure : Progress → Tagged Backpressure → Progress
put_backpressure p x = record p {
  report = record p.report {
    backpressure = some x.content;
    machine_tag = keep_tag p.report.machine_tag x.machine_tag;
  };
}

-- The file gives the reason and the two sizes; the rest is set here.
abbrev pub put_blocked : Progress → Tagged Scaling → Progress
put_blocked p x = record p {
  report = record p.report {
    scaling = some (record x.content { blocked = true; points = [] });
    machine_tag = keep_tag p.report.machine_tag x.machine_tag;
  };
}

abbrev pub no_scaling : Scaling
no_scaling = record {
  blocked = false;
  blocked_info = [];
  free_disk_mb = pos 0;
  required_mb = pos 0;
  points = [];
}

abbrev pub scaling_or_new : Option Scaling → Scaling
scaling_or_new none = no_scaling
scaling_or_new (some s) = s

-- An earlier BLOCKED mark stays; this file's tag is not read.
abbrev pub add_scaling : Bytes → Progress → SweepShape → Progress
add_scaling m p x =
    let s = scaling_or_new p.report.scaling in
    record p {
      report = record p.report {
        scaling = some (record s {
          points =
              s.points
              ++ record {
                replicas = atoi m;
                throughput_events_per_sec = x.throughput_events_per_sec;
              }
                ∷ [];
        });
      };
    }

-- The body of the loop for a file of a kind.
unfoldable pub load_file : Files → Bytes → FileKind → Progress → Result Progress
unfolding atoi
load_file f name (sweep_kind m) p = map_ok (add_sweep name m p) (f.sweep name)
load_file f name loss_kind p = map_ok (put_loss p) (f.loss name)
load_file f name correctness_kind p = map_ok (put_correctness p) (f.correctness name)
load_file f name backpressure_kind p = map_ok (put_backpressure p) (f.backpressure name)
load_file f name blocked_kind p = map_ok (put_blocked p) (f.blocked name)
load_file f name (scaling_kind m) p = map_ok (add_scaling m p) (f.sweep name)
load_file f name other_kind p = ok p

unfoldable pub load_entry : Files → Entry → Progress → Result Progress
unfolding load_file file_kind
load_entry f e p = if e.is_dir then ok p else load_file f e.name (file_kind e.name) p

unfoldable pub load_entries : Files → List Entry → Progress → Result Progress
unfolding load_entry
load_entries f [] p = ok p
load_entries f (e ∷ es) p = elim (load_entry f e p) [ ok q ↦ load_entries f es q | err x ↦ err x ]

abbrev pub int_lt : ℤ → ℤ → Bool
int_lt (pos a) (pos b) = ltb a b
int_lt (pos a) (negsuc b) = false
int_lt (negsuc a) (pos b) = true
int_lt (negsuc a) (negsuc b) = ltb b a

-- sort.Slice, on a slice short enough (at most 12) for its insertion sort; a longer one may come out
-- with equal elements in another order.
abbrev pub insert : {A : Type 0} → (A → A → Bool) → A → List A → List A
insert less x [] = x ∷ []
insert less x (y ∷ ys) = let rest = insert less x ys in if less y x then y ∷ rest else x ∷ (y ∷ ys)

abbrev pub sort_slice : {A : Type 0} → (A → A → Bool) → List A → List A
sort_slice less [] = []
sort_slice less (x ∷ xs) = insert less x (sort_slice less xs)

abbrev pub sweep_less : SweepPoint → SweepPoint → Bool
sweep_less a b =
    if beq a.phase b.phase then int_lt a.concurrency b.concurrency else bytes_lt a.phase b.phase

abbrev pub point_less : ScalingPoint → ScalingPoint → Bool
point_less a b = int_lt a.replicas b.replicas

abbrev pub sort_scaling : Option Scaling → Option Scaling
sort_scaling none = none
sort_scaling (some s) = some (record s { points = sort_slice point_less s.points })

abbrev pub no_report : Report
no_report = record {
  sweeps = [];
  loss_test = none;
  dedup = none;
  dlq = none;
  backpressure = none;
  scaling = none;
  machine_tag = [];
}

pub no_sweeps : Bytes → Error
no_sweeps dir =
    codes "no phase0 sweep results found in "
    ++ dir
    ++ codes "; refusing to render a results table from nothing - run scripts/run_phase0.sh first"

-- The end of Load.
unfoldable pub finish : Bytes → Progress → Result Report
finish dir p =
    if p.saw_any_sweep
    then ok (record p.report {
      sweeps = sort_slice sweep_less p.report.sweeps;
      scaling = sort_scaling p.report.scaling;
    })
    else err (no_sweeps dir)

-- The last argument is what os.ReadDir gives.
unfoldable pub load : Bytes → Files → Result (List Entry) → Result Report
unfolding load_entries finish
load dir f (err x) = err (codes "read results dir " ++ dir ++ codes ": " ++ x)
load dir f (ok es) =
    elim (load_entries f es (record { report = no_report; saw_any_sweep = false })) [
      | ok p ↦ finish dir p
      | err x ↦ err x
    ]
