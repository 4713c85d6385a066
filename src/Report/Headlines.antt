-- ===== src/Report/Headlines.antt =====
-- internal/report/headlines.go: the figures quoted from a report.
use sluice_gate_telemetery_i.Base.{
  ℤ, pos, negsuc, Bytes, codes, List, [], ◌∷◌, ◌++◌, Bool, false, ◌&&◌, Option, none, some, ◌==◌,
  if◌then◌else◌,
}
use sluice_gate_telemetery_i.Strconv.{format_int}
use sluice_gate_telemetery_i.Report.{
  Float64, SweepPoint, LossTest, DedupTest, Scaling, ScalingPoint, Report,
}
use sluice_gate_telemetery_i.Report.Float.{float_gt}

pub record Headlines : Type 0 where
  pub peak_throughput_events_per_sec : Float64
  pub peak_throughput_phase : Bytes
  pub peak_throughput_concurrency : ℤ
  pub p99_at_peak_ms : Float64
  pub real_infra_peak_throughput_events_per_sec : Float64
  pub real_infra_peak_phase : Bytes
  pub real_infra_peak_concurrency : ℤ
  pub real_infra_p99_at_peak_ms : Float64
  pub zero_loss_confirmed : Bool
  pub dedup_confirmed : Bool
  pub scaling_factor : Bytes
  pub machine_tag : Bytes

abbrev pub int_eq : ℤ → ℤ → Bool
int_eq (pos a) (pos b) = a == b
int_eq (negsuc a) (negsuc b) = a == b
int_eq (pos a) (negsuc b) = false
int_eq (negsuc a) (pos b) = false

-- `Headlines{MachineTag: r.MachineTag}`; the bits of +0 are all zero.
abbrev pub start : Bytes → Headlines
start tag = record {
  peak_throughput_events_per_sec = 0;
  peak_throughput_phase = [];
  peak_throughput_concurrency = pos 0;
  p99_at_peak_ms = 0;
  real_infra_peak_throughput_events_per_sec = 0;
  real_infra_peak_phase = [];
  real_infra_peak_concurrency = pos 0;
  real_infra_p99_at_peak_ms = 0;
  zero_loss_confirmed = false;
  dedup_confirmed = false;
  scaling_factor = [];
  machine_tag = tag;
}

-- The first `if` of the loop.
unfoldable pub raise_peak : SweepPoint → Headlines → Headlines
unfolding float_gt
raise_peak s h =
    if float_gt s.throughput_events_per_sec h.peak_throughput_events_per_sec
    then record h {
      peak_throughput_events_per_sec = s.throughput_events_per_sec;
      peak_throughput_phase = s.phase;
      peak_throughput_concurrency = s.concurrency;
      p99_at_peak_ms = s.latency_ms_p99;
    }
    else h

-- The second.
unfoldable pub raise_real_peak : SweepPoint → Headlines → Headlines
unfolding float_gt
raise_real_peak s h =
    if s.real_infra
      && float_gt s.throughput_events_per_sec h.real_infra_peak_throughput_events_per_sec
    then record h {
      real_infra_peak_throughput_events_per_sec = s.throughput_events_per_sec;
      real_infra_peak_phase = s.phase;
      real_infra_peak_concurrency = s.concurrency;
      real_infra_p99_at_peak_ms = s.latency_ms_p99;
    }
    else h

unfoldable pub peaks : List SweepPoint → Headlines → Headlines
unfolding raise_peak raise_real_peak
peaks [] h = h
peaks (s ∷ ss) h = peaks ss (raise_real_peak s (raise_peak s h))

unfoldable pub loss_confirmed : Option LossTest → Bool
loss_confirmed none = false
loss_confirmed (some t) = t.pass && int_eq t.produced t.consumed

unfoldable pub dedup_confirmed_by : Option DedupTest → Bool
dedup_confirmed_by none = false
dedup_confirmed_by (some t) = t.pass

abbrev pub last_of : ScalingPoint → List ScalingPoint → ScalingPoint
last_of p [] = p
last_of p (q ∷ qs) = last_of q qs

abbrev pub not_measured : Bytes
not_measured = codes "not measured on this machine (BLOCKED - see RUN_STATUS.md)"

-- The division of float64s, and what "%.2f" prints.
module _ (divide : Float64 → Float64 → Float64) (format_2f : Float64 → Bytes) where
  -- From `first`, and from a list of at least one more point.
  unfoldable pub factor_text : ScalingPoint → List ScalingPoint → Bytes
  unfolding float_gt format_int
  factor_text first [] = []
  factor_text first (p ∷ ps) =
      let last = last_of p ps in
      if float_gt first.throughput_events_per_sec 0
      then format_2f (divide last.throughput_events_per_sec first.throughput_events_per_sec)
        ++ (codes "x ("
            ++ (format_int first.replicas
                ++ (codes " -> " ++ (format_int last.replicas ++ codes " replicas)"))))
      else []

  unfoldable pub scaling_text : Option Scaling → Bytes
  unfolding factor_text
  scaling_text none = []
  scaling_text (some s) = if s.blocked then not_measured else points_text s.points
    where
      points_text : List ScalingPoint → Bytes
      points_text [] = []
      points_text (p ∷ ps) = factor_text p ps

  unfoldable pub headlines : Report → Headlines
  unfolding peaks loss_confirmed dedup_confirmed_by scaling_text
  headlines r = record (peaks r.sweeps (start r.machine_tag)) {
    zero_loss_confirmed = loss_confirmed r.loss_test;
    dedup_confirmed = dedup_confirmed_by r.dedup;
    scaling_factor = scaling_text r.scaling;
  }
