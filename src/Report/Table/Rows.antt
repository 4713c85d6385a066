-- ===== src/Report/Table/Rows.antt =====
-- The rows of the table in internal/report/table.go.
use sluice_gate_telemetery_i.Base.{
  Bytes, codes, List, [], ◌∷◌, ◌++◌, Bool, true, false, Option, none, some, if◌then◌else◌,
}
use sluice_gate_telemetery_i.Strconv.{format_int}
use sluice_gate_telemetery_i.Report.{
  Float64, SweepPoint, LossTest, DedupTest, DlqTest, Backpressure, ScalingPoint, Scaling,
}

-- Texts written one after the other.
abbrev pub join : List Bytes → Bytes
join [] = []
join (s ∷ ss) = s ++ join ss

-- "%v" of a bool.
abbrev pub format_bool : Bool → Bytes
format_bool true = codes "true"
format_bool false = codes "false"

unfoldable pub pass_fail : Bool → Bytes
pass_fail pass = if pass then codes "PASS" else codes "FAIL"

-- "—" in UTF-8.
abbrev pub dash : Bytes
dash = 226 ∷ 128 ∷ 148 ∷ []

abbrev pub newline : Bytes
newline = 10 ∷ []

-- formatFloat, "%.1f" of a float64, is a parameter.
module _ (format_float : Float64 → Bytes) where
  unfoldable pub sweep_row : SweepPoint → Bytes
  unfolding format_int
  sweep_row s = join (
      codes "| "
      ∷ s.phase
      ∷ codes " | "
      ∷ s.sink
      ∷ codes " | "
      ∷ format_bool s.real_infra
      ∷ codes " | "
      ∷ format_int s.concurrency
      ∷ codes " | "
      ∷ format_float s.throughput_events_per_sec
      ∷ codes " | "
      ∷ format_float s.latency_ms_p50
      ∷ codes " | "
      ∷ format_float s.latency_ms_p95
      ∷ codes " | "
      ∷ format_float s.latency_ms_p99
      ∷ codes " |"
      ∷ newline
      ∷ [])

  unfoldable pub sweep_rows : List SweepPoint → Bytes
  unfolding sweep_row
  sweep_rows [] = []
  sweep_rows (s ∷ ss) = sweep_row s ++ sweep_rows ss

  unfoldable pub loss_row : Option LossTest → Bytes
  unfolding pass_fail format_int
  loss_row none = join (codes "| Kafka loss test | " ∷ dash ∷ codes " |" ∷ newline ∷ [])
  loss_row (some t) = join (
      codes "| Kafka loss test (broker restart mid-produce) | "
      ∷ pass_fail t.pass
      ∷ codes " (produced="
      ∷ format_int t.produced
      ∷ codes ", consumed="
      ∷ format_int t.consumed
      ∷ codes ") |"
      ∷ newline
      ∷ [])

  unfoldable pub dedup_row : Option DedupTest → Bytes
  unfolding pass_fail format_int
  dedup_row none = join (codes "| Redis dedup | " ∷ dash ∷ codes " |" ∷ newline ∷ [])
  dedup_row (some t) = join (
      codes "| Redis dedup (replay a batch twice) | "
      ∷ pass_fail t.pass
      ∷ codes " (distinct_keys="
      ∷ format_int t.distinct_keys
      ∷ codes ", row_count="
      ∷ format_int t.row_count
      ∷ codes ") |"
      ∷ newline
      ∷ [])

  unfoldable pub dlq_row : Option DlqTest → Bytes
  unfolding pass_fail format_int
  dlq_row none = join (codes "| DLQ | " ∷ dash ∷ codes " |" ∷ newline ∷ [])
  dlq_row (some t) = join (
      codes "| DLQ (malformed records + pipeline keeps flowing) | "
      ∷ pass_fail t.pass
      ∷ codes " (injected="
      ∷ format_int t.malformed_injected
      ∷ codes ", in_dlq="
      ∷ format_int t.dlq_count_observed
      ∷ codes ", valid_consumed_after="
      ∷ format_int t.valid_consumed_after
      ∷ codes ") |"
      ∷ newline
      ∷ [])

  unfoldable pub backpressure_row : Option Backpressure → Bytes
  unfolding pass_fail
  backpressure_row none = join (codes "| Backpressure proof | " ∷ dash ∷ codes " |" ∷ newline ∷ [])
  backpressure_row (some t) = join (
      codes "| Backpressure proof (RSS stays bounded under overload) | "
      ∷ pass_fail t.pass
      ∷ codes " (ratio="
      ∷ t.growth_ratio
      ∷ codes ", peak_queue_depth="
      ∷ format_float t.peak_queue_depth
      ∷ codes ") |"
      ∷ newline
      ∷ [])

  abbrev pub scaling_head : Bytes
  scaling_head =
      join (
        codes "| Replicas | Throughput (events/sec) |" ∷ newline ∷ codes "|---|---|" ∷ newline ∷ [])

  unfoldable pub scaling_rows : List ScalingPoint → Bytes
  unfolding format_int
  scaling_rows [] = []
  scaling_rows (p ∷ ps) =
      join (
        codes "| "
        ∷ format_int p.replicas
        ∷ codes " | "
        ∷ format_float p.throughput_events_per_sec
        ∷ codes " |"
        ∷ newline
        ∷ [])
      ++ scaling_rows ps

  unfoldable pub blocked_text : Scaling → Bytes
  unfolding format_int
  blocked_text s = join (
      codes "BLOCKED: "
      ∷ s.blocked_info
      ∷ codes " ("
      ∷ format_int s.free_disk_mb
      ∷ codes "MB free, "
      ∷ format_int s.required_mb
      ∷ codes
          "MB required). See RUN_STATUS.md for the exact commands to run this on a machine with more disk."
      ∷ newline
      ∷ newline
      ∷ scaling_head
      ∷ codes "| 1 | "
      ∷ dash
      ∷ codes " |"
      ∷ newline
      ∷ codes "| 2 | "
      ∷ dash
      ∷ codes " |"
      ∷ newline
      ∷ codes "| 4 | "
      ∷ dash
      ∷ codes " |"
      ∷ newline
      ∷ [])

  unfoldable pub scaling_section : Option Scaling → Bytes
  unfolding blocked_text scaling_rows
  scaling_section none =
      join (scaling_head ∷ codes "| " ∷ dash ∷ codes " | " ∷ dash ∷ codes " |" ∷ newline ∷ [])
  scaling_section (some s) =
      if s.blocked then blocked_text s else scaling_head ++ scaling_rows s.points
