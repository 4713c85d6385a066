-- ===== src/Report.antt =====
-- internal/report: the results table of the README, made from the benchmark's result files.
pub mod Markers
pub mod Table
pub mod Float
pub mod Headlines
pub mod Peak
pub mod Files
pub mod Load
pub mod Charts
use sluice_gate_telemetery_i.Base.{ℕ, ℤ, Bytes, List, Bool, Option}

-- A float64 is its bit pattern.
abbrev pub Float64 : Type 0
Float64 = ℕ

pub record SweepPoint : Type 0 where
  pub phase : Bytes
  pub concurrency : ℤ
  pub sink : Bytes
  pub real_infra : Bool
  pub throughput_events_per_sec : Float64
  pub latency_ms_p50 : Float64
  pub latency_ms_p95 : Float64
  pub latency_ms_p99 : Float64
  pub latency_ms_max : Float64
  pub source_file : Bytes

pub record LossTest : Type 0 where
  pub produced : ℤ
  pub consumed : ℤ
  pub pass : Bool

pub record DedupTest : Type 0 where
  pub distinct_keys : ℤ
  pub row_count : ℤ
  pub pass : Bool

pub record DlqTest : Type 0 where
  pub malformed_injected : ℤ
  pub dlq_count_observed : ℤ
  pub valid_consumed_after : ℤ
  pub pass : Bool

pub record Backpressure : Type 0 where
  pub baseline_rss_bytes : Float64
  pub peak_rss_bytes : Float64
  pub growth_ratio : Bytes
  pub peak_queue_depth : Float64
  pub pass : Bool

pub record ScalingPoint : Type 0 where
  pub replicas : ℤ
  pub throughput_events_per_sec : Float64

pub record Scaling : Type 0 where
  pub blocked : Bool
  pub blocked_info : Bytes
  pub free_disk_mb : ℤ
  pub required_mb : ℤ
  pub points : List ScalingPoint

-- A nil pointer is `none`.
pub record Report : Type 0 where
  pub sweeps : List SweepPoint
  pub loss_test : Option LossTest
  pub dedup : Option DedupTest
  pub dlq : Option DlqTest
  pub backpressure : Option Backpressure
  pub scaling : Option Scaling
  pub machine_tag : Bytes
