-- ===== src/Examples/ToolRuns.antt =====
-- Runs of the load generator and the loss test (internal/loadgen, internal/results, cmd/losstest).
use mathlib.Core.Path.{ap₂}
use sluice_gate_telemetery_i.Base.{
  map, suc, ltb, leb, ◌==◌, ◌*◌, Bool, if◌then◌else◌, ℕ, ℤ, pos, Bytes, ◌≡◌, List, [], ◌∷◌, In,
  Distinct, arith, sum, none, some, some_inj, subst, refl, true, false, ◌+◌,
}
use sluice_gate_telemetery_i.Consumer.Reporting.{
  Reading, new_reporter, report_loop, rates, per_second, report_loop-rates,
}
use sluice_gate_telemetery_i.Gateway.{Response}
use sluice_gate_telemetery_i.Loadgen.Hdr.{Histograms}
use sluice_gate_telemetery_i.Loadgen.Tally.{
  Act, begins, comes_back, new_counters, act, count_call, tally, result_of,
}
use sluice_gate_telemetery_i.Loadgen.Tally.Totals.{tally-totals}
use sluice_gate_telemetery_i.Loadgen.Tally.Course.{IsCourse}
use sluice_gate_telemetery_i.Loadgen.{requests, keys, requests-Distinct}

abbrev pub no_float : ℕ → ℕ
no_float n = 0

-- Two goroutines.
abbrev first : ℕ
first = 0

abbrev second : ℕ
second = 1

abbrev times : List ℤ
times = pos 1 ∷ pos 2 ∷ []

requests-Distinct_example :
    Distinct (keys no_float (requests no_float (pos 10) first 3 times 0))
    × ((k : Bytes)
        → In k (keys no_float (requests no_float (pos 10) first 3 times 0))
        → In k (keys no_float (requests no_float (pos 10) second 3 times 0))
        → first ≡ second)
requests-Distinct_example =
    requests-Distinct no_float (pos 10) first second 3 times times (omega arith) (omega arith)

-- A histogram of two buckets, below 950 and from there on.
abbrev pub Buckets : Type 0
Buckets = ℕ × ℕ

abbrev pub put : ℕ → Buckets → Buckets
put n (a, b) = if ltb n 950 then (a + 1, b) else (a, b + 1)

abbrev pub join : Buckets → Buckets → Buckets
join (a, b) (c, d) = (a + c, b + d)

abbrev pub size : Buckets → ℕ
size (a, b) = a + b

-- The upper end of the bucket in which that many per cent of the values are reached.
abbrev pub quantile : ℕ → Buckets → ℕ
quantile q (a, b) = if leb (q * (a + b)) (100 * a) then 949 else 1899

abbrev pub highest : Buckets → ℕ
highest (a, b) = if b == 0 then 949 else 1899

pub put-size : (n : ℕ) (h : Buckets) → size (put n h) ≡ suc (size h)
put-size n (a, b) = ground arith

pub join-size : (h g : Buckets) → size (join h g) ≡ size h + size g
join-size (a, b) (c, d) = omega arith

pub join_empty : (h : Buckets) → join h (0, 0) ≡ h
join_empty (a, b) = ap₂ (λ x y. (x, y)) (omega arith) (omega arith)

pub join-put_left : (n : ℕ) (h g : Buckets) → join (put n h) g ≡ put n (join h g)
join-put_left n (a, b) (c, d) = by_test (ltb n 950)
  where
    by_test :
        (x : Bool)
        → join (if x then (a + 1, b) else (a, b + 1)) (c, d)
          ≡ (if x then (a + c + 1, b + d) else (a + c, b + d + 1))
    by_test true = ap₂ (λ x y. (x, y)) (omega arith) refl
    by_test false = ap₂ (λ x y. (x, y)) refl (omega arith)

pub join-put_right : (n : ℕ) (h g : Buckets) → join h (put n g) ≡ put n (join h g)
join-put_right n (a, b) (c, d) = by_test (ltb n 950)
  where
    by_test :
        (x : Bool)
        → join (a, b) (if x then (c + 1, d) else (c, d + 1))
          ≡ (if x then (a + c + 1, b + d) else (a + c, b + d + 1))
    by_test true = ap₂ (λ x y. (x, y)) (omega arith) refl
    by_test false = ap₂ (λ x y. (x, y)) refl (omega arith)

abbrev pub histograms : Histograms
histograms = record {
  Hist = Buckets;
  new = (0, 0);
  record_value = put;
  merge = join;
  total_count = size;
  value_at_quantile = quantile;
  max = highest;
  new_empty = refl;
  record_counts = λ n h l. put-size n h;
  merge_counts = join-size;
  merge_new = join_empty;
  merge_left = λ n h g l. join-put_left n h g;
  merge_right = λ n h g l. join-put_right n h g;
}

-- Two goroutines: one call answered after the warmup, one failed, one answered during the warmup.
abbrev pub course : List Act
course =
    begins 0
    ∷ begins 1
    ∷ comes_back 1 (record {
      answer = some (record { accepted = 100; rejected = 0 });
      elapsed = 900;
      after_warmup = false;
    })
    ∷ comes_back 1 (record { answer = none; elapsed = 10; after_warmup = true })
    ∷ comes_back 0 (record {
      answer = some (record { accepted = 90; rejected = 10 });
      elapsed = 1000;
      after_warmup = true;
    })
    ∷ []

answers :
    (x : Response)
    → x.accepted + x.rejected ≡ 100
    → (r : Response) → some x ≡ some r
    → r.accepted + r.rejected ≡ 100
answers x k r h = subst (λ q. q.accepted + q.rejected ≡ 100) (some_inj x r h) k

abbrev pub no_rate : ℕ → ℕ → ℕ
no_rate n w = n

pub course-IsCourse : IsCourse histograms 100 course (new_counters histograms 2)
unfolding new_counters act count_call
course-IsCourse = (
  refl,
  (
    refl,
    (
      (((0, 0), refl), answers (record { accepted = 100; rejected = 0 }) refl, omega arith),
      (
        (((0, 0), refl), (λ r h. cc), omega arith),
        ((((0, 0), refl), answers (record { accepted = 90; rejected = 10 }) refl, omega arith), tt),
      ),
    ),
  ),
)

abbrev as_is : ℕ → ℕ
as_is n = n

tally-totals_example :
    let r =
      result_of histograms no_rate as_is 30 (tally histograms course (new_counters histograms 2)) in
    (r.events_accepted + r.events_rejected ≡ 200)
    × (r.errors ≡ 1)
    × (r.latency ≡ record { p50_ms = 1899; p95_ms = 1899; p99_ms = 1899; max_ms = 1899 })
    × (size (0, 1) ≡ 1)
    × (r.throughput_events_per_sec ≡ 190)
tally-totals_example =
    tally-totals histograms 100 2 30 no_rate as_is course course-IsCourse (omega arith)
      (omega arith)

-- Two ticks; the second finds no lag.
abbrev readings : List Reading
readings =
    record { consumed = 40; deduped = 2; dlq_sent = 1; lags = some (7 ∷ 5 ∷ []) }
    ∷ record { consumed = 100; deduped = 2; dlq_sent = 1; lags = none }
    ∷ []

report_loop-rates_example :
    let r = report_loop no_float no_float no_rate 5 (new_reporter (some 0)) readings in
    (counts : List ℕ) × (rates no_float no_float no_rate 5 r
      ≡ map (per_second no_float no_float no_rate 5) counts)
    × (sum counts ≡ 100)
report_loop-rates_example =
    report_loop-rates no_float no_float no_rate 5 (some 0) readings
      (omega arith, omega arith, (omega arith, omega arith, tt))
