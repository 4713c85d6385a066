-- ===== src/Consumer/Reporting.antt =====
-- `reportLoop` of internal/consumer/consumer.go: every five seconds a log line with the rate since
-- the last one, and the gauge of the group's lag.
use sluice_gate_telemetery_i.Base.{
  ℕ, ◌+◌, ◌-◌, ◌%◌, ◌≤◌, ◌<◌, ◌≡◌, refl, ap, ◌∙◌, List, [], ◌∷◌, ◌++◌, map, Option, none, some,
  u64_mod, add_u64, arith, sum, append_assoc, append-nil, sym,
}

-- A 64-bit subtraction.
abbrev pub sub_u64 : ℕ → ℕ → ℕ
sub_u64 x y = (x + (u64_mod - y)) % u64_mod

-- What a tick reads: the three counters, and the lags of the groups, by their 64 bits, where `Lag` gives
-- no error.
pub record Reading : Type 0 where
  pub consumed : ℕ
  pub deduped : ℕ
  pub dlq_sent : ℕ
  pub lags : Option (List ℕ)

pub record ReportLine : Type 0 where
  pub consumed_total : ℕ
  pub rate : ℕ
  pub lag : ℕ
  pub deduped : ℕ
  pub dlq : ℕ

-- `last`, the gauge if there are metrics, and what was logged, oldest line first.
pub record Reporter : Type 0 where
  pub last : ℕ
  pub group_lag : Option ℕ
  pub lines : List ReportLine

abbrev pub new_reporter : Option ℕ → Reporter
new_reporter gauge = record { last = 0; group_lag = gauge; lines = [] }

-- `lag += l.Lag.Total()` for each group.
abbrev pub add_lags : ℕ → List ℕ → ℕ
add_lags lag [] = lag
add_lags lag (n ∷ ns) = add_lags (add_u64 lag n) ns

-- Zero if `Lag` gives an error.
unfoldable pub total_lag : Option (List ℕ) → ℕ
total_lag none = 0
total_lag (some ns) = add_lags 0 ns

-- Floats by their bits: of a uint64, of an int64, and a division.
module _ (float_of : ℕ → ℕ) (float_of_int : ℕ → ℕ) (divided : ℕ → ℕ → ℕ) (five : ℕ) where
  -- `float64(n) / 5.0`.
  abbrev pub per_second : ℕ → ℕ
  per_second n = divided (float_of n) five

  abbrev set_gauge : ℕ → Option ℕ → Option ℕ
  set_gauge lag none = none
  set_gauge lag (some g) = some (float_of_int lag)

  unfoldable pub tick : Reporter → Reading → Reporter
  unfolding total_lag
  tick r x =
      let lag = total_lag x.lags in
      record {
        last = x.consumed;
        group_lag = set_gauge lag r.group_lag;
        lines =
            r.lines
            ++ record {
              consumed_total = x.consumed;
              rate = per_second (sub_u64 x.consumed r.last);
              lag = lag;
              deduped = x.deduped;
              dlq = x.dlq_sent;
            }
              ∷ [];
      }

  -- The ticks up to the end of the context.
  unfoldable pub report_loop : Reporter → List Reading → Reporter
  unfolding tick
  report_loop r [] = r
  report_loop r (x ∷ xs) = report_loop (tick r x) xs

  -- The counter never falls from one reading to the next, and stays below 2^64.
  abbrev pub Ascends : ℕ → List Reading → Type 0
  Ascends n [] = Unit
  Ascends n (x ∷ xs) = (n ≤ x.consumed) × (x.consumed < u64_mod) × Ascends x.consumed xs

  abbrev pub last_consumed : ℕ → List Reading → ℕ
  last_consumed n [] = n
  last_consumed n (x ∷ xs) = last_consumed x.consumed xs

  abbrev pub rates : Reporter → List ℕ
  rates r = map (λ l. l.rate) r.lines

  -- What the ticks from one reporter on to another report.
  record Reported (r r' : Reporter) : Type 0 where
    pub counts : List ℕ
    pub quoted : rates r' ≡ rates r ++ map per_second counts
    pub total : r.last + sum counts ≡ r'.last

  map-append_one :
      (ls : List ReportLine) (l : ReportLine)
      → map (λ l. l.rate) (ls ++ l ∷ []) ≡ map (λ l. l.rate) ls ++ l.rate ∷ []
  map-append_one [] l = refl
  map-append_one (k ∷ ls) l = ap (k.rate ∷◌) (map-append_one ls l)

  sub_u64_ascends : (m n : ℕ) → m ≤ n → n < u64_mod → sub_u64 n m ≡ n - m
  sub_u64_ascends m n h k = omega arith

  report_loop-Reported :
      (r : Reporter) (xs : List Reading)
      → Ascends r.last xs
      → Reported r (report_loop r xs) × ((report_loop r xs).last ≡ last_consumed r.last xs)
  unfolding report_loop tick
  report_loop-Reported r [] h =
      (record { counts = []; quoted = sym (append-nil (rates r)); total = omega arith }, refl)
  report_loop-Reported r (x ∷ xs) h =
      let (rest, same) = report_loop-Reported (tick r x) xs h.2 in
      (
        record {
          counts = (x.consumed - r.last) ∷ rest.counts;
          quoted =
              rest.quoted
              ∙ ap (◌++ map per_second rest.counts) (map-append_one r.lines _)
              ∙ append_assoc (rates r) (per_second (sub_u64 x.consumed r.last) ∷ [])
                  (map per_second rest.counts)
              ∙ ap (λ n. rates r ++ per_second n ∷ map per_second rest.counts)
                  (sub_u64_ascends r.last x.consumed h.0 h.1);
          total = omega (arith, rest.total, h.0);
        },
        same,
      )

  -- The counts behind the rates that `reportLoop` logs add up to the events consumed: as long as the
  -- counter does not fall or reach 2^64, each consumed event is counted in the rate of one line.
  pub report_loop-rates :
      (gauge : Option ℕ) (xs : List Reading)
      → Ascends 0 xs
      → let r = report_loop (new_reporter gauge) xs in
        (counts : List ℕ) × (rates r ≡ map per_second counts) × (sum counts ≡ last_consumed 0 xs)
  report_loop-rates gauge xs h =
      let (a, same) = report_loop-Reported (new_reporter gauge) xs h in
      (a.counts, a.quoted, omega (arith, a.total) ∙ same)
