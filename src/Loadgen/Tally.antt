-- ===== src/Loadgen/Tally.antt =====
-- The counters of `Run` in internal/loadgen/loadgen.go, and its result.
pub mod Course
pub mod Latencies
pub mod Totals
use sluice_gate_telemetery_i.Base.{
  ℕ, zero, suc, ◌+◌, ◌*◌, ◌≤◌, ◌<◌, ℤ, ◌≡◌, refl, sym, ap, subst, ◌∙◌, List, [], ◌∷◌, Bool, true,
  false, Option, none, some, replicate, get_elem?, set, add_u64, u64_mod, if◌then◌else◌, arith,
  some_inj, Option-cases, inl, inr,
}
use sluice_gate_telemetery_i.Gateway.{Response}
use sluice_gate_telemetery_i.Loadgen.Hdr.{
  Histograms, Percentiles, merge, compute_percentiles, counted, merge-counted,
  highest_trackable_value,
}

-- A `Push` that came back: its response, or none where it gave an error; how many nanoseconds it took,
-- and whether it came back after the warmup.
pub record Call : Type 0 where
  pub answer : Option Response
  pub elapsed : ℕ
  pub after_warmup : Bool

-- Floats by their bits.
pub record Result : Type 0 where
  pub events_accepted : ℕ
  pub events_rejected : ℕ
  pub errors : ℕ
  pub window_seconds : ℕ
  pub throughput_events_per_sec : ℕ
  pub latency : Percentiles

-- A goroutine sets out, or one of its calls comes back.
pub data Act : Type 0 where
  begins : ℕ → Act
  comes_back : ℕ → Call → Act

module _ (t : Histograms) where
  pub record Counters : Type 0 where
    pub accepted : ℕ
    pub rejected : ℕ
    pub errs : ℕ
    pub hists : List (Option t.Hist)

  unfoldable pub new_counters : ℕ → Counters
  new_counters concurrency = record {
    accepted = 0;
    rejected = 0;
    errs = 0;
    hists = replicate concurrency none;
  }

  -- `h.RecordValue` on the histogram of goroutine g.
  abbrev pub record_in : ℕ → ℕ → List (Option t.Hist) → List (Option t.Hist)
  record_in g n [] = []
  record_in zero n (none ∷ hs) = none ∷ hs
  record_in zero n (some h ∷ hs) = some (t.record_value n h) ∷ hs
  record_in (suc g) n (h ∷ hs) = h ∷ record_in g n hs

  -- Behind `client.Push`.
  unfoldable pub count_call : ℕ → Call → Counters → Counters
  count_call g c s = elim c.answer [
    | none ↦ record s { errs = add_u64 s.errs 1 }
    | some r ↦ record s {
      accepted = add_u64 s.accepted r.accepted;
      rejected = add_u64 s.rejected r.rejected;
      hists = if c.after_warmup then record_in g c.elapsed s.hists else s.hists;
    }
  ]

  unfoldable pub act : Act → Counters → Counters
  unfolding count_call
  act (begins g) s = record s { hists = set s.hists g (some t.new) }
  act (comes_back g c) s = count_call g c s

  unfoldable pub tally : List Act → Counters → Counters
  unfolding act
  tally [] s = s
  tally (a ∷ as') s = tally as' (act a s)

  -- Behind `wg.Wait()`. `rate` is the division of a uint64 by a float64.
  unfoldable pub result_of : (ℕ → ℕ → ℕ) → (ℕ → ℕ) → ℕ → Counters → Result
  unfolding merge compute_percentiles
  result_of rate to_ms window s = record {
    events_accepted = s.accepted;
    events_rejected = s.rejected;
    errors = s.errs;
    window_seconds = window;
    throughput_events_per_sec = rate s.accepted window;
    latency = compute_percentiles t to_ms (merge t s.hists);
  }
