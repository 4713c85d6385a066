-- ===== src/Loadgen/Tally/Totals.antt =====
-- What the result of `Run` (internal/loadgen/loadgen.go) says of the calls that came back.
use sluice_gate_telemetery_i.Base.{
  ap, sym, ◌∙◌, ℕ, zero, suc, ◌+◌, ◌*◌, ◌≤◌, ◌<◌, ◌≡◌, refl, List, [], ◌∷◌, Bool, true, false,
  Option, none, some, replicate, get_elem?, set, add_u64, add_u64_small, u64_mod, if◌then◌else◌,
  arith,
}
use sluice_gate_telemetery_i.Gateway.{Response}
use sluice_gate_telemetery_i.Loadgen.Hdr.{
  Histograms, counted, merge, compute_percentiles, record_all, merge-counted,
  highest_trackable_value,
}
use sluice_gate_telemetery_i.Loadgen.Tally.Course.{IsCall, IsCourse}
use sluice_gate_telemetery_i.Loadgen.Tally.Latencies.{latencies, tally-merge, new_counters-merge}
use sluice_gate_telemetery_i.Loadgen.Tally.{
  Call, Act, begins, comes_back, Counters, new_counters, record_in, count_call, act, tally,
  result_of,
}

abbrev pub succeeded : Call → ℕ
succeeded c = elim c.answer [ none ↦ 0 | some r ↦ 1 ]

abbrev pub failed : Call → ℕ
failed c = elim c.answer [ none ↦ 1 | some r ↦ 0 ]

abbrev pub measured : Call → ℕ
measured c = if c.after_warmup then succeeded c else 0

abbrev pub accepted_by : Call → ℕ
accepted_by c = elim c.answer [ none ↦ 0 | some r ↦ r.accepted ]

-- A sum over the calls that came back.
abbrev pub over_calls : (Call → ℕ) → List Act → ℕ
over_calls f [] = 0
over_calls f (begins g ∷ as') = over_calls f as'
over_calls f (comes_back g c ∷ as') = f c + over_calls f as'

module _ (t : Histograms) (size : ℕ) where
  set-counted :
      (hs : List (Option t.Hist)) (g : ℕ)
      → get_elem? hs g ≡ some none
      → counted t (set hs g (some t.new)) ≡ counted t hs
  set-counted [] g h = refl
  set-counted (some k ∷ hs) zero h = cc
  set-counted (none ∷ hs) zero h = omega (arith, t.new_empty)
  set-counted (none ∷ hs) (suc g) h = set-counted hs g h
  set-counted (some k ∷ hs) (suc g) h = omega (arith, set-counted hs g h)

  record_in-counted :
      (hs : List (Option t.Hist)) (g n : ℕ) (k : t.Hist)
      → get_elem? hs g ≡ some (some k)
      → n ≤ highest_trackable_value
      → counted t (record_in t g n hs) ≡ suc (counted t hs)
  record_in-counted [] g n k h l = cc
  record_in-counted (none ∷ hs) zero n k h l = cc
  record_in-counted (some j ∷ hs) zero n k h l = omega (arith, t.record_counts n j l)
  record_in-counted (none ∷ hs) (suc g) n k h l = record_in-counted hs g n k h l
  record_in-counted (some j ∷ hs) (suc g) n k h l = omega (arith, record_in-counted hs g n k h l)

  -- How far the counters have moved on from s to s'.
  record Moved (s s' : Counters t) (successes failures latencies acceptances : ℕ) : Type 0 where
    pub answered : s'.accepted + s'.rejected ≡ s.accepted + s.rejected + successes * size
    pub accepts : s'.accepted ≡ s.accepted + acceptances
    pub fails : s'.errs ≡ s.errs + failures
    pub recorded : counted t s'.hists ≡ counted t s.hists + latencies

  count_call-Moved :
      (g : ℕ) (c : Call) (s : Counters t)
      → IsCall t size g c s
      → s.accepted + s.rejected + succeeded c * size < u64_mod
      → s.errs + failed c < u64_mod
      → Moved s (count_call t g c s) (succeeded c) (failed c) (measured c) (accepted_by c)
  unfolding count_call
  count_call-Moved g c s (there, answer, short) room few =
      by_answer c.answer c.after_warmup answer room few
    where
      by_answer :
          (o : Option Response) (late : Bool)
          → ((r : Response) → o ≡ some r → r.accepted + r.rejected ≡ size)
          → s.accepted + s.rejected + (elim o [ none ↦ 0 | some r ↦ 1 ]) * size < u64_mod
          → s.errs + (elim o [ none ↦ 1 | some r ↦ 0 ]) < u64_mod
          → Moved s
              (elim o [
                | none ↦ record s { errs = add_u64 s.errs 1 }
                | some r ↦ record s {
                  accepted = add_u64 s.accepted r.accepted;
                  rejected = add_u64 s.rejected r.rejected;
                  hists = if late then record_in t g c.elapsed s.hists else s.hists;
                }
              ])
              (elim o [ none ↦ 0 | some r ↦ 1 ])
              (elim o [ none ↦ 1 | some r ↦ 0 ])
              (if late then (elim o [ none ↦ 0 | some r ↦ 1 ]) else 0)
              (elim o [ none ↦ 0 | some r ↦ r.accepted ])
      by_answer none late a r f = record {
        answered = omega arith;
        accepts = omega arith;
        fails = add_u64_small s.errs 1 f;
        recorded = ground arith;
      }
      by_answer (some x) late a r f =
          let all = a x refl in
          record {
            answered = omega (arith, all, r);
            accepts = add_u64_small s.accepted x.accepted (omega (arith, all, r));
            fails = omega arith;
            recorded = by_time late;
          }
        where
          by_time :
              (late : Bool)
              → counted t (if late then record_in t g c.elapsed s.hists else s.hists)
                ≡ counted t s.hists + (if late then 1 else 0)
          by_time true = omega (arith, record_in-counted s.hists g c.elapsed there.0 there.1 short)
          by_time false = omega arith

  Moved-trans :
      (a b c : Counters t) (m n f g l k x y : ℕ)
      → Moved a b m f l x
      → Moved b c n g k y
      → Moved a c (m + n) (f + g) (l + k) (x + y)
  Moved-trans a b c m n f g l k x y h j = record {
    answered = omega (arith, h.answered, j.answered);
    accepts = omega (arith, h.accepts, j.accepts);
    fails = omega (arith, h.fails, j.fails);
    recorded = omega (arith, h.recorded, j.recorded);
  }

  tally-Moved :
      (as' : List Act) (s : Counters t)
      → IsCourse t size as' s
      → s.accepted + s.rejected + over_calls succeeded as' * size < u64_mod
      → s.errs + over_calls failed as' < u64_mod
      → Moved s
          (tally t as' s)
          (over_calls succeeded as')
          (over_calls failed as')
          (over_calls measured as')
          (over_calls accepted_by as')
  unfolding tally act
  tally-Moved [] s h room few = record {
    answered = omega arith;
    accepts = omega arith;
    fails = omega arith;
    recorded = omega arith;
  }
  tally-Moved (begins g ∷ as') s h room few =
      let rest = tally-Moved as' (act t (begins g) s) h.1 room few in
      record {
        answered = rest.answered;
        accepts = rest.accepts;
        fails = rest.fails;
        recorded = omega (arith, rest.recorded, set-counted s.hists g h.0);
      }
  tally-Moved (comes_back g c ∷ as') s h room few =
      let first = count_call-Moved g c s h.0 (omega (arith, room)) (omega (arith, few)) in
      Moved-trans s (act t (comes_back g c) s) (tally t as' (act t (comes_back g c) s)) _ _ _ _ _ _
        _ _ first
        (tally-Moved as' (act t (comes_back g c) s) h.1 (omega (arith, room, first.answered))
          (omega (arith, few, first.fails)))

  counted_none : (n : ℕ) → counted t (replicate n none) ≡ 0
  counted_none zero = refl
  counted_none (suc n) = counted_none n

  -- Where each answer is for all events of its request, as a gateway's is, no call takes longer than a
  -- histogram can count, and nothing overflows: the result counts each event of the calls that succeeded
  -- as accepted or rejected, and each other call as an error; its latencies are the percentiles and the
  -- maximum of one histogram that has the successful calls that came back after the warmup recorded,
  -- each once and nothing else; but the accepted events, and so the throughput over the window, are also
  -- those of the warmup.
  pub tally-totals :
      (concurrency window : ℕ) (rate : ℕ → ℕ → ℕ) (to_ms : ℕ → ℕ) (as' : List Act)
      → IsCourse t size as' (new_counters t concurrency)
      → over_calls succeeded as' * size < u64_mod
      → over_calls failed as' < u64_mod
      → let r = result_of t rate to_ms window (tally t as' (new_counters t concurrency)) in
        let h = record_all t (latencies as') t.new in
        (r.events_accepted + r.events_rejected ≡ over_calls succeeded as' * size)
        × (r.errors ≡ over_calls failed as')
        × (r.latency ≡ record {
          p50_ms = to_ms (t.value_at_quantile 50 h);
          p95_ms = to_ms (t.value_at_quantile 95 h);
          p99_ms = to_ms (t.value_at_quantile 99 h);
          max_ms = to_ms (t.max h);
        })
        × (t.total_count h ≡ over_calls measured as')
        × (r.throughput_events_per_sec ≡ rate (over_calls accepted_by as') window)
  unfolding new_counters result_of compute_percentiles
  tally-totals concurrency window rate to_ms as' h room few =
      let s = tally t as' (new_counters t concurrency) in
      let m =
        tally-Moved as' (new_counters t concurrency) h (omega (arith, room)) (omega (arith, few)) in
      let merged : merge t s.hists ≡ record_all t (latencies as') t.new =
        tally-merge t size as' (new_counters t concurrency) h
        ∙ ap (record_all t (latencies as')) (new_counters-merge t size concurrency) in
      (
        omega (arith, m.answered),
        omega (arith, m.fails),
        ap (compute_percentiles t to_ms) merged,
        ap t.total_count (sym merged)
            ∙ omega (arith, m.recorded, merge-counted t s.hists, counted_none concurrency),
        ap (λ n. rate n window) (omega (arith, m.accepts)),
      )
