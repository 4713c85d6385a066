-- ===== src/Loadgen/Tally/Latencies.antt =====
-- Which latencies the result of `Run` (internal/loadgen/loadgen.go) is made of.
use sluice_gate_telemetery_i.Base.{
  ℕ, zero, suc, ◌≤◌, ◌≡◌, refl, sym, ap, ◌∙◌, List, [], ◌∷◌, ◌++◌, Bool, true, false, Option, none,
  some, get_elem?, if◌then◌else◌, add_u64,
}
use sluice_gate_telemetery_i.Gateway.{Response}
use sluice_gate_telemetery_i.Loadgen.Hdr.{
  Histograms, merge_into, merge, record_all, highest_trackable_value, merge_into-record_value,
  merge_into-set_new, merge_into-none,
}
use sluice_gate_telemetery_i.Loadgen.Tally.{
  Call, Act, begins, comes_back, Counters, new_counters, record_in, count_call, act, tally,
}
use sluice_gate_telemetery_i.Loadgen.Tally.Course.{IsCall, IsCourse}

-- How long a call took, if it succeeded and came back after the warmup.
abbrev pub latency_of : Call → List ℕ
latency_of c = elim c.answer [ none ↦ [] | some r ↦ if c.after_warmup then c.elapsed ∷ [] else [] ]

-- These in the order in which the calls came back.
abbrev pub latencies : List Act → List ℕ
latencies [] = []
latencies (begins g ∷ as') = latencies as'
latencies (comes_back g c ∷ as') = latency_of c ++ latencies as'

module _ (t : Histograms) (size : ℕ) where
  -- A value more in one of the histograms is a value more in the merged one.
  merge_into-record_in :
      (hs : List (Option t.Hist)) (m k : t.Hist) (g n : ℕ)
      → get_elem? hs g ≡ some (some k)
      → n ≤ highest_trackable_value
      → merge_into t m (record_in t g n hs) ≡ t.record_value n (merge_into t m hs)
  unfolding merge_into
  merge_into-record_in [] m k g n h l = cc
  merge_into-record_in (none ∷ hs) m k zero n h l = cc
  merge_into-record_in (some j ∷ hs) m k zero n h l =
      ap (λ i. merge_into t i hs) (t.merge_right n m j l)
      ∙ merge_into-record_value t n hs (t.merge m j) l
  merge_into-record_in (none ∷ hs) m k (suc g) n h l = merge_into-record_in hs m k g n h l
  merge_into-record_in (some j ∷ hs) m k (suc g) n h l =
      merge_into-record_in hs (t.merge m j) k g n h l

  record_all-append :
      (ns ms : List ℕ) (h : t.Hist)
      → record_all t (ns ++ ms) h ≡ record_all t ms (record_all t ns h)
  record_all-append [] ms h = refl
  record_all-append (n ∷ ns) ms h = record_all-append ns ms (t.record_value n h)

  count_call-merge :
      (g : ℕ) (c : Call) (s : Counters t)
      → IsCall t size g c s
      → merge t (count_call t g c s).hists ≡ record_all t (latency_of c) (merge t s.hists)
  unfolding count_call merge
  count_call-merge g c s (there, answer, short) = by_answer c.answer c.after_warmup
    where
      by_answer :
          (o : Option Response) (late : Bool)
          → (let s' : Counters t = elim o [
            | none ↦ record s { errs = add_u64 s.errs 1 }
            | some r ↦ record s {
              accepted = add_u64 s.accepted r.accepted;
              rejected = add_u64 s.rejected r.rejected;
              hists = if late then record_in t g c.elapsed s.hists else s.hists;
            }
          ] in
              merge t s'.hists)
            ≡ record_all t
                (elim o [ none ↦ [] | some r ↦ if late then c.elapsed ∷ [] else [] ])
                (merge t s.hists)
      by_answer none late = refl
      by_answer (some r) true = merge_into-record_in s.hists t.new there.0 g c.elapsed there.1 short
      by_answer (some r) false = refl

  -- The merged histogram has had the latencies of a course recorded, one after the other.
  pub tally-merge :
      (as' : List Act) (s : Counters t)
      → IsCourse t size as' s
      → merge t (tally t as' s).hists ≡ record_all t (latencies as') (merge t s.hists)
  unfolding tally act merge
  tally-merge [] s h = refl
  tally-merge (begins g ∷ as') s h =
      tally-merge as' (act t (begins g) s) h.1
      ∙ ap (record_all t (latencies as')) (merge_into-set_new t s.hists t.new g h.0)
  tally-merge (comes_back g c ∷ as') s h =
      tally-merge as' (act t (comes_back g c) s) h.1
      ∙ ap (record_all t (latencies as')) (count_call-merge g c s h.0)
      ∙ sym (record_all-append (latency_of c) (latencies as') (merge t s.hists))

  pub new_counters-merge : (n : ℕ) → merge t (new_counters t n).hists ≡ t.new
  unfolding merge new_counters
  new_counters-merge n = merge_into-none t n t.new
