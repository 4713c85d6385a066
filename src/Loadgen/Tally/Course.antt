-- ===== src/Loadgen/Tally/Course.antt =====
-- How the calls of the load generator (internal/loadgen/loadgen.go) come back.
use sluice_gate_telemetery_i.Base.{ℕ, ◌+◌, ◌≤◌, ◌≡◌, List, [], ◌∷◌, none, some, get_elem?}
use sluice_gate_telemetery_i.Gateway.{Response}
use sluice_gate_telemetery_i.Loadgen.Hdr.{Histograms, highest_trackable_value}
use sluice_gate_telemetery_i.Loadgen.Tally.{Call, Act, begins, comes_back, Counters, act}

module _ (t : Histograms) (size : ℕ) where
  -- A call of a goroutine that has set out; an answer is for all events of the request; and no call takes
  -- longer than a histogram can count.
  abbrev pub IsCall : ℕ → Call → Counters t → Type 0
  IsCall g c s =
      ((h : t.Hist) × (get_elem? s.hists g ≡ some (some h)))
      × ((r : Response) → c.answer ≡ some r → r.accepted + r.rejected ≡ size)
      × (c.elapsed ≤ highest_trackable_value)

  -- Each goroutine sets out once, ahead of its calls.
  abbrev pub IsCourse : List Act → Counters t → Type 0
  IsCourse [] s = Unit
  IsCourse (begins g ∷ as') s =
      (get_elem? s.hists g ≡ some none) × IsCourse as' (act t (begins g) s)
  IsCourse (comes_back g c ∷ as') s = IsCall g c s × IsCourse as' (act t (comes_back g c) s)
