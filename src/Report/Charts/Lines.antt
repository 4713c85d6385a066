-- ===== src/Report/Charts/Lines.antt =====
-- The lines of the throughput chart of internal/report/charts.go.
use mathlib.Core.List.{Perm}
use mathlib.Core.List.Perm
use sluice_gate_telemetery_i.Base.{
  ℕ, suc, In, Distinct, ◌↔◌, beq, if◌then◌else◌, Bytes, codes, ◌≡◌, refl, sym, ap, subst, ◌∙◌, List,
  [], ◌∷◌, ◌++◌, append-nil, append_assoc, map, map-append, Bool, true, false, Option, none, some,
  All,
}
use sluice_gate_telemetery_i.Event.{Error, Result, ok, err}
use sluice_gate_telemetery_i.Report.{SweepPoint, Report}
use sluice_gate_telemetery_i.Report.Float.{float_gt, float_gt_trans, float_gt_irrefl}
use sluice_gate_telemetery_i.Report.Load.Order.{InOrder, sort_slice-InOrder, sort_slice-perm}
use sluice_gate_telemetery_i.Report.Charts.{distinct_phases}
use sluice_gate_telemetery_i.Report.Charts.Phases.{HasPhase, distinct_phases-HasPhase}
use sluice_gate_telemetery_i.Report.Load.Ordered.{Ordered, Before, InOrder-Ordered, InOrder-Before}
use sluice_gate_telemetery_i.Report.Charts.Partition.{concat, by_phase, by_phase-perm}
use sluice_gate_telemetery_i.Report.Charts.Plots.{
  Plotting, Xy, Line, Chart, x_less, palette_color, add_line, sweep_xy, of_phase, phase_xys,
  add_phases, new_throughput_chart, throughput_chart,
}

x_less-asym : (p q : Xy) → x_less p q ≡ true → x_less q p ≡ false
x_less-asym p q h = by_test (float_gt p.x q.x) refl
  where
    by_test : (x : Bool) → float_gt p.x q.x ≡ x → x ≡ false
    by_test false k = refl
    by_test true k = sym (float_gt_trans q.x p.x q.x h k) ∙ float_gt_irrefl q.x

module _ (k : Plotting) where
  abbrev line_of : List SweepPoint → Bytes → ℕ → Line
  line_of ss phase i = record {
    legend = some phase;
    color = palette_color i;
    points = phase_xys k ss phase;
  }

  -- The lines of the phases, the colours from the i-th on.
  abbrev lines_of : List SweepPoint → List Bytes → ℕ → List Line
  lines_of ss [] i = []
  lines_of ss (p ∷ ps) i = line_of ss p i ∷ lines_of ss ps (suc i)

  add_line-ok :
      (legend : Option Bytes) (i : ℕ) (xys : List Xy) (c d : Chart)
      → add_line k legend i xys c ≡ ok d
      → d.lines ≡ c.lines ++ record { legend = legend; color = palette_color i; points = xys } ∷ []
  unfolding add_line
  add_line-ok legend i xys c d h = by_answer (k.new_line xys) h
    where
      added : Chart
      added = record c {
        lines = c.lines ++ record { legend = legend; color = palette_color i; points = xys } ∷ [];
      }

      by_answer :
          (o : Option Error)
          → (let a : Result Chart = elim o [ some x ↦ err x | none ↦ ok added ] in a) ≡ ok d
          → d.lines ≡ added.lines
      by_answer (some x) e = cc
      by_answer none e = let same : added ≡ d = cc in ap (λ c. c.lines) (sym same)

  add_phases-lines :
      (ss : List SweepPoint) (ps : List Bytes) (i : ℕ) (c d : Chart)
      → add_phases k ss ps i c ≡ ok d
      → d.lines ≡ c.lines ++ lines_of ss ps i
  unfolding add_phases
  add_phases-lines ss [] i c d h =
      let same : c ≡ d = cc in ap (λ c. c.lines) (sym same) ∙ sym (append-nil c.lines)
  add_phases-lines ss (p ∷ ps) i c d h =
      by_answer (add_line k (some p) i (phase_xys k ss p) c) refl (add_phases-lines ss ps (suc i)) h
    where
      by_answer :
          (o : Result Chart)
          → add_line k (some p) i (phase_xys k ss p) c ≡ o
          → ((c d : Chart)
              → add_phases k ss ps (suc i) c ≡ ok d
              → d.lines ≡ c.lines ++ lines_of ss ps (suc i))
          → (let a : Result Chart = elim o [
            | err x ↦ err x
            | ok e ↦ add_phases k ss ps (suc i) e
          ] in
              a)
            ≡ ok d
          → d.lines ≡ c.lines ++ lines_of ss (p ∷ ps) i
      by_answer (err x) a rest e = cc
      by_answer (ok b) a rest e =
          rest b d e
          ∙ ap (◌++ lines_of ss ps (suc i)) (add_line-ok (some p) i (phase_xys k ss p) c b a)
          ∙ append_assoc c.lines (line_of ss p i ∷ []) (lines_of ss ps (suc i))

  legends :
      (ss : List SweepPoint) (ps : List Bytes) (i : ℕ)
      → map (λ l. l.legend) (lines_of ss ps i) ≡ map some ps
  legends ss [] i = refl
  legends ss (p ∷ ps) i = ap (some p ∷◌) (legends ss ps (suc i))

  phase_xys-perm :
      (ss : List SweepPoint) (p : Bytes)
      → Perm (phase_xys k ss p) (map (sweep_xy k) (of_phase k ss p))
  unfolding phase_xys
  phase_xys-perm ss p = sort_slice-perm x_less (map (sweep_xy k) (of_phase k ss p))

  phase_xys-InOrder : (ss : List SweepPoint) (p : Bytes) → InOrder x_less (phase_xys k ss p)
  unfolding phase_xys
  phase_xys-InOrder ss p =
      sort_slice-InOrder x_less x_less-asym (map (sweep_xy k) (of_phase k ss p))

  lines_of-points :
      (ss : List SweepPoint) (ps : List Bytes) (i : ℕ)
      → Perm (concat (map (λ l. l.points) (lines_of ss ps i))) (map (sweep_xy k) (by_phase ss ps))
  lines_of-points ss [] i = Perm.rfl
  lines_of-points ss (p ∷ ps) i =
      subst (Perm (concat (map (λ l. l.points) (lines_of ss (p ∷ ps) i))))
        (sym (map-append (sweep_xy k) (of_phase k ss p) (by_phase ss ps)))
        (Perm.append (phase_xys-perm ss p) (lines_of-points ss ps (suc i)))

  -- Where a sweep stands: its concurrency and its throughput.
  abbrev pub plotted : SweepPoint → Xy
  plotted s = record { x = k.float_of s.concurrency; y = s.throughput_events_per_sec }

  -- The places of the sweeps of a phase.
  abbrev pub plotted_of : Bytes → List SweepPoint → List Xy
  plotted_of phase [] = []
  plotted_of phase (s ∷ ss) =
      let rest = plotted_of phase ss in if beq s.phase phase then plotted s ∷ rest else rest

  of_phase-plotted :
      (phase : Bytes) (ss : List SweepPoint)
      → map (sweep_xy k) (of_phase k ss phase) ≡ plotted_of phase ss
  of_phase-plotted phase [] = refl
  of_phase-plotted phase (s ∷ ss) = by_test (beq s.phase phase) (of_phase-plotted phase ss)
    where
      by_test :
          (b : Bool)
          → map (sweep_xy k) (of_phase k ss phase) ≡ plotted_of phase ss
          → map (sweep_xy k) (if b then s ∷ of_phase k ss phase else of_phase k ss phase)
            ≡ (if b then plotted s ∷ plotted_of phase ss else plotted_of phase ss)
      by_test true e = ap (plotted s ∷◌) e
      by_test false e = e

  -- No point is right of the next.
  abbrev pub LeftToRight : List Xy → Type 0
  LeftToRight = Ordered (λ p q. float_gt p.x q.x ≡ false)

  -- A line of a chart has a phase for its legend, the points of that phase and no others, and these from
  -- left to right.
  abbrev pub IsPhaseLine : List SweepPoint → Line → Type 0
  IsPhaseLine ss l =
      (phase : Bytes) × (l.legend ≡ some phase)
      × Perm l.points (plotted_of phase ss)
      × LeftToRight l.points

  lines_of-IsPhaseLine :
      (ss : List SweepPoint) (ps : List Bytes) (i : ℕ) → All (IsPhaseLine ss) (lines_of ss ps i)
  lines_of-IsPhaseLine ss [] i = tt
  lines_of-IsPhaseLine ss (p ∷ ps) i = (
    (
      p,
      refl,
      subst (Perm (phase_xys k ss p)) (of_phase-plotted p ss) (phase_xys-perm ss p),
      InOrder-Ordered x_less (λ p q. float_gt p.x q.x ≡ false) (λ p q h. h) (phase_xys k ss p)
          (phase_xys-InOrder ss p),
    ),
    lines_of-IsPhaseLine ss ps (suc i),
  )

  -- What the chart shows of the sweeps.
  pub record Shows (ss : List SweepPoint) (c : Chart) : Type 0 where
    pub phases : List Bytes
    pub legends : map (λ l. l.legend) c.lines ≡ map some phases
    pub named : (p : Bytes) → In p phases ↔ HasPhase p ss
    pub once : Distinct phases
    pub in_order : Ordered Before phases
    pub each_line : All (IsPhaseLine ss) c.lines
    pub all_points : Perm (concat (map (λ l. l.points) c.lines)) (map plotted ss)

  lines_of-Shows :
      (ss : List SweepPoint) (c : Chart) → c.lines ≡ lines_of ss (distinct_phases ss) 0 → Shows ss c
  lines_of-Shows ss c e =
      let (has, differ, sorted) = distinct_phases-HasPhase ss in
      record {
        phases = distinct_phases ss;
        legends = ap (map (λ l. l.legend)) e ∙ legends ss (distinct_phases ss) 0;
        named = has;
        once = differ;
        in_order = InOrder-Before (distinct_phases ss) sorted differ;
        each_line =
            subst (All (IsPhaseLine ss)) (sym e) (lines_of-IsPhaseLine ss (distinct_phases ss) 0);
        all_points =
            Perm.trans
              (subst
                (λ ls.
                  Perm (concat (map (λ l. l.points) ls))
                    (map (sweep_xy k) (by_phase ss (distinct_phases ss))))
                (sym e) (lines_of-points ss (distinct_phases ss) 0))
              (Perm.map (sweep_xy k) (
                by_phase-perm ss (distinct_phases ss) differ
                  (λ s i. (has s.phase).1 (s, i, refl))));
      }

  -- A throughput chart that is built has one line for each phase that a sweep has, with the phase for its
  -- legend, and no other line; the phases come byte by byte in order. The points of a line are those of
  -- the sweeps of its phase, at the concurrency and the throughput of each, from left to right; and each
  -- sweep is a point on exactly one line.
  pub throughput_chart-Shows :
      (r : Report) (c : Chart) → throughput_chart k r ≡ ok c → Shows r.sweeps c
  unfolding throughput_chart
  throughput_chart-Shows r c h = by_sweeps r.sweeps h
    where
      by_sweeps :
          (ss : List SweepPoint)
          → (let a : Result Chart = elim ss [
            | [] ↦ err (codes "no sweep data to chart")
            | s ∷ ss ↦ add_phases k (s ∷ ss) (distinct_phases (s ∷ ss)) 0 (new_throughput_chart k)
          ] in
              a)
            ≡ ok c
          → Shows ss c
      by_sweeps [] e = cc
      by_sweeps (s ∷ ss) e =
          lines_of-Shows (s ∷ ss) c
            (add_phases-lines (s ∷ ss) (distinct_phases (s ∷ ss)) 0 (new_throughput_chart k) c e)
