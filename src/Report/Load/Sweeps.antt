-- ===== src/Report/Load/Sweeps.antt =====
-- The sweep points of a loaded report (internal/report/data.go).
use mathlib.Core.List.{Perm}
use sluice_gate_telemetery_i.Base.{
  ◌<◌, Bytes, ◌≡◌, refl, sym, ap, subst, ◌∙◌, List, [], ◌∷◌, ◌++◌, append-nil, append_assoc, length,
  Bool, true, false, if◌then◌else◌, arith,
}
use sluice_gate_telemetery_i.Event.{Result, ok, err}
use sluice_gate_telemetery_i.Report.{SweepPoint, Report}
use sluice_gate_telemetery_i.Report.Files.{
  FileKind, sweep_kind, loss_kind, correctness_kind, backpressure_kind, blocked_kind, scaling_kind,
  other_kind, file_kind,
}
use sluice_gate_telemetery_i.Report.Load.Ordered.{
  Ordered, ByPhase, InOrder-Ordered, sweep_less-ByPhase,
}
use sluice_gate_telemetery_i.Report.Load.Order.{
  sort_slice-perm, sort_slice-InOrder, sweep_less-asym,
}
use sluice_gate_telemetery_i.Report.Load.{
  SweepShape, Files, Entry, Progress, sweep_point, map_ok, load_file, load_entry, load_entries,
  finish, load, put_loss, put_correctness, put_backpressure, put_blocked, add_scaling, add_sweep,
  sort_slice, sweep_less, no_report, no_sweeps, sort_scaling,
}

abbrev points_if_ok : Bytes → Bytes → Result SweepShape → List SweepPoint
points_if_ok name m (ok x) = sweep_point name m x ∷ []
points_if_ok name m (err e) = []

abbrev points_of_kind : Files → Bytes → FileKind → List SweepPoint
points_of_kind f name (sweep_kind m) = points_if_ok name m (f.sweep name)
points_of_kind f name loss_kind = []
points_of_kind f name correctness_kind = []
points_of_kind f name backpressure_kind = []
points_of_kind f name blocked_kind = []
points_of_kind f name (scaling_kind m) = []
points_of_kind f name other_kind = []

-- One point for each sweep file that is not a directory, in the order of the entries.
abbrev pub sweep_points : Files → List Entry → List SweepPoint
sweep_points f [] = []
sweep_points f (e ∷ es) =
    (if e.is_dir then [] else points_of_kind f e.name (file_kind e.name)) ++ sweep_points f es

abbrev some_point : List SweepPoint → Bool → Bool
some_point [] b = b
some_point (s ∷ ss) b = true

-- What the sweeps and `sawAnySweep` become.
abbrev Adds : List SweepPoint → Progress → Progress → Type 0
Adds ss p q =
    (q.report.sweeps ≡ p.report.sweeps ++ ss) × (q.saw_any_sweep ≡ some_point ss p.saw_any_sweep)

abbrev WhenOk : List SweepPoint → Progress → Result Progress → Type 0
WhenOk ss p (ok q) = Adds ss p q
WhenOk ss p (err x) = Unit

map_ok-WhenOk :
    {A : Type 0} (g : A → Progress) (r : Result A) (p : Progress)
    → ((a : A) → Adds [] p (g a))
    → WhenOk [] p (map_ok g r)
map_ok-WhenOk g (ok a) p h = h a
map_ok-WhenOk g (err x) p h = tt

load_file-Adds :
    (f : Files) (name : Bytes) (k : FileKind) (p : Progress)
    → WhenOk (points_of_kind f name k) p (load_file f name k p)
unfolding load_file
load_file-Adds f name (sweep_kind m) p = by_read (f.sweep name)
  where
    by_read :
        (r : Result SweepShape) → WhenOk (points_if_ok name m r) p (map_ok (add_sweep name m p) r)
    by_read (ok x) = (refl, refl)
    by_read (err x) = tt
load_file-Adds f name loss_kind p =
    map_ok-WhenOk (put_loss p) (f.loss name) p (λ a. (sym (append-nil p.report.sweeps), refl))
load_file-Adds f name correctness_kind p =
    map_ok-WhenOk (put_correctness p) (f.correctness name) p
      (λ a. (sym (append-nil p.report.sweeps), refl))
load_file-Adds f name backpressure_kind p =
    map_ok-WhenOk (put_backpressure p) (f.backpressure name) p
      (λ a. (sym (append-nil p.report.sweeps), refl))
load_file-Adds f name blocked_kind p =
    map_ok-WhenOk (put_blocked p) (f.blocked name) p (λ a. (sym (append-nil p.report.sweeps), refl))
load_file-Adds f name (scaling_kind m) p =
    map_ok-WhenOk (add_scaling m p) (f.sweep name) p (λ a. (sym (append-nil p.report.sweeps), refl))
load_file-Adds f name other_kind p = (sym (append-nil p.report.sweeps), refl)

load_entry-Adds :
    (f : Files) (e : Entry) (p : Progress)
    → WhenOk
        (if e.is_dir then [] else points_of_kind f e.name (file_kind e.name))
        p
        (load_entry f e p)
unfolding load_entry
load_entry-Adds f e p = by_dir e.is_dir
  where
    by_dir :
        (d : Bool)
        → WhenOk
            (if d then [] else points_of_kind f e.name (file_kind e.name))
            p
            (if d then ok p else load_file f e.name (file_kind e.name) p)
    by_dir true = (sym (append-nil p.report.sweeps), refl)
    by_dir false = load_file-Adds f e.name (file_kind e.name) p

some_point-append :
    (ss ts : List SweepPoint) (b : Bool) → some_point (ss ++ ts) b ≡ some_point ts (some_point ss b)
some_point-append [] ts b = refl
some_point-append (s ∷ ss) [] b = refl
some_point-append (s ∷ ss) (t ∷ ts) b = refl

WhenOk-trans :
    (ss ts : List SweepPoint) (p q : Progress) (r : Result Progress)
    → Adds ss p q
    → WhenOk ts q r
    → WhenOk (ss ++ ts) p r
WhenOk-trans ss ts p q (ok x) h k = (
  k.0 ∙ ap (◌++ ts) h.0 ∙ append_assoc p.report.sweeps ss ts,
  k.1 ∙ ap (some_point ts) h.1 ∙ sym (some_point-append ss ts p.saw_any_sweep),
)
WhenOk-trans ss ts p q (err x) h k = tt

load_entries-Adds :
    (f : Files) (es : List Entry) (p : Progress)
    → WhenOk (sweep_points f es) p (load_entries f es p)
unfolding load_entries
load_entries-Adds f [] p = (sym (append-nil p.report.sweeps), refl)
load_entries-Adds f (e ∷ es) p =
    by_entry (load_entry f e p) (load_entry-Adds f e p) (load_entries-Adds f es)
  where
    first : List SweepPoint
    first = if e.is_dir then [] else points_of_kind f e.name (file_kind e.name)

    by_entry :
        (r : Result Progress)
        → WhenOk first p r
        → ((q : Progress) → WhenOk (sweep_points f es) q (load_entries f es q))
        → WhenOk
            (first ++ sweep_points f es)
            p
            (elim r [ ok q ↦ load_entries f es q | err x ↦ err x ])
    by_entry (ok q) h rest =
        WhenOk-trans first (sweep_points f es) p q (load_entries f es q) h (rest q)
    by_entry (err x) h rest = tt

ok_inj : {A : Type 0} {a b : A} → ok a ≡ ok b → a ≡ b
ok_inj h = cc

-- A report that Load gives without error has one sweep point for each sweep file that is no directory,
-- made from what was read of it, and at least one. Of two that follow each other the phase of the first
-- is byte by byte before that of the second, or the phases are the same and the concurrency of the first
-- is at most that of the second.
pub load-sweeps :
    (dir : Bytes) (f : Files) (es : List Entry) (rep : Report)
    → load dir f (ok es) ≡ ok rep
    → Perm rep.sweeps (sweep_points f es)
      × (0 < length (sweep_points f es))
      × Ordered ByPhase rep.sweeps
unfolding load finish
load-sweeps dir f es rep h = by_entries (load_entries f es start) (load_entries-Adds f es start) h
  where
    start : Progress
    start = record { report = no_report; saw_any_sweep = false }

    Loaded : Report → Type 0
    Loaded r =
        Perm r.sweeps (sweep_points f es)
        × (0 < length (sweep_points f es))
        × Ordered ByPhase r.sweeps

    sorted :
        (p : Progress)
        → p.report.sweeps ≡ sweep_points f es
        → Perm (sort_slice sweep_less p.report.sweeps) (sweep_points f es)
    sorted p e =
        subst (λ ss. Perm (sort_slice sweep_less p.report.sweeps) ss) e
          (sort_slice-perm sweep_less p.report.sweeps)

    not_empty : (ss : List SweepPoint) → true ≡ some_point ss false → 0 < length ss
    not_empty [] k = cc
    not_empty (s ∷ ss) k = omega arith

    by_saw :
        (p : Progress) (b : Bool)
        → p.saw_any_sweep ≡ b
        → Adds (sweep_points f es) start p
        → (if b
            then ok (record p.report {
              sweeps = sort_slice sweep_less p.report.sweeps;
              scaling = sort_scaling p.report.scaling;
            })
            else err (no_sweeps dir))
          ≡ ok rep
        → Loaded rep
    by_saw p true k a e = subst Loaded (ok_inj e) (
      sorted p a.0,
      not_empty (sweep_points f es) (sym k ∙ a.1),
      InOrder-Ordered sweep_less ByPhase sweep_less-ByPhase (sort_slice sweep_less p.report.sweeps)
          (sort_slice-InOrder sweep_less sweep_less-asym p.report.sweeps),
    )
    by_saw p false k a e = cc

    by_entries :
        (r : Result Progress)
        → WhenOk (sweep_points f es) start r
        → elim r as (λ x. Result Report) [ ok p ↦ finish dir p | err x ↦ err x ] ≡ ok rep
        → Loaded rep
    by_entries (ok p) a e = by_saw p p.saw_any_sweep refl a e
    by_entries (err x) a e = cc
