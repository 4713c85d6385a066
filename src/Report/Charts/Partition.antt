-- ===== src/Report/Charts/Partition.antt =====
-- The sweeps of a report, phase by phase.
use mathlib.Core.List.{Perm, perm_middle}
use mathlib.Core.List.Perm
use sluice_gate_telemetery_i.Base.{
  Bytes, beq, beq_eq, beq_refl, ◌≡◌, refl, sym, ap, subst, ◌∙◌, List, [], ◌∷◌, ◌++◌, In, inl, inr,
  Distinct, Bool, true, false, if◌then◌else◌,
}
use sluice_gate_telemetery_i.Report.{SweepPoint}
use sluice_gate_telemetery_i.Report.Charts.{filter}

abbrev pub concat : {A : Type 0} → List (List A) → List A
concat [] = []
concat (xs ∷ xss) = xs ++ concat xss

-- The sweeps phase by phase.
abbrev pub by_phase : List SweepPoint → List Bytes → List SweepPoint
by_phase ss [] = []
by_phase ss (p ∷ ps) = filter (λ s. beq s.phase p) ss ++ by_phase ss ps

by_phase_other :
    (s : SweepPoint) (ss : List SweepPoint) (ps : List Bytes)
    → ¬ In s.phase ps
    → by_phase (s ∷ ss) ps ≡ by_phase ss ps
by_phase_other s ss [] n = refl
by_phase_other s ss (p ∷ ps) n =
    by_test (beq s.phase p) (by_phase_other s ss ps (λ i. n (inr i)))
      (λ e. n (inl (beq_eq s.phase p e)))
  where
    by_test :
        (x : Bool)
        → by_phase (s ∷ ss) ps ≡ by_phase ss ps
        → ¬ (x ≡ true)
        → (let rest = filter (λ t. beq t.phase p) ss in if x then s ∷ rest else rest)
            ++ by_phase (s ∷ ss) ps
          ≡ filter (λ t. beq t.phase p) ss ++ by_phase ss ps
    by_test true e m = absurd (m refl)
    by_test false e m = ap (filter (λ t. beq t.phase p) ss ++◌) e

by_phase_one :
    (s : SweepPoint) (ss : List SweepPoint) (ps : List Bytes)
    → Distinct ps
    → In s.phase ps
    → Perm (by_phase (s ∷ ss) ps) (s ∷ by_phase ss ps)
by_phase_one s ss [] d i = absurd i
by_phase_one s ss (p ∷ ps) d i = by_test (beq s.phase p) refl (by_phase_one s ss ps d.1)
  where
    first : List SweepPoint
    first = filter (λ t. beq t.phase p) ss

    by_test :
        (x : Bool)
        → beq s.phase p ≡ x
        → (In s.phase ps → Perm (by_phase (s ∷ ss) ps) (s ∷ by_phase ss ps))
        → Perm
            ((let rest = filter (λ t. beq t.phase p) ss in if x then s ∷ rest else rest)
              ++ by_phase (s ∷ ss) ps)
            (s ∷ (first ++ by_phase ss ps))
    by_test true e later =
        subst (λ r. Perm (s ∷ (first ++ r)) (s ∷ (first ++ by_phase ss ps)))
          (sym (by_phase_other s ss ps (subst (λ q. ¬ In q ps) (sym (beq_eq s.phase p e)) d.0)))
          Perm.rfl
    by_test false e later = by_place i
      where
        by_place :
            In s.phase (p ∷ ps)
            → Perm (first ++ by_phase (s ∷ ss) ps) (s ∷ (first ++ by_phase ss ps))
        by_place (inl same) = absurd (
            let f : true ≡ false =
              sym (subst (λ q. beq s.phase q ≡ true) same (beq_refl s.phase)) ∙ e in
            let g : ⊥ = cc in g)
        by_place (inr there) =
            Perm.trans (Perm.append_left first (later there)) (perm_middle first (by_phase ss ps))

-- With each phase once, each sweep comes once.
pub by_phase-perm :
    (ss : List SweepPoint) (ps : List Bytes)
    → Distinct ps
    → ((s : SweepPoint) → In s ss → In s.phase ps)
    → Perm (by_phase ss ps) ss
by_phase-perm [] ps d all = subst (λ r. Perm r []) (sym (nothing ps)) Perm.rfl
  where
    nothing : (ps : List Bytes) → by_phase [] ps ≡ []
    nothing [] = refl
    nothing (p ∷ ps) = nothing ps
by_phase-perm (s ∷ ss) ps d all =
    Perm.trans (by_phase_one s ss ps d (all s (inl refl)))
      (Perm.cons s (by_phase-perm ss ps d (λ t i. all t (inr i))))
