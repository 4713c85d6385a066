-- ===== src/Report/Load/Ordered.antt =====
-- What it is for a list to be in order, apart from the comparisons that sort.Slice is given
-- (internal/report/data.go and charts.go).
use sluice_gate_telemetery_i.Base.{
  ◌<◌, ◌≤◌, ◌==◌, ℤ, pos, negsuc, Bytes, beq, beq_eq, beq_refl, subst, Distinct, bytes_lt, ◌≡◌,
  refl, ◌⊎◌, inl, inr, sym, List, [], ◌∷◌, Bool, true, false, arith, Bool-cases,
}
use sluice_gate_telemetery_i.Report.{SweepPoint}
use sluice_gate_telemetery_i.Report.Load.{int_lt, sweep_less}
use sluice_gate_telemetery_i.Report.Load.Order.{InOrder}

-- Each element stands in the relation to the next.
abbrev pub Ordered : {A : Type 0} → (A → A → Type 0) → List A → Type 0
Ordered R [] = Unit
Ordered R (x ∷ []) = Unit
Ordered R (x ∷ (y ∷ ys)) = R x y × Ordered R (y ∷ ys)

-- Strictly before, byte by byte; a beginning of a text is before the text.
abbrev pub Before : Bytes → Bytes → Type 0
Before a [] = ⊥
Before [] (y ∷ b) = Unit
Before (x ∷ a) (y ∷ b) = (x < y) ⊎ ((x ≡ y) × Before a b)

abbrev pub AtMost : ℤ → ℤ → Type 0
AtMost (pos a) (pos b) = a ≤ b
AtMost (pos a) (negsuc b) = ⊥
AtMost (negsuc a) (pos b) = Unit
AtMost (negsuc a) (negsuc b) = b ≤ a

-- By the name of the phase, and in one phase by the concurrency.
abbrev pub ByPhase : SweepPoint → SweepPoint → Type 0
ByPhase s t = Before s.phase t.phase ⊎ ((s.phase ≡ t.phase) × AtMost s.concurrency t.concurrency)

pub InOrder-Ordered :
    {A : Type 0} (less : A → A → Bool) (R : A → A → Type 0)
    → ((a b : A) → less b a ≡ false → R a b)
    → (xs : List A) → InOrder less xs
    → Ordered R xs
InOrder-Ordered less R f [] h = tt
InOrder-Ordered less R f (x ∷ []) h = tt
InOrder-Ordered less R f (x ∷ (y ∷ ys)) h = (f x y h.0, InOrder-Ordered less R f (y ∷ ys) h.1)

int_lt-AtMost : (a b : ℤ) → int_lt b a ≡ false → AtMost a b
int_lt-AtMost (pos a) (pos b) h = ground arith
int_lt-AtMost (pos a) (negsuc b) h = cc
int_lt-AtMost (negsuc a) (pos b) h = tt
int_lt-AtMost (negsuc a) (negsuc b) h = ground arith

-- Texts of which the second is not less are the same, or the first is before it.
pub bytes_lt-Before : (a b : Bytes) → bytes_lt b a ≡ false → Before a b ⊎ (a ≡ b)
bytes_lt-Before [] [] h = inr refl
bytes_lt-Before [] (y ∷ b) h = inl tt
bytes_lt-Before (x ∷ a) [] h = cc
bytes_lt-Before (x ∷ a) (y ∷ b) h = elim (Bool-cases (y == x)) [
  | inl e ↦
      let same : x ≡ y = ground (arith, e) in
      elim (bytes_lt-Before a b (ground (arith, h, e))) [
        | inl l ↦ inl (inr (same, l))
        | inr k ↦ inr (cc)
      ]
  | inr n ↦ inl (inl (ground (arith, h, n)))
]

-- With no two elements the same, each is before the next.
pub InOrder-Before : (ps : List Bytes) → InOrder bytes_lt ps → Distinct ps → Ordered Before ps
InOrder-Before [] h d = tt
InOrder-Before (p ∷ []) h d = tt
InOrder-Before (p ∷ (q ∷ ps)) h d = (
  elim (bytes_lt-Before p q h.0) [ inl l ↦ l | inr e ↦ absurd (d.0 (inl e)) ],
  InOrder-Before (q ∷ ps) h.1 d.1,
)

pub sweep_less-ByPhase : (a b : SweepPoint) → sweep_less b a ≡ false → ByPhase a b
sweep_less-ByPhase a b h = elim (Bool-cases (beq b.phase a.phase)) [
  | inl e ↦ inr (
    sym (beq_eq b.phase a.phase e),
    int_lt-AtMost a.concurrency b.concurrency (ground (arith, h, e)),
  )
  | inr n ↦ elim (bytes_lt-Before a.phase b.phase (ground (arith, h, n))) [
    | inl l ↦ inl l
    | inr e ↦ absurd (differ n (sym e))
  ]
]
  where
    differ : beq b.phase a.phase ≡ false → b.phase ≡ a.phase → ⊥
    differ n e =
        let same : beq a.phase a.phase ≡ false = subst (λ p. beq p a.phase ≡ false) e n in
        let yes : beq a.phase a.phase ≡ true = beq_refl a.phase in cc
