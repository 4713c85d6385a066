-- ===== src/Report/Load/Order.antt =====
-- The order that sort.Slice leaves in internal/report/data.go.
use mathlib.Core.List.{Perm}
use mathlib.Core.List.Perm
use sluice_gate_telemetery_i.Base.{
  ℤ, pos, negsuc, Bytes, beq, bytes_lt, ◌≡◌, refl, List, [], ◌∷◌, Bool, true, false, if◌then◌else◌,
  arith,
}
use sluice_gate_telemetery_i.Report.{SweepPoint}
use sluice_gate_telemetery_i.Report.Load.{insert, sort_slice, sweep_less, int_lt}

pub insert-perm :
    {A : Type 0} (less : A → A → Bool) (x : A) (ys : List A) → Perm (insert less x ys) (x ∷ ys)
insert-perm less x [] = Perm.rfl
insert-perm less x (y ∷ ys) = by_test (less y x) (insert-perm less x ys)
  where
    by_test :
        (b : Bool)
        → Perm (insert less x ys) (x ∷ ys)
        → Perm (if b then y ∷ insert less x ys else x ∷ (y ∷ ys)) (x ∷ (y ∷ ys))
    by_test true h = Perm.trans (Perm.cons y h) (Perm.swap x y ys)
    by_test false h = Perm.rfl

pub sort_slice-perm :
    {A : Type 0} (less : A → A → Bool) (xs : List A) → Perm (sort_slice less xs) xs
sort_slice-perm less [] = Perm.rfl
sort_slice-perm less (x ∷ xs) =
    Perm.trans (insert-perm less x (sort_slice less xs)) (Perm.cons x (sort_slice-perm less xs))

-- No element is less than the one before it.
abbrev pub InOrder : {A : Type 0} → (A → A → Bool) → List A → Type 0
InOrder less [] = Unit
InOrder less (x ∷ []) = Unit
InOrder less (x ∷ (y ∷ ys)) = (less y x ≡ false) × InOrder less (y ∷ ys)

insert-InOrder :
    {A : Type 0} (less : A → A → Bool) (asym : (a b : A) → less a b ≡ true → less b a ≡ false)
    (x : A) (ys : List A)
    → InOrder less ys
    → InOrder less (insert less x ys)
insert-InOrder less asym x [] h = tt
insert-InOrder less asym x (y ∷ []) h = by_test (less y x) refl
  where
    by_test : (b : Bool) → less y x ≡ b → InOrder less (if b then y ∷ (x ∷ []) else x ∷ (y ∷ []))
    by_test true k = (asym y x k, tt)
    by_test false k = (k, tt)
insert-InOrder less asym x (y ∷ (z ∷ zs)) h =
    by_test (less y x) (less z x) refl refl (insert-InOrder less asym x (z ∷ zs) h.1)
  where
    by_test :
        (b c : Bool)
        → less y x ≡ b
        → less z x ≡ c
        → InOrder less (if c then z ∷ insert less x zs else x ∷ (z ∷ zs))
        → InOrder less (
            if b
            then y ∷ (if c then z ∷ insert less x zs else x ∷ (z ∷ zs))
            else x ∷ (y ∷ (z ∷ zs)))
    by_test true true k l r = (h.0, r)
    by_test true false k l r = (asym y x k, r)
    by_test false c k l r = (k, h)

pub sort_slice-InOrder :
    {A : Type 0} (less : A → A → Bool) (asym : (a b : A) → less a b ≡ true → less b a ≡ false)
    (xs : List A)
    → InOrder less (sort_slice less xs)
sort_slice-InOrder less asym [] = tt
sort_slice-InOrder less asym (x ∷ xs) =
    insert-InOrder less asym x (sort_slice less xs) (sort_slice-InOrder less asym xs)

int_lt-asym : (a b : ℤ) → int_lt a b ≡ true → int_lt b a ≡ false
int_lt-asym (pos a) (pos b) h = ground arith
int_lt-asym (pos a) (negsuc b) h = cc
int_lt-asym (negsuc a) (pos b) h = refl
int_lt-asym (negsuc a) (negsuc b) h = ground arith

pub bytes_lt-asym : (a b : Bytes) → bytes_lt a b ≡ true → bytes_lt b a ≡ false
bytes_lt-asym [] [] h = cc
bytes_lt-asym [] (y ∷ b) h = refl
bytes_lt-asym (x ∷ a) [] h = cc
bytes_lt-asym (x ∷ a) (y ∷ b) h = ground (arith, bytes_lt-asym a b)

beq-sym : (a b : Bytes) → beq a b ≡ beq b a
beq-sym [] [] = refl
beq-sym [] (y ∷ b) = refl
beq-sym (x ∷ a) [] = refl
beq-sym (x ∷ a) (y ∷ b) = ground (arith, beq-sym a b)

pub sweep_less-asym : (a b : SweepPoint) → sweep_less a b ≡ true → sweep_less b a ≡ false
sweep_less-asym a b h = ground (
  arith,
  h,
  beq-sym a.phase b.phase,
  int_lt-asym a.concurrency b.concurrency,
  bytes_lt-asym a.phase b.phase,
)
