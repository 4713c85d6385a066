-- ===== src/Report/Charts/Phases.antt =====
-- The phases that a chart of internal/report/charts.go has lines for.
use sluice_gate_telemetery_i.Base.{
  Bytes, beq, beq_eq, beq_refl, bytes_lt, ◌≡◌, refl, sym, ap, subst, ◌⊎◌, inl, inr, ◌↔◌, List, [],
  ◌∷◌, Bool, true, false, if◌then◌else◌, arith, In, Distinct, Bool-cases,
}
use sluice_gate_telemetery_i.Report.{SweepPoint}
use sluice_gate_telemetery_i.Report.Load.{insert, sort_slice}
use sluice_gate_telemetery_i.Report.Load.Order.{InOrder, sort_slice-InOrder, bytes_lt-asym}
use sluice_gate_telemetery_i.Report.Charts.{member, collect_phases, distinct_phases}

member-In : (p : Bytes) (qs : List Bytes) → member p qs ≡ true → In p qs
member-In p [] h = cc
member-In p (q ∷ qs) h = elim (Bool-cases (beq p q)) [
  | inl e ↦ inl (beq_eq p q e)
  | inr n ↦ inr (member-In p qs (ground (arith, h, n)))
]

In-member : (p : Bytes) (qs : List Bytes) → In p qs → member p qs ≡ true
In-member p (q ∷ qs) (inl e) = ground (arith, e, beq_refl q)
In-member p (q ∷ qs) (inr h) = ground (arith, In-member p qs h)
In-member p [] h = elim h [ ]

abbrev pub HasPhase : Bytes → List SweepPoint → Type 0
HasPhase p ss = (s : SweepPoint) × In s ss × (s.phase ≡ p)

-- What the loop gives are the phases of the sweeps that were not seen before, each once.
collect_phases_sound :
    (ss : List SweepPoint) (seen : List Bytes) (p : Bytes)
    → In p (collect_phases ss seen)
    → HasPhase p ss × (member p seen ≡ false)
unfolding collect_phases
collect_phases_sound [] seen p h = elim h [ ]
collect_phases_sound (s ∷ ss) seen p h =
    by_test (member s.phase seen) refl (collect_phases_sound ss) h
  where
    by_test :
        (b : Bool)
        → member s.phase seen ≡ b
        → ((seen' : List Bytes) (q : Bytes)
            → In q (collect_phases ss seen')
            → HasPhase q ss × (member q seen' ≡ false))
        → In p (elim b [
          | true ↦ collect_phases ss seen
          | false ↦ s.phase ∷ collect_phases ss (s.phase ∷ seen)
        ])
        → HasPhase p (s ∷ ss) × (member p seen ≡ false)
    by_test true k rest i = let (a, b) = rest seen p i in ((a.0, inr a.1, a.2), b)
    by_test false k rest (inl e) =
        ((s, inl refl, sym e), subst (λ q. member q seen ≡ false) (sym e) k)
    by_test false k rest (inr i) =
        let (a, b) = rest (s.phase ∷ seen) p i in ((a.0, inr a.1, a.2), ground (arith, b))

collect_phases_complete :
    (ss : List SweepPoint) (seen : List Bytes) (s : SweepPoint)
    → In s ss
    → (member s.phase seen ≡ true) ⊎ In s.phase (collect_phases ss seen)
unfolding collect_phases
collect_phases_complete [] seen s h = elim h [ ]
collect_phases_complete (t ∷ ss) seen s h =
    by_test (member t.phase seen) refl (λ seen'. collect_phases_complete ss seen' s) h
  where
    by_test :
        (b : Bool)
        → member t.phase seen ≡ b
        → ((seen' : List Bytes)
            → In s ss
            → (member s.phase seen' ≡ true) ⊎ In s.phase (collect_phases ss seen'))
        → In s (t ∷ ss)
        → (member s.phase seen ≡ true)
          ⊎ In s.phase (elim b [
            | true ↦ collect_phases ss seen
            | false ↦ t.phase ∷ collect_phases ss (t.phase ∷ seen)
          ])
    by_test true k rest (inl e) = inl (subst (λ u. member u.phase seen ≡ true) (sym e) k)
    by_test true k rest (inr i) = rest seen i
    by_test false k rest (inl e) = inr (inl (ap (λ u. u.phase) e))
    by_test false k rest (inr i) = elim (rest (t.phase ∷ seen) i) [
      | inr j ↦ inr (inr j)
      | inl m ↦ elim (Bool-cases (beq s.phase t.phase)) [
        | inl e ↦ inr (inl (beq_eq s.phase t.phase e))
        | inr n ↦ inl (ground (arith, m, n))
      ]
    ]

collect_phases-Distinct :
    (ss : List SweepPoint) (seen : List Bytes) → Distinct (collect_phases ss seen)
unfolding collect_phases
collect_phases-Distinct [] seen = tt
collect_phases-Distinct (s ∷ ss) seen = by_test (member s.phase seen) (collect_phases-Distinct ss)
  where
    new : ¬ In s.phase (collect_phases ss (s.phase ∷ seen))
    new h =
        let m = (collect_phases_sound ss (s.phase ∷ seen) s.phase h).1 in
        ground (arith, m, beq_refl s.phase)

    by_test :
        (b : Bool)
        → ((seen' : List Bytes) → Distinct (collect_phases ss seen'))
        → Distinct (elim b [
          | true ↦ collect_phases ss seen
          | false ↦ s.phase ∷ collect_phases ss (s.phase ∷ seen)
        ])
    by_test true rest = rest seen
    by_test false rest = (new, rest (s.phase ∷ seen))

insert-In :
    (less : Bytes → Bytes → Bool) (x p : Bytes) (ys : List Bytes)
    → In p (insert less x ys) ↔ ((p ≡ x) ⊎ In p ys)
insert-In less x p [] = (λ h. h, λ h. h)
insert-In less x p (y ∷ ys) = by_test (less y x) (insert-In less x p ys)
  where
    by_test :
        (b : Bool)
        → In p (insert less x ys) ↔ ((p ≡ x) ⊎ In p ys)
        → In p (if b then y ∷ insert less x ys else x ∷ (y ∷ ys)) ↔ ((p ≡ x) ⊎ In p (y ∷ ys))
    by_test false ih = (λ h. h, λ h. h)
    by_test true ih = (
      λ h. elim h [
        | inl e ↦ inr (inl e)
        | inr i ↦ elim (ih.0 i) [ inl e ↦ inl e | inr j ↦ inr (inr j) ]
      ],
      λ h. elim h [
        | inl e ↦ inr (ih.1 (inl e))
        | inr i ↦ elim i [ inl e ↦ inl e | inr j ↦ inr (ih.1 (inr j)) ]
      ],
    )

insert-Distinct :
    (less : Bytes → Bytes → Bool) (x : Bytes) (ys : List Bytes)
    → ¬ In x ys
    → Distinct ys
    → Distinct (insert less x ys)
insert-Distinct less x [] n d = (n, tt)
insert-Distinct less x (y ∷ ys) n d =
    by_test (less y x) (insert-Distinct less x ys (λ h. n (inr h)) d.1)
  where
    by_test :
        (b : Bool)
        → Distinct (insert less x ys)
        → Distinct (if b then y ∷ insert less x ys else x ∷ (y ∷ ys))
    by_test false ih = (n, d)
    by_test true ih =
        (λ h. elim ((insert-In less x y ys).0 h) [ inl e ↦ n (inl (sym e)) | inr i ↦ d.0 i ], ih)

sort_slice-In :
    (less : Bytes → Bytes → Bool) (p : Bytes) (xs : List Bytes)
    → In p (sort_slice less xs) ↔ In p xs
sort_slice-In less p [] = (λ h. h, λ h. h)
sort_slice-In less p (x ∷ xs) =
    let ih = sort_slice-In less p xs in
    let q = insert-In less x p (sort_slice less xs) in
    (
      λ h. elim (q.0 h) [ inl e ↦ inl e | inr i ↦ inr (ih.0 i) ],
      λ h. elim h [ inl e ↦ q.1 (inl e) | inr i ↦ q.1 (inr (ih.1 i)) ],
    )

sort_slice-Distinct :
    (less : Bytes → Bytes → Bool) (xs : List Bytes) → Distinct xs → Distinct (sort_slice less xs)
sort_slice-Distinct less [] d = tt
sort_slice-Distinct less (x ∷ xs) d =
    insert-Distinct less x (sort_slice less xs) (λ h. d.0 ((sort_slice-In less x xs).0 h))
      (sort_slice-Distinct less xs d.1)

-- distinctPhases gives the phases that the sweeps have and no others, each once, in order.
pub distinct_phases-HasPhase :
    (ss : List SweepPoint)
    → ((p : Bytes) → In p (distinct_phases ss) ↔ HasPhase p ss)
      × Distinct (distinct_phases ss)
      × InOrder bytes_lt (distinct_phases ss)
unfolding distinct_phases
distinct_phases-HasPhase ss = (
  λ p. (
    λ h. (collect_phases_sound ss [] p ((sort_slice-In bytes_lt p (collect_phases ss [])).0 h)).0,
    there p,
  ),
  sort_slice-Distinct bytes_lt (collect_phases ss []) (collect_phases-Distinct ss []),
  sort_slice-InOrder bytes_lt bytes_lt-asym (collect_phases ss []),
)
  where
    there : (p : Bytes) → HasPhase p ss → In p (sort_slice bytes_lt (collect_phases ss []))
    there p (s, i, e) = elim (collect_phases_complete ss [] s i) [
      | inl m ↦ absurd (let f : ⊥ = cc in f)
      | inr j ↦
          (sort_slice-In bytes_lt p (collect_phases ss [])).1
            (subst (λ q. In q (collect_phases ss [])) e j)
    ]
