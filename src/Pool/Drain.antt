-- ===== src/Pool/Drain.antt =====
-- `Close` of internal/pool/pool.go comes back: the workers have only so many steps left.
use sluice_gate_telemetery_i.Base.{
  ℕ, zero, suc, ◌+◌, ◌*◌, ◌≤◌, ◌<◌, ◌≡◌, ◌≢◌, refl, sym, ap, subst, List, [], ◌∷◌, true, Option,
  none, some, some_inj, length, get_elem?, set, arith,
}
use sluice_gate_telemetery_i.Event.{Event, Error}
use sluice_gate_telemetery_i.Pool.{Pool, Worker, looping, parked, exited, writing, AllExited}
use sluice_gate_telemetery_i.Pool.Moves.{receive, turn, work, Move, works, sends, closes, step, run}

-- The steps that a worker has left before it next asks the channel, and that step.
abbrev weight : Worker → ℕ
weight exited = 0
weight parked = 1
weight looping = 1
weight (writing e) = 2

abbrev weights : List Worker → ℕ
weights [] = 0
weights (w ∷ ws) = weight w + weights ws

-- A bound on the steps that the workers of a closed pool have left.
abbrev pub steps_left : Pool → ℕ
steps_left p = 2 * length p.queue + weights p.workers

weights-set :
    (ws : List Worker) (i : ℕ) (w x : Worker)
    → get_elem? ws i ≡ some w
    → weight w + weights (set ws i x) ≡ weight x + weights ws
weights-set [] i w x h = cc
weights-set (y ∷ ws) zero w x h = let e : y ≡ w = cc in rw e (omega arith)
weights-set (y ∷ ws) (suc i) w x h = omega (arith, weights-set ws i w x h)

-- A closed pool that is nearer to its end.
abbrev Nearer : Pool → Pool → Type 0
Nearer p q = (q.closed ≡ true) × (steps_left q < steps_left p)

-- A step of a worker that has not returned brings a closed pool nearer to its end.
turn-Nearer :
    (p : Pool) (i : ℕ) (w : Worker) (r : Option Error)
    → p.closed ≡ true
    → get_elem? p.workers i ≡ some w
    → 0 < weight w
    → Nearer p (turn i w r p)
unfolding turn receive
turn-Nearer p i exited r c h k = elim k [ ]
turn-Nearer p i parked r c h k = rw c (refl, omega (arith, weights-set p.workers i parked exited h))
turn-Nearer p i (writing e) r c h k =
    (c, omega (arith, weights-set p.workers i (writing e) looping h))
turn-Nearer p i looping r c h k = by_queue p.queue refl
  where
    by_queue : (q : List Event) → p.queue ≡ q → Nearer p (receive i q p)
    by_queue [] e = rw c (refl, omega (arith, weights-set p.workers i looping exited h))
    by_queue (x ∷ xs) e =
        let n : length p.queue ≡ suc (length xs) = ap length e in
        (c, omega (arith, n, weights-set p.workers i looping (writing x) h))

-- The first worker that has not returned.
abbrev busy : List Worker → Option ℕ
busy [] = none
busy (exited ∷ ws) = elim (busy ws) [ none ↦ none | some i ↦ some (suc i) ]
busy (looping ∷ ws) = some 0
busy (parked ∷ ws) = some 0
busy (writing e ∷ ws) = some 0

-- A list of workers has all returned, or has a first one that has not.
data Busy (ws : List Worker) : Type 0 where
  idle : AllExited ws → Busy ws
  at : (i : ℕ) (w : Worker) → get_elem? ws i ≡ some w → 0 < weight w → Busy ws

find-Busy : (ws : List Worker) → Busy ws
find-Busy [] = idle tt
find-Busy (looping ∷ ws) = at 0 looping refl (omega arith)
find-Busy (parked ∷ ws) = at 0 parked refl (omega arith)
find-Busy (writing e ∷ ws) = at 0 (writing e) refl (omega arith)
find-Busy (exited ∷ ws) = elim (find-Busy ws) [ idle a ↦ idle a | at i w h k ↦ at (suc i) w h k ]

work-Nearer :
    (p : Pool) (i : ℕ) (w : Worker) (r : Option Error)
    → p.closed ≡ true
    → get_elem? p.workers i ≡ some w
    → 0 < weight w
    → Nearer p (work i r p)
unfolding work
work-Nearer p i w r c h k = by_worker (get_elem? p.workers i) h
  where
    by_worker :
        (o : Option Worker) → o ≡ some w → Nearer p (elim o [ none ↦ p | some v ↦ turn i v r p ])
    by_worker none e = cc
    by_worker (some v) e =
        subst (λ u. Nearer p (turn i u r p)) (sym (some_inj v w e)) (turn-Nearer p i w r c h k)

-- The steps of the workers alone.
abbrev pub AllWork : List Move → Type 0
AllWork [] = Unit
AllWork (works i r ∷ ms) = AllWork ms
AllWork (sends e ∷ ms) = ⊥
AllWork (closes ∷ ms) = ⊥

-- Steps of the workers that end with all of them returned.
abbrev pub Drains : ℕ → Pool → List Move → Type 0
Drains n p ms = AllWork ms × (length ms ≤ n) × AllExited (run p ms).workers

drain :
    (n : ℕ) (r : Option Error) (p : Pool)
    → p.closed ≡ true
    → steps_left p ≤ n
    → (ms : List Move) × Drains n p ms
unfolding run step
drain zero r p c k = by_busy (find-Busy p.workers)
  where
    by_busy : Busy p.workers → (ms : List Move) × Drains zero p ms
    by_busy (idle a) = ([], (tt, omega arith, a))
    by_busy (at i w h b) = absurd (let f : ⊥ = omega (arith, k, (work-Nearer p i w r c h b).1) in f)
drain (suc n) r p c k = by_busy (drain n r) (find-Busy p.workers)
  where
    by_busy :
        ((q : Pool) → q.closed ≡ true → steps_left q ≤ n → (ms : List Move) × Drains n q ms)
        → Busy p.workers
        → (ms : List Move) × Drains (suc n) p ms
    by_busy from (idle a) = ([], (tt, omega arith, a))
    by_busy from (at i w h b) =
        let near = work-Nearer p i w r c h b in
        let rest = from (work i r p) near.0 (omega (arith, k, near.1)) in
        (works i r ∷ rest.0, (rest.1.0, omega (arith, rest.1.1), rest.1.2))

-- From a closed pool every step of a worker that has not returned brings the end nearer, whatever
-- the sink's `Write` gives; and there are steps of the workers, at most `steps_left` many, after which
-- all have returned and `Close` comes back.
pub close_returns :
    (p : Pool) (r : Option Error)
    → p.closed ≡ true
    → ((i : ℕ) (w : Worker)
        → get_elem? p.workers i ≡ some w
        → w ≢ exited
        → steps_left (work i r p) < steps_left p)
      × ((ms : List Move) × Drains (steps_left p) p ms)
close_returns p r c = (
  λ i w h n. (work-Nearer p i w r c h (has_weight w n)).1,
  drain (steps_left p) r p c (omega arith),
)
  where
    has_weight : (w : Worker) → w ≢ exited → 0 < weight w
    has_weight looping n = omega arith
    has_weight parked n = omega arith
    has_weight (writing e) n = omega arith
    has_weight exited n = absurd (n refl)
