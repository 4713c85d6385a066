-- ===== src/Pool/Service.antt =====
-- What a pool (internal/pool/pool.go) is to its users: a bounded first-in first-out queue in front of
-- hands that write. Which worker holds an event is forgotten, and so is the order of the hands.
pub mod Simulated
use mathlib.Core.List.{Perm}
use mathlib.Core.List.Perm
use mathlib.Core.Path.{subst₂}
use mathlib.Core.Quot
use mathlib.Core.Quot.{Quot, Quot-set}
use sluice_gate_telemetery_i.Base.{
  ℕ, ℤ, pos, negsuc, ◌<◌, ◌≤◌, ◌≡◌, refl, sym, ap, subst, ◌∙◌, List, [], ◌∷◌, ◌++◌, Bool, true,
  false, not, Option, none, some, some_inj, length, get_elem?, set, ltb, if◌then◌else◌, arith,
}
use sluice_gate_telemetery_i.Event.{Event, Error}
use sluice_gate_telemetery_i.Pool.{
  Pool, Worker, looping, parked, exited, writing, Sent, sent, full, panics, new, hand, send, close,
}
use sluice_gate_telemetery_i.Pool.Moves as Moves
use sluice_gate_telemetery_i.Pool.Workers.{
  held, in_flight, is_parked, any, in_flight-set, Handed, hand-Handed, in_flight-replicate,
}

-- Events in no order.
abbrev pub Bag : Type 0
Bag = Quot {α = List Event} Perm

pub add : Event → Bag → Bag
add e = Quot.lift Quot-set (λ es. Quot.mk (e ∷ es)) (λ es fs h. Quot.sound (Perm.cons e h))

-- In a bag the order in which events come is an equation.
pub add_comm : (e f : Event) (b : Bag) → add e (add f b) ≡ add f (add e b)
unfolding add
add_comm e f = Quot.ind (λ b. Quot-set _ _) (λ es. Quot.sound (Perm.swap f e es))

pub record Service : Type 0 where
  pub waiting : List Event
  pub room : ℕ
  pub in_hands : Bag
  pub written : List Event
  pub accepting : Bool

-- What is seen of it: an event taken in, refused at a full queue, or sent after `Close`, which panics; a
-- write that has come back; `Close`, which panics the second time; and anything else.
pub data Label : Type 0 where
  takes_in refuses panics_on writes : Event → Label
  shuts panics_again quiet : Label

-- What can happen next, and what is seen of it.
pub data Serves (a : Service) : Label → Service → Type 0 where
  queues :
      (e : Event)
      → a.accepting ≡ true
      → length a.waiting < a.room
      → Serves a (takes_in e) (record a { waiting = a.waiting ++ e ∷ [] })
  hands_over :
      (e : Event)
      → a.accepting ≡ true
      → a.waiting ≡ []
      → Serves a (takes_in e) (record a { in_hands = add e a.in_hands })
  is_full : (e : Event) → a.accepting ≡ true → a.room ≤ length a.waiting → Serves a (refuses e) a
  is_shut : (e : Event) → a.accepting ≡ false → Serves a (panics_on e) a
  takes :
      (e : Event) (q : List Event)
      → a.waiting ≡ e ∷ q
      → Serves a quiet (record a { waiting = q; in_hands = add e a.in_hands })
  rests : Serves a quiet a
  is_written :
      (e : Event) (b : Bag)
      → a.in_hands ≡ add e b
      → Serves a (writes e) (record a { in_hands = b; written = a.written ++ e ∷ [] })
  closes : a.accepting ≡ true → Serves a shuts (record a { accepting = false })
  closed_before : a.accepting ≡ false → Serves a panics_again a

-- One thing after the other, each seen as the list says.
abbrev pub Follows : Service → List Label → Service → Type 0
Follows a [] b = a ≡ b
Follows a (l ∷ ls) b = (m : Service) × Serves a l m × Follows m ls b

abbrev pub fresh : ℕ → Service
fresh n = record { waiting = []; room = n; in_hands = Quot.mk []; written = []; accepting = true }

abbrev pub view : Pool → Service
view p = record {
  waiting = p.queue;
  room = p.cap;
  in_hands = Quot.mk (in_flight p.workers);
  written = p.finished;
  accepting = not p.closed;
}

abbrev pub send_label : Event → Sent → Label
send_label e (sent q) = takes_in e
send_label e full = refuses e
send_label e panics = panics_on e

abbrev pub turn_label : Worker → Label
turn_label looping = quiet
turn_label parked = quiet
turn_label (writing e) = writes e
turn_label exited = quiet

abbrev pub work_label : Option Worker → Label
work_label none = quiet
work_label (some w) = turn_label w

abbrev pub close_label : Option Pool → Label
close_label none = panics_again
close_label (some q) = shuts

-- What a pool lets be seen of a move.
abbrev pub label : Pool → Moves.Move → Label
label p (Moves.sends e) = send_label e (send p e)
label p (Moves.works i r) = work_label (get_elem? p.workers i)
label p Moves.closes = close_label (close p)

-- And of a history.
abbrev pub observed : Pool → List Moves.Move → List Label
observed p [] = []
observed p (m ∷ ms) = label p m ∷ observed (Moves.step p m) ms
