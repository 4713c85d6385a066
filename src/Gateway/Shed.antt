-- ===== src/Gateway/Shed.antt =====
-- `Push` with shedding (internal/gateway/server.go) never waits.
use sluice_gate_telemetery_i.Base.{
  ℕ, ◌≤◌, ◌≡◌, refl, sym, ◌∙◌, List, [], ◌∷◌, Bool, true, false, Option, none, some, length, arith,
  if◌then◌else◌, get_elem?, All,
}
use sluice_gate_telemetery_i.Event.{Event, TelemetryEvent, event_of, Error}
use sluice_gate_telemetery_i.Pool.{
  Pool, Worker, looping, parked, exited, writing, Sent, sent, full, panics, send, try_submit,
}
use sluice_gate_telemetery_i.Pool.Moves.{
  Move, sends, works, closes, after_send, receive, turn, work, step, run,
}
use sluice_gate_telemetery_i.Pool.Order.{Sending, goes, waits, fails, send-Sending}
use sluice_gate_telemetery_i.Gateway.{
  Server, Response, Turn, Offered, handled, waits, crashes, offer, offer_shed, offer_wait, Pushed,
  returned, failed, push, accept, reject, on_metrics, inc_shed,
}

abbrev pub NotClosing : Move → Type 0
NotClosing (sends e) = Unit
NotClosing (works i r) = Unit
NotClosing closes = ⊥

receive_closed : (p : Pool) (i : ℕ) (q : List Event) → (receive i q p).closed ≡ p.closed
unfolding receive
receive_closed p i (e ∷ q) = refl
receive_closed p i [] = ground arith

turn_closed : (p : Pool) (i : ℕ) (w : Worker) (r : Option Error) → (turn i w r p).closed ≡ p.closed
unfolding turn
turn_closed p i looping r = receive_closed p i p.queue
turn_closed p i parked r = ground arith
turn_closed p i (writing e) r = refl
turn_closed p i exited r = refl

abbrev SameClosed : Pool → Pool → Type 0
SameClosed p q = q.closed ≡ p.closed

step_closed : (p : Pool) (m : Move) → NotClosing m → SameClosed p (step p m)
unfolding step work
step_closed p closes h = absurd h
step_closed p (sends e) h = by_sending (send p e) (send-Sending p e)
  where
    by_sending : (x : Sent) → Sending p e x → SameClosed p (after_send p x)
    by_sending x (goes q k a o) = rw k o
    by_sending x (waits k n w) = rw k refl
    by_sending x (fails k c) = rw k refl
step_closed p (works i r) h = by_worker (get_elem? p.workers i)
  where
    by_worker : (o : Option Worker) → SameClosed p (elim o [ none ↦ p | some w ↦ turn i w r p ])
    by_worker none = refl
    by_worker (some w) = turn_closed p i w r

run_closed : (p : Pool) (ms : List Move) → All NotClosing ms → SameClosed p (run p ms)
unfolding run
run_closed p [] h = refl
run_closed p (m ∷ ms) h = run_closed (step p m) ms h.1 ∙ step_closed p m h.0

-- A server that sheds and whose pool is open.
abbrev Shedding : Server → Type 0
Shedding s = (s.shed ≡ true) × (s.pool.closed ≡ false)

abbrev GoesOn : Offered → Type 0
GoesOn (handled s r) = Shedding s
GoesOn (waits s) = ⊥
GoesOn crashes = ⊥

offer_shed-GoesOn : (s : Server) (r : Response) (e : Event) → Shedding s → GoesOn (offer_shed s r e)
unfolding offer_shed try_submit
offer_shed-GoesOn s r e h = by_sending (send s.pool e) (send-Sending s.pool e)
  where
    by_sending :
        (x : Sent)
        → Sending s.pool e x
        → GoesOn
            (elim (elim x as (λ y. Option (Pool × Bool)) [
              | sent q ↦ some (q, true)
              | full ↦ some (s.pool, false)
              | panics ↦ none
            ]) [
              | none ↦ crashes
              | some (p, true) ↦ accept (record s { pool = p }) r
              | some (p, false) ↦ reject (on_metrics inc_shed (record s { pool = p })) r
            ])
    by_sending x (goes q k a o) = rw k (h.0, o ∙ h.1)
    by_sending x (waits k n w) = rw k h
    by_sending x (fails k c) = absurd (let f : true ≡ false = sym c ∙ h.1 in let g : ⊥ = cc in g)

offer-GoesOn :
    (t : Turn) (s : Server) (r : Response) (e : Event)
    → All NotClosing t.moves
    → Shedding s
    → GoesOn (offer t s r e)
unfolding offer
offer-GoesOn t s r e n h = by_mode s.shed h.0
  where
    s1 : Server
    s1 = record s { pool = run s.pool t.moves }

    by_mode :
        (b : Bool)
        → b ≡ true
        → GoesOn (if b then offer_shed s1 r e else offer_wait t.done t.chooses_done s1 r e)
    by_mode true k = offer_shed-GoesOn s1 r e (h.0, run_closed s.pool t.moves n ∙ h.1)
    by_mode false k = cc

-- That a call has come back, with what.
abbrev pub Returns : Pushed → Type 0
Returns o = (s : Server) × (r : Response) × (o ≡ returned s r)

-- With shedding, while the pool is open, `Push` needs no more than one turn for each event, whatever
-- the workers and the other calls do in between: it never waits for room in the queue.
pub push_shed-Returns :
    (ts : List Turn) (ms : List TelemetryEvent) (s : Server) (r : Response)
    → (s.shed ≡ true) × (s.pool.closed ≡ false)
    → All (λ t. All NotClosing t.moves) ts
    → length ms ≤ length ts
    → Returns (push ts ms s r)
unfolding push
push_shed-Returns ts [] s r h n k = (_, _, refl)
push_shed-Returns [] (m ∷ ms) s r h n k = absurd (let f : ⊥ = omega (arith, k) in f)
push_shed-Returns (t ∷ ts) (m ∷ ms) s r h n k =
    by_offer (λ s' r' h'. push_shed-Returns ts ms s' r' h' n.1 (omega (arith, k)))
      (offer t s r (event_of m)) (offer-GoesOn t s r (event_of m) n.0 h)
  where
    by_offer :
        ((s' : Server) (r' : Response) → Shedding s' → Returns (push ts ms s' r'))
        → (o : Offered) → GoesOn o
        → Returns (elim o [
          | handled s' r' ↦ push ts ms s' r'
          | waits s' ↦ push ts (m ∷ ms) s' r
          | crashes ↦ failed
        ])
    by_offer rest (handled s' r') f = rest s' r' f
    by_offer rest (waits s') f = absurd f
    by_offer rest crashes f = absurd f
