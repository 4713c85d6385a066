-- ===== src/Pool/Invariant/Sends.antt =====
-- What holds of a pool (internal/pool/pool.go) from `New` on, and that a send keeps it.
use mathlib.Core.List.{Perm}
use mathlib.Core.List.Perm
use sluice_gate_telemetery_i.Base.{
  ℤ, pos, negsuc, ◌≤◌, ◌≡◌, refl, sym, ap, subst, ◌∙◌, List, [], ◌∷◌, ◌++◌, append_assoc,
  append-nil, Bool, true, false, Option, none, some, length, length-append, arith, some_inj, ltb,
  if◌then◌else◌,
}
use sluice_gate_telemetery_i.Event.{Event}
use sluice_gate_telemetery_i.Pool.{Pool, Worker, Sent, sent, full, panics, new, hand, send}
use sluice_gate_telemetery_i.Pool.Moves.{after_send}
use sluice_gate_telemetery_i.Pool.Workers.{
  in_flight, is_parked, is_exited, any, hand-none, Handed, hand-Handed, in_flight-replicate,
  any-replicate, started-owned,
}

pub record Inv (p : Pool) : Type 0 where
  pub bounded : length p.queue ≤ p.cap
  pub quiet : any is_parked p.workers ≡ true → p.queue ≡ []
  pub in_order : p.accepted ≡ p.started ++ p.queue
  pub owned : Perm p.started (p.finished ++ in_flight p.workers)
  pub returned : any is_exited p.workers ≡ true → (p.closed ≡ true) × (p.queue ≡ [])

pub new-Inv : (workers queue_size : ℤ) (p : Pool) → new workers queue_size ≡ some p → Inv p
unfolding new
new-Inv (pos w) (pos n) p h = subst Inv (some_inj _ p h) (record {
  bounded = omega arith;
  quiet = λ k. refl;
  in_order = refl;
  owned = rw (in_flight-replicate w) Perm.nil;
  returned = λ k. let f = any-replicate is_exited w refl in cc;
})
new-Inv (pos w) (negsuc n) p h = cc
new-Inv (negsuc w) n p h = cc

pub send-Inv : (p : Pool) (e : Event) → Inv p → Inv (after_send p (send p e))
unfolding send
send-Inv p e v = by_closed p.closed refl
  where
    handed : List Worker → Pool
    handed ws = record p {
      workers = ws;
      accepted = p.accepted ++ e ∷ [];
      started = p.started ++ e ∷ [];
    }

    queued : Pool
    queued = record p { queue = p.queue ++ e ∷ []; accepted = p.accepted ++ e ∷ [] }

    attempt : Option (List Worker) → Bool → Sent
    attempt o room = elim o [
      | some ws ↦ sent (handed ws)
      | none ↦ if room then sent queued else full
    ]

    handed-Inv : (ws : List Worker) → Handed e p.workers ws → p.closed ≡ false → Inv (handed ws)
    handed-Inv ws h open_ = record {
      bounded = v.bounded;
      quiet = λ _. empty;
      in_order =
          ap (λ es. es ++ e ∷ []) (v.in_order ∙ ap (◌++◌ p.started) empty ∙ append-nil p.started)
          ∙ sym (ap (◌++◌ (p.started ++ e ∷ [])) empty ∙ append-nil (p.started ++ e ∷ []));
      owned = started-owned e p.started p.finished _ _ v.owned h.traded;
      returned = λ k. let c = (v.returned (sym h.returned ∙ k)).0 in cc;
    }
      where
        empty : p.queue ≡ []
        empty = v.quiet h.waited

    queued-Inv :
        hand e p.workers ≡ none → ltb (length p.queue) p.cap ≡ true → p.closed ≡ false → Inv queued
    queued-Inv h room open_ = record {
      bounded = ground (arith, length-append p.queue (e ∷ []));
      quiet = λ k. let n = hand-none e p.workers h in cc;
      in_order = ap (λ es. es ++ e ∷ []) v.in_order ∙ append_assoc p.started p.queue (e ∷ []);
      owned = v.owned;
      returned = λ k. let c = (v.returned k).0 in cc;
    }

    by_room :
        hand e p.workers ≡ none
        → p.closed ≡ false
        → (b : Bool) → ltb (length p.queue) p.cap ≡ b
        → Inv (after_send p (if b then sent queued else full))
    by_room h open_ true room = queued-Inv h room open_
    by_room h open_ false room = v

    by_hand :
        p.closed ≡ false
        → (o : Option (List Worker)) → hand e p.workers ≡ o
        → Inv (after_send p (attempt o (ltb (length p.queue) p.cap)))
    by_hand open_ (some ws) h = handed-Inv ws (hand-Handed e p.workers ws h) open_
    by_hand open_ none h = by_room h open_ _ refl

    by_closed :
        (b : Bool)
        → p.closed ≡ b
        → Inv (
            after_send p
              (if b then panics else attempt (hand e p.workers) (ltb (length p.queue) p.cap)))
    by_closed true k = v
    by_closed false k = by_hand k _ refl
