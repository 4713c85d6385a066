-- ===== src/Sink/Timescale/Settles.antt =====
-- A Timescale sink (internal/sink/timescale.go) settles what it holds in its flush.
use sluice_gate_telemetery_i.Base.{ℕ, ◌∙◌, subst, ◌⊎◌, inl, inr, Option, some_inj, In}
use sluice_gate_telemetery_i.Event.{Event, Error}
use sluice_gate_telemetery_i.Sink.Timescale.{Database, World, flush, drain_poisoned, timescale_sink}
use sluice_gate_telemetery_i.Sink.Timescale.Flush.{IsStored, flush-accounts}
use sluice_gate_telemetery_i.Sink.Timescale.Durable.{
  Held, IsReady, flush-keeps, flush-limit, timescale_durable,
}
use sluice_gate_telemetery_i.Consumer.Rounds.Settled.{Settling}
use sluice_gate_telemetery_i.Consumer.Rounds.Steady.{Steady}

module _ (d : Database) (n : ℕ) where
  abbrev IsMarked : World d → Event → Error → Type 0
  IsMarked w e x = In (record { event = e; cause = x }) w.0.poisoned

  abbrev Flushes : World d → Event → (World d → World d × Option Error) → Type 0
  Flushes w e f = IsStored d e (f w).0.1 ⊎ ((x : Error) × IsMarked (f w).0 e x)

  flush-Flushes : (e : Event) (w : World d) → IsReady d n w → Held d w e → Flushes w e (flush d)
  flush-Flushes e (s, db) r (inl h) = flush-accounts d n s db e r h
  flush-Flushes e (s, db) r (inr a) = flush-keeps d s db e a

  pub timescale_settling : Settling (timescale_sink d) (timescale_durable d n)
  unfolding drain_poisoned
  timescale_settling = record {
    Stored = λ w e. IsStored d e w.1;
    Poisoned = IsMarked;
    flush_settles =
        λ f e w k r h _. subst (Flushes w e) (some_inj (flush d) f k) (flush-Flushes e w r h);
    unflushed_stored = λ e w k h. cc;
    drain_hands_over = λ g e x w k h.
        subst (λ g'. In (record { event = e; cause = x }) (g' w).1)
          (some_inj (drain_poisoned d) g k) h;
    reporter_there = λ e x w k. cc;
    drain_keeps =
        λ g e w k h. subst (λ g'. IsStored d e (g' w).0.1) (some_inj (drain_poisoned d) g k) h;
  }

  pub timescale_steady : Steady (timescale_sink d) (timescale_durable d n) timescale_settling
  unfolding drain_poisoned timescale_settling
  timescale_steady = record {
    stored_held = λ e w h. inr (inl h);
    flush_holds = λ f e w k r h.
        subst (λ g. Held d (g w).0 e) (some_inj (flush d) f k) (inr (flush-Flushes e w r h));
    flush_ready = λ f w k r.
        subst (λ g. IsReady d n (g w).0) (some_inj (flush d) f k) (flush-limit d w.0 w.1 ∙ r);
    drain_ready = λ g w k r. subst (λ g'. IsReady d n (g' w).0) (some_inj (drain_poisoned d) g k) r;
  }
