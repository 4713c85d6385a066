-- ===== src/Gateway/Counts.antt =====
-- What one turn of `Push` in internal/gateway/server.go does to its counts.
use sluice_gate_telemetery_i.Base.{
  ◌+◌, ◌<◌, ◌≡◌, refl, ap, [], ◌∷◌, ◌++◌, Bool, true, false, ◌&&◌, Option, none, some, length,
  length-append, arith, u64_mod, add_u64, add_u64_small, if◌then◌else◌,
}
use sluice_gate_telemetery_i.Event.{Event}
use sluice_gate_telemetery_i.Pool.{
  Pool, Sent, sent, full, panics, send, submit, try_submit, Submitted, submitted, refused, blocked,
  crashed,
}
use sluice_gate_telemetery_i.Pool.Moves.{run}
use sluice_gate_telemetery_i.Pool.Order.{Sending, goes, waits, fails, send-Sending}
use sluice_gate_telemetery_i.Gateway.Grows.{Grown, run_grows}
use sluice_gate_telemetery_i.Gateway.{
  Server, Response, Metrics, Turn, Offered, handled, waits, crashes, offer, offer_shed, offer_wait,
  accept, reject, on_metrics, if_present, inc_ingest, inc_shed, observe_submit,
}
use sluice_gate_telemetery_i.Gateway.Counted.{MetricsCounted, Counted, MetricsCounted-refl}

accept-Counted :
    (s s1 : Server) (r : Response) (e : Event)
    → r.accepted + 1 < u64_mod
    → s1.shed ≡ s.shed
    → s1.pool.accepted ≡ s.pool.accepted ++ e ∷ []
    → MetricsCounted s.shed s.metrics s1.metrics r r
    → Counted 1 s (on_metrics inc_ingest s1) r (record r { accepted = add_u64 r.accepted 1 })
accept-Counted s s1 r e h j k g = record {
  same_shed = j;
  total = omega (arith, add_u64_small r.accepted 1 h);
  measured = by_metrics s.metrics s1.metrics g;
  kept =
      omega
        (arith, add_u64_small r.accepted 1 h, ap length k, length-append s.pool.accepted (e ∷ []));
}
  where
    by_metrics :
        (o o1 : Option Metrics)
        → MetricsCounted s.shed o o1 r r
        → MetricsCounted s.shed o
            (if_present inc_ingest o1)
            r
            (record r { accepted = add_u64 r.accepted 1 })
    by_metrics none none g = tt
    by_metrics (some m) (some m1) g = (omega (arith, g.0, add_u64_small r.accepted 1 h), g.1)
    by_metrics none (some m) g = absurd g
    by_metrics (some m) none g = absurd g

reject-Counted :
    (s : Server) (r : Response) (f : Metrics → Metrics)
    → r.rejected + 1 < u64_mod
    → MetricsCounted s.shed s.metrics
        (if_present f s.metrics)
        r
        (record r { rejected = add_u64 r.rejected 1 })
    → Counted 1 s (on_metrics f s) r (record r { rejected = add_u64 r.rejected 1 })
reject-Counted s r f h g = record {
  same_shed = refl;
  total = omega (arith, add_u64_small r.rejected 1 h);
  measured = g;
  kept = omega arith;
}

abbrev pub Fits : Server → Response → Offered → Type 0
Fits s r (handled s' r') = Counted 1 s s' r r'
Fits s r (waits s') = Counted 0 s s' r r
Fits s r crashes = Unit

pub Counted-refl : (s : Server) (r : Response) → Counted 0 s s r r
Counted-refl s r = record {
  same_shed = refl;
  total = omega arith;
  measured = MetricsCounted-refl s.shed s.metrics r;
  kept = omega arith;
}

-- A histogram is no counter.
observed-Counted :
    (b : Bool) (o : Option Metrics) (r : Response)
    → MetricsCounted b o (if_present observe_submit o) r r
observed-Counted b none r = tt
observed-Counted b (some m) r = (refl, refl)

shed-Counted :
    (b : Bool) (o : Option Metrics) (r : Response)
    → r.rejected + 1 < u64_mod
    → b ≡ true
    → MetricsCounted b o (if_present inc_shed o) r (record r { rejected = add_u64 r.rejected 1 })
shed-Counted true none r h k = tt
shed-Counted true (some m) r h k = (refl, omega (arith, add_u64_small r.rejected 1 h))
shed-Counted false o r h k = cc

reject_wait-Counted :
    (b : Bool) (o : Option Metrics) (r : Response)
    → b ≡ false
    → MetricsCounted b o
        (if_present observe_submit o)
        r
        (record r { rejected = add_u64 r.rejected 1 })
reject_wait-Counted false none r k = tt
reject_wait-Counted false (some m) r k = (refl, refl)
reject_wait-Counted true o r k = cc

abbrev pub Small : Response → Type 0
Small r = r.accepted + r.rejected + 1 < u64_mod

offer_shed-Fits :
    (s : Server) (r : Response) (e : Event) → Small r → s.shed ≡ true → Fits s r (offer_shed s r e)
unfolding offer_shed try_submit
offer_shed-Fits s r e h b = by_sending (send s.pool e) (send-Sending s.pool e)
  where
    by_sending :
        (x : Sent)
        → Sending s.pool e x
        → Fits s r
            (elim (elim x as (λ y. Option (Pool × Bool)) [
              | sent q ↦ some (q, true)
              | full ↦ some (s.pool, false)
              | panics ↦ none
            ]) [
              | none ↦ crashes
              | some (p, true) ↦ accept (record s { pool = p }) r
              | some (p, false) ↦ reject (on_metrics inc_shed (record s { pool = p })) r
            ])
    by_sending x (goes q k a o) = rw k (
        accept-Counted s (record s { pool = q }) r e (omega (arith, h)) refl a
          (MetricsCounted-refl s.shed s.metrics r))
    by_sending x (waits k n w) = rw k (
        reject-Counted s r inc_shed (omega (arith, h))
          (shed-Counted s.shed s.metrics r (omega (arith, h)) b))
    by_sending x (fails k c) = rw k tt

offer_wait-Fits :
    (done choice : Bool) (s : Server) (r : Response) (e : Event)
    → Small r
    → s.shed ≡ false
    → Fits s r (offer_wait done choice s r e)
unfolding offer_wait submit
offer_wait-Fits done choice s r e h b =
    by_sending done choice (send s.pool e) (send-Sending s.pool e)
  where
    refusal :
        Counted 1 s (on_metrics observe_submit s) r (record r { rejected = add_u64 r.rejected 1 })
    refusal =
        reject-Counted s r observe_submit (omega (arith, h))
          (reject_wait-Counted s.shed s.metrics r b)

    taken :
        (q : Pool)
        → q.accepted ≡ s.pool.accepted ++ e ∷ []
        → Fits s r (accept (on_metrics observe_submit (record s { pool = q })) r)
    taken q a =
        accept-Counted s (on_metrics observe_submit (record s { pool = q })) r e (omega (arith, h))
          refl a (observed-Counted s.shed s.metrics r)

    by_sending :
        (done choice : Bool) (x : Sent)
        → Sending s.pool e x
        → Fits s r
            (elim (elim x as (λ y. Submitted) [
              | sent q ↦ if done && choice then refused else submitted q
              | full ↦ if done then refused else blocked
              | panics ↦ if done && choice then refused else crashed
            ]) [
              | submitted p ↦ accept (on_metrics observe_submit (record s { pool = p })) r
              | refused ↦ reject (on_metrics observe_submit s) r
              | blocked ↦ waits s
              | crashed ↦ crashes
            ])
    by_sending true true x (goes q k a o) = rw k refusal
    by_sending true false x (goes q k a o) = rw k (taken q a)
    by_sending false choice x (goes q k a o) = rw k (taken q a)
    by_sending true choice x (waits k n w) = rw k refusal
    by_sending false choice x (waits k n w) = rw k (Counted-refl s r)
    by_sending true true x (fails k c) = rw k refusal
    by_sending true false x (fails k c) = rw k tt
    by_sending false choice x (fails k c) = rw k tt

Fits-after :
    (s : Server) (p : Pool) (r : Response) (o : Offered)
    → Grown s.pool p
    → Fits (record s { pool = p }) r o
    → Fits s r o
Fits-after s p r (handled s' r') g h = record {
  same_shed = h.same_shed;
  total = h.total;
  measured = h.measured;
  kept = omega (arith, g, h.kept);
}
Fits-after s p r (waits s') g h = record {
  same_shed = h.same_shed;
  total = h.total;
  measured = h.measured;
  kept = omega (arith, g, h.kept);
}
Fits-after s p r crashes g h = tt

pub offer-Fits :
    (t : Turn) (s : Server) (r : Response) (e : Event) → Small r → Fits s r (offer t s r e)
unfolding offer
offer-Fits t s r e h =
    Fits-after s (run s.pool t.moves) r (offer t s r e) (run_grows s.pool t.moves)
      (by_mode s.shed refl)
  where
    s1 : Server
    s1 = record s { pool = run s.pool t.moves }

    by_mode :
        (b : Bool)
        → s.shed ≡ b
        → Fits s1 r (if b then offer_shed s1 r e else offer_wait t.done t.chooses_done s1 r e)
    by_mode true k = offer_shed-Fits s1 r e h k
    by_mode false k = offer_wait-Fits t.done t.chooses_done s1 r e h k
