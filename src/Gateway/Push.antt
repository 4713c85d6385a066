-- ===== src/Gateway/Push.antt =====
-- What a caller of `Push` (internal/gateway/server.go) can rely on.
use sluice_gate_telemetery_i.Base.{
  ℕ, suc, ◌+◌, ◌≤◌, ◌<◌, ◌≡◌, refl, subst, List, [], ◌∷◌, Bool, true, false, Option, none, some,
  length, arith, u64_mod, if◌then◌else◌, All,
}
use sluice_gate_telemetery_i.Event.{Event, TelemetryEvent, event_of}
use sluice_gate_telemetery_i.Pool.{
  Pool, Sent, sent, full, panics, send, submit, Submitted, submitted, refused, blocked, crashed,
}
use sluice_gate_telemetery_i.Pool.Moves.{run}
use sluice_gate_telemetery_i.Pool.Order.{Sending, goes, waits, fails, send-Sending}
use sluice_gate_telemetery_i.Gateway.Counted.{Counted, MetricsCounted, Counted-trans}
use sluice_gate_telemetery_i.Gateway.Counts.{Fits, offer-Fits}
use sluice_gate_telemetery_i.Gateway.{
  Server, Response, Metrics, Turn, Offered, handled, waits, crashes, offer, offer_shed, offer_wait,
  Pushed, returned, waiting, failed, push, no_response, accept, reject, on_metrics, if_present,
  observe_submit, observe_latency,
}

-- Where a call has returned, its events are counted.
abbrev Answers : ℕ → Server → Response → Pushed → Type 0
Answers n s r (returned s' r') = Counted n s s' r r'
Answers n s r (waiting s' r' ms) = Unit
Answers n s r failed = Unit

Answers-after :
    (n : ℕ) (s s' : Server) (r r' : Response) (o : Pushed)
    → Counted 1 s s' r r'
    → Answers n s' r' o
    → Answers (suc n) s r o
Answers-after n s s' r r' (returned s'' r'') h k =
    subst (λ m. Counted m s s'' r r'') (omega arith) (Counted-trans 1 n s s' s'' r r' r'' h k)
Answers-after n s s' r r' (waiting s'' r'' ms) h k = tt
Answers-after n s s' r r' failed h k = tt

Answers-wait :
    (n : ℕ) (s s' : Server) (r : Response) (o : Pushed)
    → Counted 0 s s' r r
    → Answers n s' r o
    → Answers n s r o
Answers-wait n s s' r (returned s'' r'') h k =
    subst (λ m. Counted m s s'' r r'') (omega arith) (Counted-trans 0 n s s' s'' r r r'' h k)
Answers-wait n s s' r (waiting s'' r'' ms) h k = tt
Answers-wait n s s' r failed h k = tt

observe-Counted : (s : Server) (r : Response) → Counted 0 s (on_metrics observe_latency s) r r
observe-Counted s r = record {
  same_shed = refl;
  total = omega arith;
  measured = by_metrics s.metrics;
  kept = omega arith;
}
  where
    by_metrics : (o : Option Metrics) → MetricsCounted s.shed o (if_present observe_latency o) r r
    by_metrics none = tt
    by_metrics (some m) = (refl, refl)

push-Answers :
    (ts : List Turn) (ms : List TelemetryEvent) (s : Server) (r : Response)
    → r.accepted + r.rejected + length ms < u64_mod
    → Answers (length ms) s r (push ts ms s r)
unfolding push
push-Answers ts [] s r h = observe-Counted s r
push-Answers [] (m ∷ ms) s r h = tt
push-Answers (t ∷ ts) (m ∷ ms) s r h =
    by_offer (push-Answers ts) (offer t s r (event_of m))
      (offer-Fits t s r (event_of m) (omega (arith, h)))
  where
    by_offer :
        ((ns : List TelemetryEvent) (s' : Server) (r' : Response)
          → r'.accepted + r'.rejected + length ns < u64_mod
          → Answers (length ns) s' r' (push ts ns s' r'))
        → (o : Offered) → Fits s r o
        → Answers (length (m ∷ ms)) s r (elim o [
          | handled s' r' ↦ push ts ms s' r'
          | waits s' ↦ push ts (m ∷ ms) s' r
          | crashes ↦ failed
        ])
    by_offer rest (handled s' r') f =
        Answers-after (length ms) s s' r r' (push ts ms s' r') f
          (rest ms s' r' (omega (arith, h, f.total)))
    by_offer rest (waits s') f =
        Answers-wait (length (m ∷ ms)) s s' r (push ts (m ∷ ms) s' r) f (rest (m ∷ ms) s' r h)
    by_offer rest crashes f = tt

-- When a `Push` of fewer than 2^64 events returns, it has answered for each of them: accepted and
-- rejected add up to their number, the pool has accepted at least as many events as the answer says,
-- and where there are metrics, `IngestTotal` has grown by the accepted ones and `ShedTotal` by the
-- rejected ones if the server sheds, and not at all otherwise.
pub push-counts :
    (ts : List Turn) (ms : List TelemetryEvent) (s s' : Server) (r : Response)
    → length ms < u64_mod
    → push ts ms s no_response ≡ returned s' r
    → (r.accepted + r.rejected ≡ length ms)
      × (length s.pool.accepted + r.accepted ≤ length s'.pool.accepted)
      × MetricsCounted s.shed s.metrics s'.metrics no_response r
push-counts ts ms s s' r h k =
    let c =
      subst (Answers (length ms) s no_response) k
        (push-Answers ts ms s no_response (omega (arith, h))) in
    (omega (arith, c.total), omega (arith, c.kept), c.measured)

-- A turn of a server that does not shed, while the call's context is not done.
abbrev Unrejected : Server → Response → Offered → Type 0
Unrejected s r (handled s' r') = (r'.rejected ≡ r.rejected) × (s'.shed ≡ false)
Unrejected s r (waits s') = s'.shed ≡ false
Unrejected s r crashes = Unit

offer_wait-Unrejected :
    (choice : Bool) (s : Server) (r : Response) (e : Event)
    → s.shed ≡ false
    → Unrejected s r (offer_wait false choice s r e)
unfolding offer_wait submit
offer_wait-Unrejected choice s r e b = by_sending (send s.pool e) (send-Sending s.pool e)
  where
    by_sending :
        (x : Sent)
        → Sending s.pool e x
        → Unrejected s r
            (elim (elim x as (λ y. Submitted) [
              | sent q ↦ submitted q
              | full ↦ blocked
              | panics ↦ crashed
            ]) [
              | submitted p ↦ accept (on_metrics observe_submit (record s { pool = p })) r
              | refused ↦ reject (on_metrics observe_submit s) r
              | blocked ↦ waits s
              | crashed ↦ crashes
            ])
    by_sending x (goes q k a o) = rw k (refl, b)
    by_sending x (waits k n w) = rw k b
    by_sending x (fails k c) = rw k tt

-- Moving the pool first changes neither side.
Unrejected-moved :
    (s : Server) (p : Pool) (r : Response) (o : Offered)
    → Unrejected (record s { pool = p }) r o
    → Unrejected s r o
Unrejected-moved s p r (handled s' r') h = h
Unrejected-moved s p r (waits s') h = h
Unrejected-moved s p r crashes h = tt

offer-Unrejected :
    (t : Turn) (s : Server) (r : Response) (e : Event)
    → t.done ≡ false
    → s.shed ≡ false
    → Unrejected s r (offer t s r e)
unfolding offer
offer-Unrejected t s r e d b =
    Unrejected-moved s (run s.pool t.moves) r (offer t s r e) (by_mode s.shed t.done b d)
  where
    s1 : Server
    s1 = record s { pool = run s.pool t.moves }

    by_mode :
        (b' d' : Bool)
        → b' ≡ false
        → d' ≡ false
        → Unrejected s1 r (if b' then offer_shed s1 r e else offer_wait d' t.chooses_done s1 r e)
    by_mode true d' k l = cc
    by_mode false true k l = cc
    by_mode false false k l = offer_wait-Unrejected t.chooses_done s1 r e b

abbrev Rejects : ℕ → Pushed → Type 0
Rejects n (returned s r) = r.rejected ≡ n
Rejects n (waiting s r ms) = Unit
Rejects n failed = Unit

push-Rejects :
    (ts : List Turn) (ms : List TelemetryEvent) (s : Server) (r : Response)
    → All (λ t. t.done ≡ false) ts
    → s.shed ≡ false
    → Rejects r.rejected (push ts ms s r)
unfolding push
push-Rejects ts [] s r d b = refl
push-Rejects [] (m ∷ ms) s r d b = tt
push-Rejects (t ∷ ts) (m ∷ ms) s r d b =
    by_offer (λ ns s' r'. push-Rejects ts ns s' r' d.1) (offer t s r (event_of m))
      (offer-Unrejected t s r (event_of m) d.0 b)
  where
    by_offer :
        ((ns : List TelemetryEvent) (s' : Server) (r' : Response)
          → s'.shed ≡ false
          → Rejects r'.rejected (push ts ns s' r'))
        → (o : Offered) → Unrejected s r o
        → Rejects r.rejected (elim o [
          | handled s' r' ↦ push ts ms s' r'
          | waits s' ↦ push ts (m ∷ ms) s' r
          | crashes ↦ failed
        ])
    by_offer rest (handled s' r') f =
        subst (λ n. Rejects n (push ts ms s' r')) f.0 (rest ms s' r' f.1)
    by_offer rest (waits s') f = rest (m ∷ ms) s' r f
    by_offer rest crashes f = tt

-- A server that does not shed never drops an event of its own accord: if the call's context is never
-- done, a `Push` of fewer than 2^64 events that returns has accepted them all.
pub push_accepts_every :
    (ts : List Turn) (ms : List TelemetryEvent) (s s' : Server) (r : Response)
    → s.shed ≡ false
    → All (λ t. t.done ≡ false) ts
    → length ms < u64_mod
    → push ts ms s no_response ≡ returned s' r
    → (r.accepted ≡ length ms) × (r.rejected ≡ 0)
push_accepts_every ts ms s s' r b d h k =
    let none_rejected : r.rejected ≡ 0 =
      subst (Rejects 0) k (push-Rejects ts ms s no_response d b) in
    (omega (arith, none_rejected, (push-counts ts ms s s' r h k).0), none_rejected)
