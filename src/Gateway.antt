-- ===== src/Gateway.antt =====
-- internal/gateway/server.go: the handler of the `Push` call in front of the pool.
pub mod Grows
pub mod Counted
pub mod Counts
pub mod Push
pub mod Shed
use sluice_gate_telemetery_i.Base.{
  ℕ, ◌+◌, List, [], ◌∷◌, Bool, true, false, Option, none, some, add_u64, if◌then◌else◌,
}
use sluice_gate_telemetery_i.Event.{Event, TelemetryEvent, event_of}
use sluice_gate_telemetery_i.Pool.{Pool, submitted, refused, blocked, crashed, submit, try_submit}
use sluice_gate_telemetery_i.Pool.Moves.{Move, run}

-- `IngestResponse`.
pub record Response : Type 0 where
  pub accepted : ℕ
  pub rejected : ℕ

-- `metrics.Gateway`: the two counters, and how often each histogram was given a time.
pub record Metrics : Type 0 where
  pub ingest_total : ℕ
  pub shed_total : ℕ
  pub submit_blocks : ℕ
  pub request_latencies : ℕ

-- The server with its pool; without metrics `metrics` is `none`.
pub record Server : Type 0 where
  pub pool : Pool
  pub shed : Bool
  pub metrics : Option Metrics

abbrev pub if_present : (Metrics → Metrics) → Option Metrics → Option Metrics
if_present f none = none
if_present f (some m) = some (f m)

-- `if s.Metrics != nil`.
abbrev pub on_metrics : (Metrics → Metrics) → Server → Server
on_metrics f s = record s { metrics = if_present f s.metrics }

abbrev pub inc_ingest : Metrics → Metrics
inc_ingest m = record m { ingest_total = m.ingest_total + 1 }

abbrev pub inc_shed : Metrics → Metrics
inc_shed m = record m { shed_total = m.shed_total + 1 }

abbrev pub observe_submit : Metrics → Metrics
observe_submit m = record m { submit_blocks = m.submit_blocks + 1 }

abbrev pub observe_latency : Metrics → Metrics
observe_latency m = record m { request_latencies = m.request_latencies + 1 }

-- What happens around one event: the moves of the workers and of other calls until the pool is
-- reached, whether the call's context is done then, and which case `select` takes if both are ready.
pub record Turn : Type 0 where
  pub moves : List Move
  pub done : Bool
  pub chooses_done : Bool

-- How one event fares.
pub data Offered : Type 0 where
  handled : Server → Response → Offered
  waits : Server → Offered
  crashes : Offered

-- `resp.Accepted++` and `IngestTotal.Inc()`.
abbrev pub accept : Server → Response → Offered
accept s r = handled (on_metrics inc_ingest s) (record r { accepted = add_u64 r.accepted 1 })

-- `resp.Rejected++`.
abbrev pub reject : Server → Response → Offered
reject s r = handled s (record r { rejected = add_u64 r.rejected 1 })

-- The body of the loop with `Shed`.
unfoldable pub offer_shed : Server → Response → Event → Offered
unfolding try_submit
offer_shed s r e = elim (try_submit s.pool e) [
  | none ↦ crashes
  | some (p, true) ↦ accept (record s { pool = p }) r
  | some (p, false) ↦ reject (on_metrics inc_shed (record s { pool = p })) r
]

-- The body of the loop without `Shed`.
unfoldable pub offer_wait : Bool → Bool → Server → Response → Event → Offered
unfolding submit
offer_wait done chooses_done s r e = elim (submit done chooses_done s.pool e) [
  | submitted p ↦ accept (on_metrics observe_submit (record s { pool = p })) r
  | refused ↦ reject (on_metrics observe_submit s) r
  | blocked ↦ waits s
  | crashed ↦ crashes
]

-- One turn of the loop: the pool moves, then the event is tried.
unfoldable pub offer : Turn → Server → Response → Event → Offered
unfolding offer_shed offer_wait run
offer t s r e =
    if s.shed
    then offer_shed (record s { pool = run s.pool t.moves }) r e
    else offer_wait t.done t.chooses_done (record s { pool = run s.pool t.moves }) r e

pub data Pushed : Type 0 where
  returned : Server → Response → Pushed
  waiting : Server → Response → List TelemetryEvent → Pushed
  failed : Pushed

-- `Push` on the events of a request. An event that waits is tried again in the next turn; when the
-- turns are used up, the call is still waiting.
unfoldable pub push : List Turn → List TelemetryEvent → Server → Response → Pushed
unfolding offer event_of
push ts [] s r = returned (on_metrics observe_latency s) r
push [] (m ∷ ms) s r = waiting s r (m ∷ ms)
push (t ∷ ts) (m ∷ ms) s r = elim (offer t s r (event_of m)) [
  | handled s' r' ↦ push ts ms s' r'
  | waits s' ↦ push ts (m ∷ ms) s' r
  | crashes ↦ failed
]

-- `resp := &sluicev1.IngestResponse{}`.
abbrev pub no_response : Response
no_response = record { accepted = 0; rejected = 0 }
