-- ===== src/Examples/GatewayRuns.antt =====
-- Runs of the gateway's `Push` (internal/gateway/server.go).
use sluice_gate_telemetery_i.Base.{
  ◌+◌, ◌≤◌, codes, ◌≡◌, refl, List, [], ◌∷◌, Bool, true, false, none, some, length, arith,
}
use sluice_gate_telemetery_i.Event.{TelemetryEvent, message_of, event_of}
use sluice_gate_telemetery_i.Pool.{looping, writing, hand, send, submit, try_submit}
use sluice_gate_telemetery_i.Pool.Moves.{Move, works, receive, turn, work, step, run}
use sluice_gate_telemetery_i.Gateway.{
  Server, Response, Metrics, Turn, push, offer, offer_shed, offer_wait, no_response,
}
use sluice_gate_telemetery_i.Gateway.Counted.{MetricsCounted}
use sluice_gate_telemetery_i.Gateway.Push.{push-counts, push_accepts_every}
use sluice_gate_telemetery_i.Gateway.Shed.{Returns, push_shed-Returns}
use sluice_gate_telemetery_i.Examples.Systems.{event}

abbrev no_metrics : Metrics
no_metrics = record { ingest_total = 0; shed_total = 0; submit_blocks = 0; request_latencies = 0 }

-- One worker and a queue of one.
abbrev server : Bool → Server
server shed = record {
  pool = record {
    queue = [];
    cap = 1;
    workers = looping ∷ [];
    closed = false;
    accepted = [];
    started = [];
    finished = [];
    errors = [];
  };
  shed = shed;
  metrics = some no_metrics;
}

abbrev turn_of : List Move → Turn
turn_of ms = record { moves = ms; done = false; chooses_done = false }

abbrev messages : List TelemetryEvent
messages = message_of (event (codes "k1")) ∷ message_of (event (codes "k2")) ∷ []

-- Nothing moves: with shedding the second event is rejected.
abbrev still : List Turn
still = turn_of [] ∷ turn_of [] ∷ []

-- Without it the second event waits until the worker has taken the first.
abbrev moving : List Turn
moving = turn_of [] ∷ turn_of [] ∷ turn_of (works 0 none ∷ []) ∷ []

-- Where the two calls end.
abbrev shed_end : Server
shed_end = record (server true) {
  pool = record ((server true).pool) {
    queue = event (codes "k1") ∷ [];
    accepted = event (codes "k1") ∷ [];
  };
  metrics =
      some (record { ingest_total = 1; shed_total = 1; submit_blocks = 0; request_latencies = 1 });
}

abbrev one_of_two : Response
one_of_two = record { accepted = 1; rejected = 1 }

push-counts_example :
    (one_of_two.accepted + one_of_two.rejected ≡ length messages)
    × (0 + one_of_two.accepted ≤ length shed_end.pool.accepted)
    × MetricsCounted true (some no_metrics) shed_end.metrics no_response one_of_two
unfolding push offer offer_shed try_submit send hand run event_of message_of
push-counts_example =
    push-counts still messages (server true) shed_end one_of_two (omega arith) refl

abbrev wait_end : Server
wait_end = record (server false) {
  pool = record ((server false).pool) {
    queue = event (codes "k2") ∷ [];
    workers = writing (event (codes "k1")) ∷ [];
    accepted = event (codes "k1") ∷ event (codes "k2") ∷ [];
    started = event (codes "k1") ∷ [];
  };
  metrics =
      some (record { ingest_total = 2; shed_total = 0; submit_blocks = 2; request_latencies = 1 });
}

abbrev all_accepted : Response
all_accepted = record { accepted = 2; rejected = 0 }

push_accepts_every_example : (all_accepted.accepted ≡ length messages) × (all_accepted.rejected ≡ 0)
unfolding push offer offer_wait submit send hand run step work turn receive event_of message_of
push_accepts_every_example =
    push_accepts_every moving messages (server false) wait_end all_accepted refl
      (refl, (refl, (refl, tt))) (omega arith) refl

push_shed-Returns_example : Returns (push still messages (server true) no_response)
push_shed-Returns_example =
    push_shed-Returns still messages (server true) no_response (refl, refl) (tt, (tt, tt))
      (omega arith)
