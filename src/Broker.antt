-- ===== src/Broker.antt =====
-- The Kafka client (franz-go) as the program uses it: synchronous production and flush.
use sluice_gate_telemetery_i.Base.{Bytes, List, Option, none, ◌≡◌}
use sluice_gate_telemetery_i.Event.{Error}

pub record Header : Type 0 where
  pub key : Bytes
  pub value : Bytes

-- kgo.Record, as far as a producer fills it in.
pub record Record : Type 0 where
  pub topic : Bytes
  pub key : Bytes
  pub value : Bytes
  pub headers : List Header

-- A record whose production is acknowledged without error is in the log, and stays there.
pub record Broker : Type 1 where
  pub State : Type 0
  pub produce_sync : Record → State → State × Option Error
  pub flush : State → State × Option Error
  pub Delivered : State → Record → Type 0
  pub produce_ok :
      (r : Record) (s : State) → (produce_sync r s).1 ≡ none → Delivered (produce_sync r s).0 r
  pub produce_keeps : (r q : Record) (s : State) → Delivered s q → Delivered (produce_sync r s).0 q
  pub flush_keeps : (q : Record) (s : State) → Delivered s q → Delivered (flush s).0 q
