-- ===== src/Dlq.antt =====
-- internal/dlq/dlq.go: the dead-letter producer.
use sluice_gate_telemetery_i.Base.{
  ℤ, Bytes, codes, ◌≡◌, refl, List, [], ◌∷◌, Option, none, beq, if◌then◌else◌,
}
use sluice_gate_telemetery_i.Event.{Error}
use sluice_gate_telemetery_i.Broker.{Broker, Record, Header}
use sluice_gate_telemetery_i.Strconv.{format_int, read_int, read_int-format_int}

-- A record to be dead-lettered: where it came from, and its bytes as they were.
pub record Letter : Type 0 where
  pub topic : Bytes
  pub partition : ℤ
  pub offset : ℤ
  pub key : Bytes
  pub value : Bytes

unfoldable pub letter_record : Bytes → Letter → Error → Record
letter_record dlq_topic l cause = record {
  topic = dlq_topic;
  key = l.key;
  value = l.value;
  headers =
      record { key = codes "error"; value = cause }
      ∷ record { key = codes "original-topic"; value = l.topic }
      ∷ record { key = codes "original-partition"; value = format_int l.partition }
      ∷ record { key = codes "original-offset"; value = format_int l.offset }
      ∷ [];
}

module _ (k : Broker) (dlq_topic : Bytes) where
  unfoldable pub send : Letter → Error → k.State → k.State × Option Error
  send l cause s = k.produce_sync (letter_record dlq_topic l cause) s

-- The letter that the headers of a record describe.
abbrev pub header_value : List Header → Bytes → Bytes
header_value [] name = []
header_value (h ∷ hs) name = if beq h.key name then h.value else header_value hs name

pub letter_of : Record → Letter
letter_of r = record {
  topic = header_value r.headers (codes "original-topic");
  partition = read_int (header_value r.headers (codes "original-partition"));
  offset = read_int (header_value r.headers (codes "original-offset"));
  key = r.key;
  value = r.value;
}

pub letter_of-record : (t : Bytes) (l : Letter) (x : Error) → letter_of (letter_record t l x) ≡ l
unfolding letter_of letter_record
letter_of-record t l x = λ i. record {
  topic = l.topic;
  partition = read_int-format_int l.partition i;
  offset = read_int-format_int l.offset i;
  key = l.key;
  value = l.value;
}

-- A send without error has put into the dead-letter topic a record that carries the cause, and from
-- which the original key, bytes, topic, partition and offset are read back, also at -1.
pub send-recovers :
    (k : Broker) (t : Bytes) (l : Letter) (x : Error) (s : k.State)
    → (send k t l x s).1 ≡ none
    → (r : Record) × k.Delivered (send k t l x s).0 r
      × (r.topic ≡ t)
      × (header_value r.headers (codes "error") ≡ x)
      × (letter_of r ≡ l)
unfolding send letter_record
send-recovers k t l x s h = (
  letter_record t l x,
  k.produce_ok (letter_record t l x) s h,
  refl,
  refl,
  letter_of-record t l x,
)
