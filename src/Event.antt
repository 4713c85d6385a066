-- ===== src/Event.antt =====
-- Telemetry events, their wire messages and the conversions between the two
-- (internal/sink/sink.go, gen/sluice/v1/telemetry.pb.go, internal/consumer/consumer.go).
use sluice_gate_telemetery_i.Base.{ℕ, Bytes, ℤ, ◌≡◌, refl, ◌⊎◌, inl, inr, arith, []}

-- What `err.Error()` prints.
abbrev pub Error : Type 0
Error = Bytes

pub data Result {ℓ} (A : Type ℓ) : Type ℓ where
  ok : A → Result A
  err : Error → Result A

pub Result-cases {ℓ} :
    {A : Type ℓ} (r : Result A) → ((a : A) × (r ≡ ok a)) ⊎ ((x : Error) × (r ≡ err x))
Result-cases (ok a) = inl (a, refl)
Result-cases (err x) = inr (x, refl)

-- `value` is the bit pattern of the float64, which the pipeline only copies.
pub record Event : Type 0 where
  pub device_id : Bytes
  pub idempotency_key : Bytes
  pub event_time_unix_nanos : ℤ
  pub metric : Bytes
  pub value : ℕ

pub record PoisonedEvent : Type 0 where
  pub event : Event
  pub cause : Error

-- sluicev1.TelemetryEvent; its getters read the fields.
pub record TelemetryEvent : Type 0 where
  pub device_id : Bytes
  pub idempotency_key : Bytes
  pub event_time_unix_nanos : ℤ
  pub metric : Bytes
  pub value : ℕ

-- google.golang.org/protobuf: what is marshalled without error is unmarshalled to itself.
pub record Proto : Type 0 where
  pub marshal : TelemetryEvent → Result Bytes
  pub unmarshal : Bytes → Result TelemetryEvent
  pub unmarshal-marshal : (m : TelemetryEvent) (b : Bytes) → marshal m ≡ ok b → unmarshal b ≡ ok m

unfoldable pub event_of : TelemetryEvent → Event
event_of m = record {
  device_id = m.device_id;
  idempotency_key = m.idempotency_key;
  event_time_unix_nanos = m.event_time_unix_nanos;
  metric = m.metric;
  value = m.value;
}

unfoldable pub message_of : Event → TelemetryEvent
message_of e = record {
  device_id = e.device_id;
  idempotency_key = e.idempotency_key;
  event_time_unix_nanos = e.event_time_unix_nanos;
  metric = e.metric;
  value = e.value;
}

unfoldable pub decode_record : Proto → Bytes → Result Event
unfolding event_of
decode_record p b = elim (p.unmarshal b) [ ok m ↦ ok (event_of m) | err x ↦ err x ]

unfoldable pub marshal_event : Proto → Event → Bytes
unfolding message_of
marshal_event p e = elim (p.marshal (message_of e)) [ ok raw ↦ raw | err x ↦ [] ]

-- A message that an event marshals to decodes to that event.
pub decode_record-marshal :
    (p : Proto) (e : Event) (b : Bytes) → p.marshal (message_of e) ≡ ok b → decode_record p b ≡ ok e
unfolding decode_record message_of
decode_record-marshal p e b h = ground (arith, p.unmarshal-marshal (message_of e) b h)
