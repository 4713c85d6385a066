-- ===== src/Examples/Systems.antt =====
-- Small systems in the place of the ones that the program talks to, and a few events.
use sluice_gate_telemetery_i.Base.{
  ℕ, zero, suc, ℤ, pos, negsuc, Bytes, codes, beq, beq_eq, ◌⊎◌, inr, ◌≡◌, refl, sym, ap, subst, inl,
  List, [], ◌∷◌, ◌++◌, map, Bool, true, false, not, ◌||◌, Option, none, some, length, In,
  In-append_left, In-append_right, arith,
}
use sluice_gate_telemetery_i.Event.{Event, TelemetryEvent, Error, Result, ok, err, Proto}
use sluice_gate_telemetery_i.Broker.{Broker, Record}
use sluice_gate_telemetery_i.Dedup.{Redis, sets, claimed}
use sluice_gate_telemetery_i.Sink.Timescale.{Database, Row}
use sluice_gate_telemetery_i.Report.Markers.{take, drop, drop-append}

abbrev pub sign_of : ℤ → ℕ
sign_of (pos n) = 0
sign_of (negsuc n) = 1

abbrev pub size_of : ℤ → ℕ
size_of (pos n) = n
size_of (negsuc n) = n

abbrev pub int_of : ℕ → ℕ → ℤ
int_of zero n = pos n
int_of (suc s) n = negsuc n

pub int_of-parts : (z : ℤ) → int_of (sign_of z) (size_of z) ≡ z
int_of-parts (pos n) = refl
int_of-parts (negsuc n) = refl

-- Three lengths, the time, the value, and the three strings.
unfoldable pub encode : TelemetryEvent → Bytes
encode m =
    length m.device_id
    ∷ length m.idempotency_key
    ∷ sign_of m.event_time_unix_nanos
    ∷ size_of m.event_time_unix_nanos
    ∷ m.value
    ∷ (m.device_id ++ (m.idempotency_key ++ m.metric))

abbrev pub decoded : ℕ → ℕ → ℕ → ℕ → ℕ → Bytes → TelemetryEvent
decoded a b s n v t = record {
  device_id = take t a;
  idempotency_key = take (drop t a) b;
  event_time_unix_nanos = int_of s n;
  metric = drop (drop t a) b;
  value = v;
}

unfoldable pub decode : Bytes → Result TelemetryEvent
decode (a ∷ b ∷ s ∷ n ∷ v ∷ t) = ok (decoded a b s n v t)
decode [] = err (codes "short")
decode (a ∷ []) = err (codes "short")
decode (a ∷ b ∷ []) = err (codes "short")
decode (a ∷ b ∷ s ∷ []) = err (codes "short")
decode (a ∷ b ∷ s ∷ n ∷ []) = err (codes "short")

pub take-append : (xs ys : Bytes) → take (xs ++ ys) (length xs) ≡ xs
take-append [] ys = refl
take-append (x ∷ xs) ys = ap (x ∷◌) (take-append xs ys)

pub decode-encode : (m : TelemetryEvent) → decode (encode m) ≡ ok m
unfolding decode encode
decode-encode m = ap ok (λ i. record {
  device_id = take-append m.device_id rest i;
  idempotency_key = key i;
  event_time_unix_nanos = int_of-parts m.event_time_unix_nanos i;
  metric = metric i;
  value = m.value;
})
  where
    rest : Bytes
    rest = m.idempotency_key ++ m.metric

    key :
        take (drop (m.device_id ++ rest) (length m.device_id)) (length m.idempotency_key)
        ≡ m.idempotency_key
    key = rw (drop-append m.device_id rest) (take-append m.idempotency_key m.metric)

    metric :
        drop (drop (m.device_id ++ rest) (length m.device_id)) (length m.idempotency_key) ≡ m.metric
    metric = rw (drop-append m.device_id rest) (drop-append m.idempotency_key m.metric)

pub ok_inj : {A : Type 0} (a b : A) → ok a ≡ ok b → a ≡ b
ok_inj a b h = cc

abbrev pub proto : Proto
proto = record {
  marshal = λ m. ok (encode m);
  unmarshal = decode;
  unmarshal-marshal =
      λ m b h. subst (λ c. decode c ≡ ok m) (ok_inj (encode m) b h) (decode-encode m);
}

-- A log that takes every record.
abbrev pub broker : Broker
broker = record {
  State = List Record;
  produce_sync = λ r s. (s ++ r ∷ [], none);
  flush = λ s. (s, none);
  Delivered = λ s r. In r s;
  produce_ok = λ r s h. In-append_right r s (r ∷ []) (inl refl);
  produce_keeps = λ r q s h. In-append_left q s (r ∷ []) h;
  flush_keeps = λ q s h. h;
}

abbrev pub holds : List Bytes → Bytes → Bool
holds [] j = false
holds (k ∷ ks) j = holds ks j || beq j k

abbrev pub set_all : List Bytes → List Bytes → List Bytes
set_all [] s = s
set_all (k ∷ ks) s = set_all ks (k ∷ s)

pub set_all-claimed :
    (ks s : List Bytes) (j : Bytes) → holds (set_all ks s) j ≡ claimed (holds s) ks j
set_all-claimed [] s j = refl
set_all-claimed (k ∷ ks) s j = set_all-claimed ks (k ∷ s) j

pub set_all-keeps :
    (ks s : List Bytes) (j : Bytes) → holds s j ≡ true → holds (set_all ks s) j ≡ true
set_all-keeps [] s j h = h
set_all-keeps (k ∷ ks) s j h = set_all-keeps ks (k ∷ s) j (ground arith)

pub set_all-only :
    (ks s : List Bytes) (j : Bytes) → holds (set_all ks s) j ≡ true → (holds s j ≡ true) ⊎ In j ks
set_all-only [] s j h = inl h
set_all-only (k ∷ ks) s j h = elim (set_all-only ks (k ∷ s) j h) [
  | inr i ↦ inr (inr i)
  | inl a ↦ by_key (holds s j) (beq j k) refl refl a
]
  where
    by_key :
        (b c : Bool)
        → holds s j ≡ b
        → beq j k ≡ c
        → (b || c) ≡ true
        → (holds s j ≡ true) ⊎ In j (k ∷ ks)
    by_key true c e f g = inl e
    by_key false true e f g = inr (inl (beq_eq j k f))
    by_key false false e f g = cc

-- A Redis that answers every call.
abbrev pub redis : Redis
redis = record {
  State = List Bytes;
  has = holds;
  set_nx = λ k s. (k ∷ s, ok (not (holds s k)));
  exec = λ ks s. (set_all ks s, ok (map ok (sets (holds s) ks)));
  set_nx_ok = λ k s b h. (sym (ok_inj (not (holds s k)) b h), λ j. refl);
  exec_ok =
      λ ks s rs h. (sym (ok_inj (map ok (sets (holds s) ks)) rs h), λ j. set_all-claimed ks s j);
  exec_keeps = λ ks s j h. set_all-keeps ks s j h;
  exec_only = λ ks s j h. set_all-only ks s j h;
}

-- A table, and the results of the coming calls; when there are none left the calls succeed.
pub record Table : Type 0 where
  pub rows : List Row
  pub script : List (Option Error)

abbrev pub next : List (Option Error) → Option Error
next [] = none
next (x ∷ xs) = x

abbrev pub later : List (Option Error) → List (Option Error)
later [] = []
later (x ∷ xs) = xs

abbrev pub rows_if : Option Error → List Row → List Row
rows_if none rs = rs
rows_if (some x) rs = []

abbrev pub call : List Row → Table → Table × Option Error
call rs t =
    (record { rows = t.rows ++ rows_if (next t.script) rs; script = later t.script }, next t.script)

pub call_ok :
    (rs : List Row) (t : Table) (r : Row) → (call rs t).1 ≡ none → In r rs → In r (call rs t).0.rows
call_ok rs t r h i =
    In-append_right r t.rows (rows_if (next t.script) rs)
      (subst (λ o. In r (rows_if o rs)) (sym h) i)

abbrev pub database : Database
database = record {
  State = Table;
  copy_from = call;
  exec_insert = λ r t. call (r ∷ []) t;
  Stored = λ t r. In r t.rows;
  copy_ok = call_ok;
  copy_keeps = λ rs t r h. In-append_left r t.rows (rows_if (next t.script) rs) h;
  insert_ok = λ r t h. call_ok (r ∷ []) t r h (inl refl);
  insert_keeps = λ q r t h. In-append_left r t.rows (rows_if (next t.script) (q ∷ [])) h;
}

abbrev pub event : Bytes → Event
event key = record {
  device_id = codes "device-7";
  idempotency_key = key;
  event_time_unix_nanos = pos 1700000000000000000;
  metric = codes "cpu.util";
  value = 4621819117588971520;
}
