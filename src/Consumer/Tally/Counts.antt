-- ===== src/Consumer/Tally/Counts.antt =====
-- What one count of internal/consumer/consumer.go moves.
use sluice_gate_telemetery_i.Base.{
  ℕ, suc, ◌+◌, ◌%◌, ◌≡◌, refl, List, [], ◌∷◌, Bool, true, false, u64_mod, arith,
}
use sluice_gate_telemetery_i.Consumer.{
  Env, Consumer, Line, Metrics, unmarshal_error, dedup_error, sink_write_error, no_dlq, dlq_failed,
  persist_failed, fetch_error, flush_error, commit_error, inc_if, say, count_consumed,
  count_deduped, count_dlq,
}

-- The lines that report a record given up for want of a dead-letter topic that takes it.
abbrev pub drops : List Line → ℕ
drops [] = 0
drops (no_dlq x ∷ ls) = suc (drops ls)
drops (dlq_failed x ∷ ls) = suc (drops ls)
drops (unmarshal_error x ∷ ls) = drops ls
drops (dedup_error x ∷ ls) = drops ls
drops (sink_write_error x ∷ ls) = drops ls
drops (persist_failed n x ∷ ls) = drops ls
drops (fetch_error x ∷ ls) = drops ls
drops (flush_error x ∷ ls) = drops ls
drops (commit_error x ∷ ls) = drops ls

pub record Tally : Type 0 where
  pub consumed : ℕ
  pub deduped : ℕ
  pub dead : ℕ
  pub dropped : ℕ

abbrev pub total : Tally → ℕ
total t = t.consumed + t.deduped + t.dead + t.dropped

abbrev pub add : Tally → Tally → Tally
add t u = record {
  consumed = t.consumed + u.consumed;
  deduped = t.deduped + u.deduped;
  dead = t.dead + u.dead;
  dropped = t.dropped + u.dropped;
}

-- What of a consumer counts.
pub record Book : Type 0 where
  pub consumed : ℕ
  pub deduped : ℕ
  pub dlq_sent : ℕ
  pub dropped : ℕ
  pub metrics : Metrics

module _ (v : Env) where
  abbrev pub book : Consumer v → Book
  book c = record {
    consumed = c.consumed;
    deduped = c.deduped;
    dlq_sent = c.dlq_sent;
    dropped = drops c.log;
    metrics = c.metrics;
  }

  -- From c to c' the counters, the collectors (where there are any) and the lines about given-up
  -- records have moved by t. The counters are uint64.
  pub record Moves (t : Tally) (c c' : Book) : Type 0 where
    pub consumed : c'.consumed % u64_mod ≡ (c.consumed + t.consumed) % u64_mod
    pub deduped : c'.deduped % u64_mod ≡ (c.deduped + t.deduped) % u64_mod
    pub dead : c'.dlq_sent % u64_mod ≡ (c.dlq_sent + t.dead) % u64_mod
    pub dropped : c'.dropped ≡ c.dropped + t.dropped
    pub consumed_total :
        v.metrics ≡ true → c'.metrics.consumed_total ≡ c.metrics.consumed_total + t.consumed
    pub dedup_dropped_total :
        v.metrics ≡ true
        → c'.metrics.dedup_dropped_total ≡ c.metrics.dedup_dropped_total + t.deduped
    pub dlq_total : v.metrics ≡ true → c'.metrics.dlq_total ≡ c.metrics.dlq_total + t.dead

  -- Some tally of the given total.
  abbrev pub Tallied : ℕ → Consumer v → Consumer v → Type 0
  Tallied n c c' = (t : Tally) × Moves t (book c) (book c') × (total t ≡ n)

  pub Moves-trans :
      (t u : Tally) (c c' c'' : Book) → Moves t c c' → Moves u c' c'' → Moves (add t u) c c''
  Moves-trans t u c c' c'' m k = record {
    consumed = omega (arith, m.consumed, k.consumed);
    deduped = omega (arith, m.deduped, k.deduped);
    dead = omega (arith, m.dead, k.dead);
    dropped = omega (arith, m.dropped, k.dropped);
    consumed_total = λ h. omega (arith, m.consumed_total h, k.consumed_total h);
    dedup_dropped_total = λ h. omega (arith, m.dedup_dropped_total h, k.dedup_dropped_total h);
    dlq_total = λ h. omega (arith, m.dlq_total h, k.dlq_total h);
  }

  pub Tallied-trans :
      (n m k : ℕ) (c c' c'' : Consumer v)
      → n + m ≡ k
      → Tallied n c c'
      → Tallied m c' c''
      → Tallied k c c''
  Tallied-trans n m k c c' c'' s (t, h, e) (u, l, f) =
      (add t u, Moves-trans t u (book c) (book c') (book c'') h l, omega arith)

  abbrev pub nothing : Tally
  nothing = record { consumed = 0; deduped = 0; dead = 0; dropped = 0 }

  pub inc-true : (b : Bool) (n : ℕ) → b ≡ true → inc_if b n ≡ n + 1
  inc-true true n h = refl
  inc-true false n h = cc

  pub count_consumed-Tallied : (c : Consumer v) → Tallied 1 c (count_consumed v c)
  unfolding count_consumed
  count_consumed-Tallied c = (
    record { consumed = 1; deduped = 0; dead = 0; dropped = 0 },
    record {
      consumed = omega arith;
      deduped = omega arith;
      dead = omega arith;
      dropped = omega arith;
      consumed_total = λ h. inc-true v.metrics _ h;
      dedup_dropped_total = λ h. omega arith;
      dlq_total = λ h. omega arith;
    },
    refl,
  )

  pub count_deduped-Tallied : (c : Consumer v) → Tallied 1 c (count_deduped v c)
  unfolding count_deduped
  count_deduped-Tallied c = (
    record { consumed = 0; deduped = 1; dead = 0; dropped = 0 },
    record {
      consumed = omega arith;
      deduped = omega arith;
      dead = omega arith;
      dropped = omega arith;
      consumed_total = λ h. omega arith;
      dedup_dropped_total = λ h. inc-true v.metrics _ h;
      dlq_total = λ h. omega arith;
    },
    refl,
  )

  pub count_dlq-Tallied : (c : Consumer v) → Tallied 1 c (count_dlq v c)
  unfolding count_dlq
  count_dlq-Tallied c = (
    record { consumed = 0; deduped = 0; dead = 1; dropped = 0 },
    record {
      consumed = omega arith;
      deduped = omega arith;
      dead = omega arith;
      dropped = omega arith;
      consumed_total = λ h. omega arith;
      dedup_dropped_total = λ h. omega arith;
      dlq_total = λ h. inc-true v.metrics _ h;
    },
    refl,
  )

  pub drop-Tallied :
      (c : Consumer v) (l : Line) → drops (l ∷ c.log) ≡ suc (drops c.log) → Tallied 1 c (say v l c)
  drop-Tallied c l e = (
    record { consumed = 0; deduped = 0; dead = 0; dropped = 1 },
    record {
      consumed = omega arith;
      deduped = omega arith;
      dead = omega arith;
      dropped = omega (arith, e);
      consumed_total = λ h. omega arith;
      dedup_dropped_total = λ h. omega arith;
      dlq_total = λ h. omega arith;
    },
    refl,
  )

  pub nothing-Tallied : (c : Consumer v) → Tallied 0 c c
  nothing-Tallied c = (
    nothing,
    record {
      consumed = omega arith;
      deduped = omega arith;
      dead = omega arith;
      dropped = omega arith;
      consumed_total = λ h. omega arith;
      dedup_dropped_total = λ h. omega arith;
      dlq_total = λ h. omega arith;
    },
    refl,
  )
