-- ===== src/Consumer/Rounds/Commit.antt =====
-- What the rounds of internal/consumer/consumer.go commit.
use sluice_gate_telemetery_i.Base.{
  ◌≡◌, refl, sym, ap, ◌∙◌, List, [], ◌∷◌, ◌++◌, append_assoc, append-nil, Option, none, some, arith,
}
use sluice_gate_telemetery_i.Event.{PoisonedEvent, Error}
use sluice_gate_telemetery_i.Dlq.{Letter}
use sluice_gate_telemetery_i.Consumer.{
  Env, Consumer, say, count_consumed, count_deduped, count_dlq, handle_batch, fetch_error,
  flush_error,
}
use sluice_gate_telemetery_i.Consumer.Frame.{IsFrame, send_to_dlq-frame, handle_batch-frame}
use sluice_gate_telemetery_i.Consumer.Rounds.{
  Round, cancelled, client_closed, fetched, log_fetch_errors, poll, flush_sink, poison_letter,
  send_poisoned, report_poisoned, commit_offsets, finish, round, run,
}

module _ (v : Env) where
  -- A consumer that has polled and committed what c has.
  abbrev pub SameOffsets : Consumer v → Consumer v → Type 0
  SameOffsets c c' = (c'.polled ≡ c.polled) × (c'.committed ≡ c.committed)

  offsets-IsFrame : (c : Consumer v) → IsFrame v (SameOffsets c)
  unfolding count_consumed count_deduped count_dlq
  offsets-IsFrame c = record {
    on_sink = λ c' s a. a;
    on_redis = λ c' s a. a;
    on_dlq = λ c' s a. a;
    on_say = λ l c' a. a;
    on_consumed = λ c' a. a;
    on_deduped = λ c' a. a;
    on_sent = λ c' a. a;
  }

  log_fetch_errors-offsets :
      (xs : List Error) (c : Consumer v) → SameOffsets c (log_fetch_errors v xs c)
  unfolding log_fetch_errors
  log_fetch_errors-offsets [] c = (refl, refl)
  log_fetch_errors-offsets (x ∷ xs) c = log_fetch_errors-offsets xs (say v (fetch_error x) c)

  flush_sink-offsets : (c : Consumer v) → SameOffsets c (flush_sink v c).0
  unfolding flush_sink
  flush_sink-offsets c = ground arith

  send_poisoned-offsets :
      (ps : List PoisonedEvent) (c c' : Consumer v)
      → SameOffsets c c'
      → SameOffsets c (send_poisoned v ps c')
  unfolding send_poisoned
  send_poisoned-offsets [] c c' a = a
  send_poisoned-offsets (p ∷ ps) c c' a =
      send_poisoned-offsets ps c _
        (send_to_dlq-frame v (SameOffsets c) (offsets-IsFrame c) (poison_letter v p) p.cause c' a)

  report-offsets : (c c' : Consumer v) → SameOffsets c c' → SameOffsets c (report_poisoned v c')
  unfolding report_poisoned
  report-offsets c c' a = by_sink v.sink.poison_reporter
    where
      by_sink :
          (o : Option (v.SinkState → v.SinkState × List PoisonedEvent))
          → SameOffsets c (elim o [
            | none ↦ c'
            | some g ↦ send_poisoned v (g c'.sink).1 (record c' { sink = (g c'.sink).0 })
          ])
      by_sink none = a
      by_sink (some g) =
          send_poisoned-offsets (g c'.sink).1 c (record c' { sink = (g c'.sink).0 }) a

  -- What a round commits: all that has been polled, if neither the flush nor the commit fails.
  abbrev pub committed_after : Option Error → Option Error → List Letter → List Letter → List Letter
  committed_after none none old polled = polled
  committed_after none (some x) old polled = old
  committed_after (some y) r old polled = old

  -- A round adds its records to what was polled. It commits all that was polled so far, which includes
  -- the records of earlier rounds whose commit was withheld, if the sink's flush and the commit report
  -- no error, and nothing else otherwise.
  pub round-committed :
      (xs : List Error) (ls : List Letter) (r : Option Error) (c : Consumer v)
      → let flushed = (flush_sink v (handle_batch v ls (log_fetch_errors v xs (poll v ls c)))).1 in
        ((round v xs ls r c).polled ≡ c.polled ++ ls)
        × ((round v xs ls r c).committed ≡ committed_after flushed r c.committed (c.polled ++ ls))
  unfolding round finish
  round-committed xs ls r c = by_flush (flush_sink v handled).1
    where
      start : Consumer v
      start = log_fetch_errors v xs (poll v ls c)

      handled : Consumer v
      handled = handle_batch v ls start

      same : SameOffsets (poll v ls c) handled
      same =
          handle_batch-frame v (SameOffsets (poll v ls c)) (offsets-IsFrame (poll v ls c)) ls start
            (log_fetch_errors-offsets xs (poll v ls c))

      flushed : SameOffsets (poll v ls c) (flush_sink v handled).0
      flushed = let k = flush_sink-offsets handled in (k.0 ∙ same.0, k.1 ∙ same.1)

      reported : SameOffsets (poll v ls c) (report_poisoned v (flush_sink v handled).0)
      reported = report-offsets (poll v ls c) (flush_sink v handled).0 flushed

      by_commit :
          (m : Option Error)
          → ((commit_offsets v m (report_poisoned v (flush_sink v handled).0)).polled
              ≡ c.polled ++ ls)
            × ((commit_offsets v m (report_poisoned v (flush_sink v handled).0)).committed
                ≡ committed_after none m c.committed (c.polled ++ ls))
      by_commit none = unfold commit_offsets in (reported.0, reported.0)
      by_commit (some x) = unfold commit_offsets in reported

      by_flush :
          (o : Option Error)
          → (let c' : Consumer v = elim o [
            | some x ↦ say v (flush_error x) (flush_sink v handled).0
            | none ↦ commit_offsets v r (report_poisoned v (flush_sink v handled).0)
          ] in
              (c'.polled ≡ c.polled ++ ls)
              × (c'.committed ≡ committed_after o r c.committed (c.polled ++ ls)))
      by_flush none = by_commit r
      by_flush (some x) = flushed

  -- Committed is an initial part of polled.
  abbrev pub IsCovered : Consumer v → Type 0
  IsCovered c = (rest : List Letter) × (c.polled ≡ c.committed ++ rest)

  round-IsCovered :
      (xs : List Error) (ls : List Letter) (r : Option Error) (c : Consumer v)
      → IsCovered c
      → IsCovered (round v xs ls r c)
  round-IsCovered xs ls r c (rest, a) =
      by_results (flush_sink v (handle_batch v ls (log_fetch_errors v xs (poll v ls c)))).1 r
        (round-committed xs ls r c).1
    where
      done : (round v xs ls r c).polled ≡ c.polled ++ ls
      done = (round-committed xs ls r c).0

      kept : (round v xs ls r c).committed ≡ c.committed → IsCovered (round v xs ls r c)
      kept e = (
        rest ++ ls,
        done
            ∙ ap (λ ps. ps ++ ls) a
            ∙ append_assoc c.committed rest ls
            ∙ ap (λ ps. ps ++ (rest ++ ls)) (sym e),
      )

      by_results :
          (o m : Option Error)
          → (round v xs ls r c).committed ≡ committed_after o m c.committed (c.polled ++ ls)
          → IsCovered (round v xs ls r c)
      by_results none none e = ([], done ∙ sym e ∙ sym (append-nil _))
      by_results none (some x) e = kept e
      by_results (some y) m e = kept e

  -- Whatever the client, the sink and the brokers answer, what is committed stays an initial part of
  -- what was polled, over any number of rounds.
  pub run-IsCovered : (rs : List Round) (c : Consumer v) → IsCovered c → IsCovered (run v rs c).0
  unfolding run
  run-IsCovered [] c a = a
  run-IsCovered (cancelled x ∷ rs) c a = a
  run-IsCovered (client_closed ∷ rs) c a = a
  run-IsCovered (fetched xs ls r ∷ rs) c a =
      run-IsCovered rs (round v xs ls r c) (round-IsCovered xs ls r c a)
