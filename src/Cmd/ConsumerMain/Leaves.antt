-- ===== src/Cmd/ConsumerMain/Leaves.antt =====
-- What cmd/consumer/main.go on a Timescale sink leaves behind when it ends.
use sluice_gate_telemetery_i.Base.{ℕ, pos, ◌≡◌, refl, ◌⊎◌, inl, inr, List, [], In}
use sluice_gate_telemetery_i.Event.{Event, Proto}
use sluice_gate_telemetery_i.Broker.{Broker}
use sluice_gate_telemetery_i.Dedup.{Redis}
use sluice_gate_telemetery_i.Dlq.{Letter}
use sluice_gate_telemetery_i.Sink.Timescale.{Database, new_timescale_sink, close_sink}
use sluice_gate_telemetery_i.Sink.Timescale.Flush.{Accounted, flush-buffer}
use sluice_gate_telemetery_i.Sink.Timescale.Closing.{close_sink-Accounted}
use sluice_gate_telemetery_i.Sink.Timescale.Durable.{timescale_durable}
use sluice_gate_telemetery_i.Sink.Timescale.Settles.{timescale_settling, timescale_steady}
use sluice_gate_telemetery_i.Consumer.{Env, Consumer, new}
use sluice_gate_telemetery_i.Consumer.NoLoss.{Reliable, IsDead}
use sluice_gate_telemetery_i.Consumer.Rounds.{Round, Ended, run}
use sluice_gate_telemetery_i.Consumer.Rounds.Commit.{IsCovered, run-IsCovered}
use sluice_gate_telemetery_i.Consumer.Rounds.Settled.{IsReported}
use sluice_gate_telemetery_i.Consumer.Rounds.Steady.{Lasting}
use sluice_gate_telemetery_i.Consumer.Rounds.Standing.{Standing, Standing-map}
use sluice_gate_telemetery_i.Consumer.Rounds.History.{run-Lasting, run-IsReady}
use sluice_gate_telemetery_i.Cmd.ConsumerMain.{
  Flags, Startup, timescale, ready, set_up, deferred, FinalLine, env_of, Surroundings, new_sink,
  start, closed_sink, shut_down, final_line, exits, consumer_main,
}

module _ (p : Proto) (d : Database) (r : Redis) (b : Broker) (f : Flags) where
  abbrev pub env : Env
  env = env_of p d r b f timescale

  module _ (n : ℕ) (h : Reliable env) where
    -- In the table or set aside by the sink, or in the dead-letter topic.
    abbrev pub AtExit : Letter → Event → Consumer env → Type 0
    AtExit l e c =
        Accounted d c.sink e
        ⊎ IsDead env (timescale_durable d n) l c
        ⊎ IsReported env (timescale_durable d n) (timescale_settling d n) h e c

    -- How the program ends.
    pub record Leaves (u : Startup) (s : Surroundings p d r b) (rs : List Round) : Type 0 where
      pub consumer : Consumer env
      pub ended : Ended
      pub line : FinalLine
      pub exit :
          consumer_main p d r b f u s rs
          ≡ exits timescale consumer ended line (deferred f timescale)
      pub buffer_empty : consumer.sink.0.buffer ≡ []
      pub covered : IsCovered env consumer
      pub standing :
          (l : Letter)
          → In l consumer.polled
          → Standing env (timescale_durable d n) (r.has s.keys) AtExit consumer.polled consumer l

    consumer_main-exits :
        (u : Startup) (s : Surroundings p d r b) (rs : List Round)
        → set_up f u ≡ ready timescale
        → let c = run env rs (start p d r b f timescale s) in
          consumer_main p d r b f u s rs
          ≡ exits timescale
              (shut_down p d r b f timescale c.0)
              c.1
              (final_line p d r b f timescale c.0)
              (deferred f timescale)
    unfolding consumer_main
    consumer_main-exits u s rs k = rw (k, consumer_main) refl

    -- Once it is set up on a Timescale sink, with a dead-letter topic that takes every record and retries
    -- that are not negative, the program ends, when the client or a signal lets it, with an empty buffer
    -- and with commits that cover only polled records; and whatever the rounds have brought, each record
    -- that was polled stands: dead-lettered with its bytes if it does not decode; else in the table, or
    -- set aside by the sink, or dead-lettered, or with a key that Redis held at the start or that a
    -- record has which is in one of these places.
    pub consumer_main-Leaves :
        (u : Startup) (s : Surroundings p d r b) (rs : List Round)
        → set_up f u ≡ ready timescale
        → f.max_retries ≡ pos n
        → Leaves u s rs
    unfolding start new new_sink new_timescale_sink shut_down closed_sink close_sink
    consumer_main-Leaves u s rs k few = record {
      consumer = end;
      ended = c.1;
      line = final_line p d r b f timescale c.0;
      exit = consumer_main-exits u s rs k;
      buffer_empty = flush-buffer d c.0.sink.0 c.0.sink.1;
      covered = run-IsCovered env rs begin ([], refl);
      standing = λ l i.
          Standing-map env (timescale_durable d n) (r.has s.keys) Lasts AtExit c.0.polled c.0.polled
            c.0 end l (λ a. a) (λ o j. j) (λ m e. at_exit m e)
            (run-Lasting env (timescale_durable d n) (timescale_settling d n) h
              (timescale_steady d n) rs begin l few refl i);
    }
      where
        begin : Consumer env
        begin = start p d r b f timescale s

        c : Consumer env × Ended
        c = run env rs begin

        end : Consumer env
        end = shut_down p d r b f timescale c.0

        Lasts : Letter → Event → Consumer env → Type 0
        Lasts =
            Lasting env (timescale_durable d n) (timescale_settling d n) h (timescale_steady d n)

        limit : c.0.sink.0.max_retries ≡ pos n
        limit =
            run-IsReady env (timescale_durable d n) (timescale_settling d n) h
              (timescale_steady d n) rs begin few refl

        at_exit : (l : Letter) (e : Event) → Lasts l e c.0 → AtExit l e end
        at_exit l e (inl held) = inl (close_sink-Accounted d n c.0.sink.0 c.0.sink.1 e limit held).0
        at_exit l e (inr dead) = inr dead
