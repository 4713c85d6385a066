-- ===== src/Consumer/NoLoss.antt =====
-- What becomes of the records of a batch in internal/consumer/consumer.go.
mod Steps
mod Outcome
mod Decode
mod Places
mod Batch
pub use Steps.{Durable, IsHeld, IsDead, Kept, Kept-trans, Kept-refl, IsDead-Kept, send_to_dlq-Kept}
pub use Outcome.{Reliable, IsPersisted, send_to_dlq-IsDead}
unfoldable pub use Decode.{decoded}
pub use Decode.{decode_all-decoded, send_to_dlq-redis, decode_all-Kept}
pub use Places.{Placed, persisted, repeats_before, repeats_other}
pub use Batch.{Fate, undecodable, decodes, handle_batch-Kept, handle_batch-Fate}
