-- ===== src/Retry.antt =====
-- The retry loop `for attempt := 0; attempt <= maxRetries; attempt++ { err = op(); if err == nil … }`
-- of the consumer and of the Timescale sink.
use sluice_gate_telemetery_i.Base.{ℕ, zero, suc, ◌≡◌, Option, none, some, Option-cases, inl, inr}
use sluice_gate_telemetery_i.Event.{Error}

-- Left at a success, or by the loop's test with the last error.
pub data Loop : Type 0 where
  finished : Loop
  gave_up : Option Error → Loop

abbrev pub last_err : Loop → Option Error
last_err finished = none
last_err (gave_up e) = e

unfoldable pub retry {ℓ} : {S : Type ℓ} → ℕ → (S → S × Option Error) → S → Option Error → S × Loop
retry zero op s e = (s, gave_up e)
retry (suc n) op s e = elim (op s).1 [
  | none ↦ ((op s).0, finished)
  | some x ↦ retry n op (op s).0 (some x)
]

module _ {ℓ κ} {S : Type ℓ} (P : S → Type κ) (op : S → S × Option Error) where
  -- A loop that finished ended in a successful call.
  pub retry_finished :
      ((s : S) → (op s).1 ≡ none → P (op s).0)
      → (n : ℕ) (s : S) (e : Option Error) → (retry n op s e).1 ≡ finished
      → P (retry n op s e).0
  unfolding retry
  retry_finished h zero s e f = cc
  retry_finished h (suc n) s e f = elim (Option-cases (op s).1) [
    | inl ok ↦ rw (ok, retry) (h s ok)
    | inr (x, bad) ↦ rw (bad, retry) (retry_finished h n (op s).0 (some x) (rw (bad, retry) at f))
  ]

  -- What each call keeps, the loop keeps.
  pub retry_keeps :
      ((s : S) → P s → P (op s).0) → (n : ℕ) (s : S) (e : Option Error) → P s → P (retry n op s e).0
  unfolding retry
  retry_keeps h zero s e p = p
  retry_keeps h (suc n) s e p = elim (Option-cases (op s).1) [
    | inl ok ↦ rw (ok, retry) (h s p)
    | inr (x, bad) ↦ rw (bad, retry) (retry_keeps h n (op s).0 (some x) (h s p))
  ]

-- The same where the calls keep an invariant Q.
pub retry_finished_inv {ℓ κ μ} :
    {S : Type ℓ} (Q : S → Type μ) (P : S → Type κ) (op : S → S × Option Error)
    → ((s : S) → Q s → Q (op s).0)
    → ((s : S) → Q s → (op s).1 ≡ none → P (op s).0)
    → (n : ℕ) (s : S) (e : Option Error) → Q s
    → (retry n op s e).1 ≡ finished
    → P (retry n op s e).0
unfolding retry
retry_finished_inv Q P op k h zero s e q f = cc
retry_finished_inv Q P op k h (suc n) s e q f = elim (Option-cases (op s).1) [
  | inl ok ↦ rw (ok, retry) (h s q ok)
  | inr (x, bad) ↦
      rw (bad, retry)
        (retry_finished_inv Q P op k h n (op s).0 (some x) (k s q) (rw (bad, retry) at f))
]

-- A loop that made an attempt and gave up reports an error.
pub retry_gave_up {ℓ} :
    {S : Type ℓ} (op : S → S × Option Error) (n : ℕ) (s : S) (x : Error)
    → last_err (retry n op s (some x)).1 ≡ none
    → (retry n op s (some x)).1 ≡ finished
unfolding retry
retry_gave_up op zero s x h = cc
retry_gave_up op (suc n) s x h = elim (Option-cases (op s).1) [
  | inl ok ↦ rw (ok, retry)
  | inr (y, bad) ↦ rw (bad, retry) (retry_gave_up op n (op s).0 y (rw (bad, retry) at h))
]

-- With at least one attempt, no error left means that the loop finished.
pub retry_no_err {ℓ} :
    {S : Type ℓ} (op : S → S × Option Error) (n : ℕ) (s : S)
    → last_err (retry (suc n) op s none).1 ≡ none
    → (retry (suc n) op s none).1 ≡ finished
unfolding retry
retry_no_err op n s h = elim (Option-cases (op s).1) [
  | inl ok ↦ rw (ok, retry)
  | inr (y, bad) ↦ rw (bad, retry) (retry_gave_up op n (op s).0 y (rw (bad, retry) at h))
]
