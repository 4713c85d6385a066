-- ===== src/Gateway/Counted.antt =====
-- What a call of `Push` (internal/gateway/server.go) changes, as a count of events.
use sluice_gate_telemetery_i.Base.{
  ℕ, ◌+◌, ◌≤◌, ◌≡◌, refl, subst, ◌∙◌, Bool, true, false, Option, none, some, length, arith,
}
use sluice_gate_telemetery_i.Gateway.{Server, Response, Metrics}

abbrev pub counted_if : Bool → ℕ → ℕ
counted_if true n = n
counted_if false n = 0

-- The collectors against the response.
abbrev pub MetricsCounted : Bool → Option Metrics → Option Metrics → Response → Response → Type 0
MetricsCounted shed none none r r' = Unit
MetricsCounted shed (some m) (some m') r r' =
    (m'.ingest_total + r.accepted ≡ m.ingest_total + r'.accepted)
    × (m'.shed_total + counted_if shed r.rejected ≡ m.shed_total + counted_if shed r'.rejected)
MetricsCounted shed none (some m) r r' = ⊥
MetricsCounted shed (some m) none r r' = ⊥

-- What n events change.
pub record Counted (n : ℕ) (s s' : Server) (r r' : Response) : Type 0 where
  pub same_shed : s'.shed ≡ s.shed
  pub total : r'.accepted + r'.rejected ≡ r.accepted + r.rejected + n
  pub measured : MetricsCounted s.shed s.metrics s'.metrics r r'
  pub kept : length s.pool.accepted + r'.accepted ≤ length s'.pool.accepted + r.accepted

pub MetricsCounted-refl : (b : Bool) (o : Option Metrics) (r : Response) → MetricsCounted b o o r r
MetricsCounted-refl b none r = tt
MetricsCounted-refl b (some m) r = (refl, refl)

pub MetricsCounted-trans :
    (b : Bool) (o o' o'' : Option Metrics) (r r' r'' : Response)
    → MetricsCounted b o o' r r'
    → MetricsCounted b o' o'' r' r''
    → MetricsCounted b o o'' r r''
MetricsCounted-trans b none none none r r' r'' h k = tt
MetricsCounted-trans b (some m) (some m') (some m'') r r' r'' h k =
    (omega (arith, h.0, k.0), omega (arith, h.1, k.1))
MetricsCounted-trans b none (some m) o'' r r' r'' h k = absurd h
MetricsCounted-trans b (some m) none o'' r r' r'' h k = absurd h
MetricsCounted-trans b none none (some m) r r' r'' h k = absurd k
MetricsCounted-trans b (some m) (some m') none r r' r'' h k = absurd k

pub Counted-trans :
    (m n : ℕ) (s s' s'' : Server) (r r' r'' : Response)
    → Counted m s s' r r'
    → Counted n s' s'' r' r''
    → Counted (m + n) s s'' r r''
Counted-trans m n s s' s'' r r' r'' h k = record {
  same_shed = k.same_shed ∙ h.same_shed;
  total = omega (arith, h.total, k.total);
  measured =
      MetricsCounted-trans s.shed s.metrics s'.metrics s''.metrics r r' r'' h.measured
        (subst (λ b. MetricsCounted b s'.metrics s''.metrics r' r'') h.same_shed k.measured);
  kept = omega (arith, h.kept, k.kept);
}
