-- ===== src/Losstest.antt =====
-- cmd/losstest/main.go: how many events each of the goroutines produces.
pub mod Producers
pub mod Keys
pub mod Returns
pub mod Attempts
pub mod Produced
use native.Mathlib.Nat.{div-add-mod, mod-lt}
use sluice_gate_telemetery_i.Base.{
  ℕ, zero, suc, ◌+◌, ◌*◌, ◌/◌, ◌%◌, ◌≤◌, ◌<◌, ◌≡◌, refl, ◌∙◌, List, [], ◌∷◌, ltb, if◌then◌else◌,
  length, arith, ap, sum,
}

-- `n` of goroutine g: perGoroutine, and one more below remainder. Both flags are taken as positive.
unfoldable pub share : ℕ → ℕ → ℕ → ℕ
share count concurrency g =
    if ltb g (count % concurrency) then count / concurrency + 1 else count / concurrency

-- The last k goroutines of the loop, from g on.
unfoldable pub shares_from : ℕ → ℕ → ℕ → ℕ → List ℕ
unfolding share
shares_from count concurrency g zero = []
shares_from count concurrency g (suc k) =
    share count concurrency g ∷ shares_from count concurrency (suc g) k

-- `for g := 0; g < *concurrency; g++`.
unfoldable pub shares : ℕ → ℕ → List ℕ
unfolding shares_from
shares count concurrency = shares_from count concurrency 0 concurrency

-- What remains of `remainder` for the goroutines from g on.
abbrev extra : ℕ → ℕ → ℕ → ℕ
extra r g zero = 0
extra r g (suc k) = if ltb g r then 1 + extra r (suc g) k else extra r (suc g) k

shares_from-sum :
    (count concurrency g k : ℕ)
    → sum (shares_from count concurrency g k)
      ≡ k * (count / concurrency) + extra (count % concurrency) g k
unfolding shares_from share
shares_from-sum count concurrency g zero = omega arith
shares_from-sum count concurrency g (suc k) =
    let ih = shares_from-sum count concurrency (suc g) k in ground (arith, ih)

extra_past : (r g k : ℕ) → r ≤ g → extra r g k ≡ 0
extra_past r g zero l = refl
extra_past r g (suc k) l = ground (arith, extra_past r (suc g) k)

extra_whole : (r g k : ℕ) → r ≤ g + k → g ≤ r → g + extra r g k ≡ r
extra_whole r g zero h l = omega (arith, h, l)
extra_whole r g (suc k) h l = ground (arith, h, l, extra_whole r (suc g) k, extra_past r (suc g) k)

length-shares_from : (count concurrency g k : ℕ) → length (shares_from count concurrency g k) ≡ k
unfolding shares_from
length-shares_from count concurrency g zero = refl
length-shares_from count concurrency g (suc k) =
    ap suc (length-shares_from count concurrency (suc g) k)

-- With at least one goroutine, as many are started as asked for, and together they produce exactly
-- the events asked for.
pub shares-sum :
    (count concurrency : ℕ)
    → 0 < concurrency
    → (sum (shares count concurrency) ≡ count) × (length (shares count concurrency) ≡ concurrency)
unfolding shares
shares-sum count concurrency h = (
  shares_from-sum count concurrency 0 concurrency
      ∙ ap (concurrency * (count / concurrency) +◌) all_extra
      ∙ div-add-mod count concurrency,
  length-shares_from count concurrency 0 concurrency,
)
  where
    below : count % concurrency < concurrency
    below = mod-lt count h

    all_extra : extra (count % concurrency) 0 concurrency ≡ count % concurrency
    all_extra =
        let e =
          extra_whole (count % concurrency) 0 concurrency (omega (arith, below)) (omega arith) in
        omega (arith, e)
