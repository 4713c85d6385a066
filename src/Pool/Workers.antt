-- ===== src/Pool/Workers.antt =====
-- The workers of a pool (internal/pool/pool.go) as a list: who waits, who has returned, what is written.
use mathlib.Core.List.{Perm, perm_middle, perm_append_comm, perm_append_singleton}
use mathlib.Core.List.Perm
use sluice_gate_telemetery_i.Base.{
  ℕ, zero, suc, ◌≤◌, ◌≡◌, refl, sym, ap, subst, ◌∙◌, ◌⊎◌, inl, inr, List, [], ◌∷◌, ◌++◌,
  append_assoc, Bool, true, false, ◌||◌, none, some, length, get_elem?, set, arith, Option-cases,
  some_inj, replicate,
}
use sluice_gate_telemetery_i.Event.{Event}
use sluice_gate_telemetery_i.Pool.{Worker, looping, parked, exited, writing, hand, AllExited}

abbrev pub held : Worker → List Event
held looping = []
held parked = []
held exited = []
held (writing e) = e ∷ []

-- The events in the hands of the workers.
abbrev pub in_flight : List Worker → List Event
in_flight [] = []
in_flight (w ∷ ws) = held w ++ in_flight ws

abbrev pub is_parked : Worker → Bool
is_parked parked = true
is_parked looping = false
is_parked exited = false
is_parked (writing e) = false

abbrev pub is_exited : Worker → Bool
is_exited exited = true
is_exited looping = false
is_exited parked = false
is_exited (writing e) = false

abbrev pub any {ℓ} : {A : Type ℓ} → (A → Bool) → List A → Bool
any t [] = false
any t (x ∷ xs) = t x || any t xs

perm_exchange : (xs ys zs : List Event) → Perm (xs ++ (ys ++ zs)) (ys ++ (xs ++ zs))
perm_exchange xs ys zs =
    rw (← append_assoc xs ys zs, ← append_assoc ys xs zs)
      (Perm.append_right zs (perm_append_comm xs ys))

-- Where worker i is w, putting x in its place trades what w holds for what x holds.
pub in_flight-set :
    (ws : List Worker) (i : ℕ) (w x : Worker)
    → get_elem? ws i ≡ some w
    → Perm (held w ++ in_flight (set ws i x)) (held x ++ in_flight ws)
in_flight-set [] i w x h = cc
in_flight-set (y ∷ ws) zero w x h =
    let e : y ≡ w = cc in rw e (perm_exchange (held w) (held x) (in_flight ws))
in_flight-set (y ∷ ws) (suc i) w x h =
    Perm.trans (perm_exchange (held w) (held y) (in_flight (set ws i x))) (
      Perm.trans (Perm.append_left (held y) (in_flight-set ws i w x h))
        (perm_exchange (held y) (held x) (in_flight ws)))

pub any-set :
    (t : Worker → Bool) (ws : List Worker) (i : ℕ) (x : Worker)
    → any t (set ws i x) ≡ true
    → (t x ≡ true) ⊎ (any t ws ≡ true)
any-set t [] i x h = inr h
any-set t (y ∷ ws) zero x h = ground arith
any-set t (y ∷ ws) (suc i) x h = ground (arith, any-set t ws i x)

pub hand-none : (e : Event) (ws : List Worker) → hand e ws ≡ none → any is_parked ws ≡ false
unfolding hand
hand-none e [] h = refl
hand-none e (parked ∷ ws) h = cc
hand-none e (looping ∷ ws) h = ground (arith, hand-none e ws)
hand-none e (exited ∷ ws) h = ground (arith, hand-none e ws)
hand-none e (writing f ∷ ws) h = ground (arith, hand-none e ws)

-- What a hand-over to a waiting worker changes.
pub record Handed (e : Event) (ws ws' : List Worker) : Type 0 where
  pub waited : any is_parked ws ≡ true
  pub traded : Perm (in_flight ws') (e ∷ in_flight ws)
  pub returned : any is_exited ws' ≡ any is_exited ws
  pub counted : length ws' ≡ length ws

Handed-cons :
    (y : Worker) (e : Event) (ws vs : List Worker) → Handed e ws vs → Handed e (y ∷ ws) (y ∷ vs)
Handed-cons y e ws vs h = record {
  waited = or_true (is_parked y) h.waited;
  traded = Perm.trans (Perm.append_left (held y) h.traded) (perm_middle (held y) (in_flight ws));
  returned = ap (λ b. is_exited y || b) h.returned;
  counted = ap suc h.counted;
}
  where
    or_true : (a : Bool) {b : Bool} → b ≡ true → (a || b) ≡ true
    or_true true k = refl
    or_true false k = k

-- A worker that does not wait is passed over.
Handed-skip :
    (y : Worker) (e : Event) (ws ws' : List Worker)
    → ((vs : List Worker) → hand e ws ≡ some vs → Handed e ws vs)
    → ((hand e ws ≡ none) → hand e (y ∷ ws) ≡ none)
    → ((vs : List Worker) → hand e ws ≡ some vs → hand e (y ∷ ws) ≡ some (y ∷ vs))
    → hand e (y ∷ ws) ≡ some ws'
    → Handed e (y ∷ ws) ws'
Handed-skip y e ws ws' ih fails steps h = elim (Option-cases (hand e ws)) [
  | inl n ↦ let k = fails n in cc
  | inr (vs, k) ↦
      let same : y ∷ vs ≡ ws' = some_inj (y ∷ vs) ws' (sym (steps vs k) ∙ h) in
      subst (Handed e (y ∷ ws)) same (Handed-cons y e ws vs (ih vs k))
]

pub hand-Handed : (e : Event) (ws ws' : List Worker) → hand e ws ≡ some ws' → Handed e ws ws'
unfolding hand
hand-Handed e [] ws' h = cc
hand-Handed e (parked ∷ ws) ws' h =
    subst (Handed e (parked ∷ ws)) (some_inj (writing e ∷ ws) ws' h)
      (record { waited = refl; traded = Perm.rfl; returned = refl; counted = refl })
hand-Handed e (looping ∷ ws) ws' h =
    Handed-skip looping e ws ws' (hand-Handed e ws) (λ n. rw n) (λ vs k. rw k) h
hand-Handed e (exited ∷ ws) ws' h =
    Handed-skip exited e ws ws' (hand-Handed e ws) (λ n. rw n) (λ vs k. rw k) h
hand-Handed e (writing f ∷ ws) ws' h =
    Handed-skip (writing f) e ws ws' (hand-Handed e ws) (λ n. rw n) (λ vs k. rw k) h

pub in_flight-le : (ws : List Worker) → length (in_flight ws) ≤ length ws
in_flight-le [] = omega arith
in_flight-le (looping ∷ ws) = omega (arith, in_flight-le ws)
in_flight-le (parked ∷ ws) = omega (arith, in_flight-le ws)
in_flight-le (exited ∷ ws) = omega (arith, in_flight-le ws)
in_flight-le (writing e ∷ ws) = omega (arith, in_flight-le ws)

pub in_flight-exited : (ws : List Worker) → AllExited ws → in_flight ws ≡ []
in_flight-exited [] h = refl
in_flight-exited (exited ∷ ws) h = in_flight-exited ws h
in_flight-exited (looping ∷ ws) h = absurd h
in_flight-exited (parked ∷ ws) h = absurd h
in_flight-exited (writing e ∷ ws) h = absurd h

pub in_flight-replicate : (n : ℕ) → in_flight (replicate n looping) ≡ []
in_flight-replicate zero = refl
in_flight-replicate (suc n) = in_flight-replicate n

pub any-replicate :
    (t : Worker → Bool) (n : ℕ) → t looping ≡ false → any t (replicate n looping) ≡ false
any-replicate t zero h = refl
any-replicate t (suc n) h = ground (arith, any-replicate t n h)

pub any-get :
    (t : Worker → Bool) (ws : List Worker) (i : ℕ) (w : Worker)
    → get_elem? ws i ≡ some w
    → t w ≡ true
    → any t ws ≡ true
any-get t [] i w h k = cc
any-get t (y ∷ ws) zero w h k = ground arith
any-get t (y ∷ ws) (suc i) w h k = ground (arith, any-get t ws i w)

-- An event that goes from the accepted ones into the hands of a worker.
pub started-owned :
    (e : Event) (started finished before after : List Event)
    → Perm started (finished ++ before)
    → Perm after (e ∷ before)
    → Perm (started ++ e ∷ []) (finished ++ after)
started-owned e started finished before after h k = Perm.trans (perm_append_singleton e started) (
    Perm.trans (Perm.cons e h) (
      Perm.trans (Perm.symm (perm_middle finished before))
        (Perm.append_left finished (Perm.symm k))))
