-- ===== src/Report/Peak.antt =====
-- The peaks in internal/report/headlines.go are the highest throughputs.
use sluice_gate_telemetery_i.Base.{
  ℤ, Bytes, ◌≡◌, refl, sym, ap, subst, ◌∙◌, ◌⊎◌, inl, inr, List, [], ◌∷◌, Bool, true, false, ◌&&◌,
  if◌then◌else◌, arith, In, pos,
}
use sluice_gate_telemetery_i.Report.{Float64, SweepPoint, Report}
use sluice_gate_telemetery_i.Report.Float.{float_gt, float_gt_irrefl, float_gt-stays}
use sluice_gate_telemetery_i.Report.Headlines.{
  Headlines, raise_peak, raise_real_peak, peaks, start, headlines,
}

-- A throughput and what is quoted with it.
pub record Peak : Type 0 where
  pub value : Float64
  pub phase : Bytes
  pub concurrency : ℤ
  pub p99 : Float64

abbrev pub point : SweepPoint → Peak
point s = record {
  value = s.throughput_events_per_sec;
  phase = s.phase;
  concurrency = s.concurrency;
  p99 = s.latency_ms_p99;
}

abbrev pub peak_of : Headlines → Peak
peak_of h = record {
  value = h.peak_throughput_events_per_sec;
  phase = h.peak_throughput_phase;
  concurrency = h.peak_throughput_concurrency;
  p99 = h.p99_at_peak_ms;
}

abbrev pub real_peak_of : Headlines → Peak
real_peak_of h = record {
  value = h.real_infra_peak_throughput_events_per_sec;
  phase = h.real_infra_peak_phase;
  concurrency = h.real_infra_peak_concurrency;
  p99 = h.real_infra_p99_at_peak_ms;
}

abbrev raise : (SweepPoint → Bool) → SweepPoint → Peak → Peak
raise t s q = if t s && float_gt s.throughput_events_per_sec q.value then point s else q

abbrev raise_all : (SweepPoint → Bool) → List SweepPoint → Peak → Peak
raise_all t [] q = q
raise_all t (s ∷ ss) q = raise_all t ss (raise t s q)

abbrev pub any_sweep : SweepPoint → Bool
any_sweep s = true

abbrev pub real_sweep : SweepPoint → Bool
real_sweep s = s.real_infra

peak_of-raise_peak :
    (s : SweepPoint) (h : Headlines) → peak_of (raise_peak s h) ≡ raise any_sweep s (peak_of h)
unfolding raise_peak
peak_of-raise_peak s h = ground arith

peak_of-raise_real_peak :
    (s : SweepPoint) (h : Headlines) → peak_of (raise_real_peak s h) ≡ peak_of h
unfolding raise_real_peak
peak_of-raise_real_peak s h = ground arith

real_peak_of-raise_peak :
    (s : SweepPoint) (h : Headlines) → real_peak_of (raise_peak s h) ≡ real_peak_of h
unfolding raise_peak
real_peak_of-raise_peak s h = ground arith

real_peak_of-raise_real_peak :
    (s : SweepPoint) (h : Headlines)
    → real_peak_of (raise_real_peak s h) ≡ raise real_sweep s (real_peak_of h)
unfolding raise_real_peak
real_peak_of-raise_real_peak s h = ground arith

peak_of-peaks :
    (ss : List SweepPoint) (h : Headlines)
    → peak_of (peaks ss h) ≡ raise_all any_sweep ss (peak_of h)
unfolding peaks
peak_of-peaks [] h = refl
peak_of-peaks (s ∷ ss) h =
    peak_of-peaks ss (raise_real_peak s (raise_peak s h))
    ∙ ap (raise_all any_sweep ss)
        (peak_of-raise_real_peak s (raise_peak s h) ∙ peak_of-raise_peak s h)

real_peak_of-peaks :
    (ss : List SweepPoint) (h : Headlines)
    → real_peak_of (peaks ss h) ≡ raise_all real_sweep ss (real_peak_of h)
unfolding peaks
real_peak_of-peaks [] h = refl
real_peak_of-peaks (s ∷ ss) h =
    real_peak_of-peaks ss (raise_real_peak s (raise_peak s h))
    ∙ ap (raise_all real_sweep ss) (
        real_peak_of-raise_real_peak s (raise_peak s h)
        ∙ ap (raise real_sweep s) (real_peak_of-raise_peak s h))

-- No sweep that counts is above the peak, and the peak is where it started or is that of a sweep that
-- counts.
pub record Highest (t : SweepPoint → Bool) (ss : List SweepPoint) (q p : Peak) : Type 0 where
  pub above_all :
      (s : SweepPoint) → In s ss → t s ≡ true → float_gt s.throughput_events_per_sec p.value ≡ false
  pub attained : (p ≡ q) ⊎ ((s : SweepPoint) × In s ss × (t s ≡ true) × (p ≡ point s))

-- The peak never sinks.
raise_all-stays :
    (t : SweepPoint → Bool) (ss : List SweepPoint) (q : Peak) (x : Float64)
    → float_gt x q.value ≡ false
    → float_gt x (raise_all t ss q).value ≡ false
raise_all-stays t [] q x h = h
raise_all-stays t (s ∷ ss) q x h =
    raise_all-stays t ss (raise t s q) x
      (by_test (t s) (float_gt s.throughput_events_per_sec q.value) refl)
  where
    by_test :
        (b c : Bool)
        → float_gt s.throughput_events_per_sec q.value ≡ c
        → float_gt x (if b && c then point s else q).value ≡ false
    by_test true true k = float_gt-stays x q.value s.throughput_events_per_sec h k
    by_test true false k = h
    by_test false c k = h

raise-above :
    (t : SweepPoint → Bool) (s : SweepPoint) (q : Peak)
    → t s ≡ true
    → float_gt s.throughput_events_per_sec (raise t s q).value ≡ false
raise-above t s q k = by_test (t s) (float_gt s.throughput_events_per_sec q.value) k refl
  where
    by_test :
        (b c : Bool)
        → b ≡ true
        → float_gt s.throughput_events_per_sec q.value ≡ c
        → float_gt s.throughput_events_per_sec (if b && c then point s else q).value ≡ false
    by_test true true e k = float_gt_irrefl s.throughput_events_per_sec
    by_test true false e k = k
    by_test false c e k = cc

raise-attained :
    (t : SweepPoint → Bool) (s : SweepPoint) (q : Peak)
    → (raise t s q ≡ q) ⊎ ((t s ≡ true) × (raise t s q ≡ point s))
raise-attained t s q = by_test (t s) (float_gt s.throughput_events_per_sec q.value) refl
  where
    by_test :
        (b c : Bool)
        → t s ≡ b
        → ((if b && c then point s else q) ≡ q)
          ⊎ ((t s ≡ true) × ((if b && c then point s else q) ≡ point s))
    by_test true true e = inr (e, refl)
    by_test true false e = inl refl
    by_test false c e = inl refl

Highest-cons :
    (t : SweepPoint → Bool) (s : SweepPoint) (ss : List SweepPoint) (q : Peak)
    → Highest t ss (raise t s q) (raise_all t ss (raise t s q))
    → Highest t (s ∷ ss) q (raise_all t ss (raise t s q))
Highest-cons t s ss q rest = record {
  above_all = above;
  attained = from rest.attained (raise-attained t s q);
}
  where
    p : Peak
    p = raise_all t ss (raise t s q)

    above :
        (u : SweepPoint)
        → In u (s ∷ ss)
        → t u ≡ true
        → float_gt u.throughput_events_per_sec p.value ≡ false
    above u (inl e) k =
        subst (λ v. float_gt v.throughput_events_per_sec p.value ≡ false) (sym e)
          (raise_all-stays t ss (raise t s q) s.throughput_events_per_sec
            (raise-above t s q (subst (λ v. t v ≡ true) e k)))
    above u (inr m) k = rest.above_all u m k

    from :
        (p ≡ raise t s q) ⊎ ((u : SweepPoint) × In u ss × (t u ≡ true) × (p ≡ point u))
        → (raise t s q ≡ q) ⊎ ((t s ≡ true) × (raise t s q ≡ point s))
        → (p ≡ q) ⊎ ((u : SweepPoint) × In u (s ∷ ss) × (t u ≡ true) × (p ≡ point u))
    from (inr (u, m, k, e)) c = inr (u, inr m, k, e)
    from (inl e) (inl f) = inl (e ∙ f)
    from (inl e) (inr (k, f)) = inr (s, inl refl, k, e ∙ f)

raise_all-Highest :
    (t : SweepPoint → Bool) (ss : List SweepPoint) (q : Peak) → Highest t ss q (raise_all t ss q)
raise_all-Highest t [] q = record { above_all = λ s m k. absurd m; attained = inl refl }
raise_all-Highest t (s ∷ ss) q = Highest-cons t s ss q (raise_all-Highest t ss (raise t s q))

abbrev pub no_peak : Peak
no_peak = record { value = 0; phase = []; concurrency = pos 0; p99 = 0 }

-- Whatever is divided and printed how: no sweep's throughput is above the peak, and the peak, with its
-- phase, concurrency and p99, is that of a sweep, or is zero with nothing quoted; the same holds of the
-- peak on real infrastructure and the sweeps with that mark.
pub headlines-Highest :
    (divide : Float64 → Float64 → Float64) (format_2f : Float64 → Bytes) (r : Report)
    → Highest any_sweep r.sweeps no_peak (peak_of (headlines divide format_2f r))
      × Highest real_sweep r.sweeps no_peak (real_peak_of (headlines divide format_2f r))
unfolding headlines
headlines-Highest divide format_2f r = (
  subst (Highest any_sweep r.sweeps no_peak) (sym (peak_of-peaks r.sweeps (start r.machine_tag)))
      (raise_all-Highest any_sweep r.sweeps no_peak),
  subst (Highest real_sweep r.sweeps no_peak)
      (sym (real_peak_of-peaks r.sweeps (start r.machine_tag)))
      (raise_all-Highest real_sweep r.sweeps no_peak),
)
