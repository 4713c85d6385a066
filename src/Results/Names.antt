-- ===== src/Results/Names.antt =====
-- The names of result files (internal/results/phase0.go) against the patterns of internal/report/data.go.
use sluice_gate_telemetery_i.Base.{
  ℕ, ◌≡◌, refl, ap, ◌∙◌, Bytes, codes, [], ◌∷◌, ◌++◌, append_assoc, length, length-append, beq,
  true, false, ◌&&◌, some, leb, All, arith, beq_refl,
}
use sluice_gate_telemetery_i.Strconv.{format_nat, format_nat-cons, format_nat-IsDigit, IsDigit}
use sluice_gate_telemetery_i.Report.Markers.{match_prefix, take, drop-append}
use sluice_gate_telemetery_i.Report.Files.{
  is_digit, span_digits, some_digits, literal, timestamp_json, sweep_file, file_kind, sweep_kind,
}
use sluice_gate_telemetery_i.Results.{Time, digit, timestamp, result_name, sweep_prefix}

digit-is_digit : (n : ℕ) → is_digit (digit n) ≡ true
digit-is_digit n = ground arith

take-append : (text s : Bytes) → take (text ++ s) (length text) ≡ text
take-append [] s = refl
take-append (c ∷ text) s = ap (c ∷◌) (take-append text s)

match_prefix-append : (text s : Bytes) → match_prefix (text ++ s) text ≡ true
unfolding match_prefix
match_prefix-append text s =
    ap (leb (length text) (length (text ++ s)) &&◌)
      (ap (λ a. beq a text) (take-append text s) ∙ beq_refl text)
    ∙ ground (arith, length-append text s)

literal-append : (text s : Bytes) → literal text (text ++ s) ≡ some s
literal-append text s = rw (match_prefix-append text s) (ap some (drop-append text s))

timestamp_json-timestamp :
    (t : Time) → timestamp_json (codes "_" ++ (timestamp t ++ codes ".json")) ≡ some []
unfolding timestamp_json timestamp match_prefix
timestamp_json-timestamp t = simp digit-is_digit

-- Digits ahead of something else are read whole.
span_digits-all :
    (ds : Bytes) (c : ℕ) (s : Bytes)
    → All IsDigit ds
    → is_digit c ≡ false
    → span_digits (ds ++ c ∷ s) ≡ (ds, c ∷ s)
span_digits-all [] c s h n = rw n refl
span_digits-all (d ∷ ds) c s h n =
    let first : is_digit d ≡ true = ground (arith, h.0) in
    rw (first, span_digits-all ds c s h.1 n) refl

some_digits-format_nat :
    (n c : ℕ) (s : Bytes)
    → is_digit c ≡ false
    → some_digits (format_nat n ++ c ∷ s) ≡ some (format_nat n, c ∷ s)
some_digits-format_nat n c s h =
    let (d, ds, e) = format_nat-cons n in
    rw (span_digits-all (format_nat n) c s (format_nat-IsDigit n) h, e) refl

-- The rest of a name behind its prefix.
abbrev stamped : Time → Bytes
stamped t = codes "_" ++ (timestamp t ++ codes ".json")

sweep_name-parts :
    (phase concurrency : ℕ) (t : Time)
    → result_name (sweep_prefix phase concurrency) t
      ≡ codes "phase" ++ (format_nat phase ++ (codes "_c" ++ (format_nat concurrency ++ stamped t)))
unfolding result_name
sweep_name-parts phase concurrency t =
    append_assoc (codes "phase") (format_nat phase ++ (codes "_c" ++ format_nat concurrency))
      (stamped t)
    ∙ ap (codes "phase" ++◌) (
        append_assoc (format_nat phase) (codes "_c" ++ format_nat concurrency) (stamped t)
        ∙ ap (format_nat phase ++◌)
            (append_assoc (codes "_c") (format_nat concurrency) (stamped t)))

sweep_file-parts :
    (phase concurrency : ℕ) (t : Time)
    → sweep_file (
        codes "phase"
        ++ (format_nat phase ++ (codes "_c" ++ (format_nat concurrency ++ stamped t))))
      ≡ some (format_nat phase)
unfolding sweep_file
sweep_file-parts phase concurrency t =
    let tail = format_nat concurrency ++ stamped t in
    rw
      (
        literal-append (codes "phase") (format_nat phase ++ (codes "_c" ++ tail)),
        some_digits-format_nat phase b'_' (codes "c" ++ tail) refl,
        literal-append (codes "_c") tail,
        some_digits-format_nat concurrency b'_' (timestamp t ++ codes ".json") refl,
        timestamp_json-timestamp t,
      )
      refl

file_kind-sweep : (name m : Bytes) → sweep_file name ≡ some m → file_kind name ≡ sweep_kind m
unfolding file_kind
file_kind-sweep name m h = rw (h, file_kind)

-- The file that cmd/loadgen writes with the prefix of a phase and a concurrency, at any time, is one
-- that `Load` takes for a sweep of that phase.
pub file_kind-result_name :
    (phase concurrency : ℕ) (t : Time)
    → file_kind (result_name (sweep_prefix phase concurrency) t) ≡ sweep_kind (format_nat phase)
file_kind-result_name phase concurrency t =
    file_kind-sweep (result_name (sweep_prefix phase concurrency) t) (format_nat phase)
      (ap sweep_file (sweep_name-parts phase concurrency t) ∙ sweep_file-parts phase concurrency t)
