-- ===== src/Report/Files.antt =====
-- Which result file is which: the patterns and the `switch` of internal/report/data.go.
use sluice_gate_telemetery_i.Base.{
  ℕ, zero, suc, ◌-◌, ◌^◌, ℤ, pos, Bytes, codes, [], ◌∷◌, length, Bool, not, ◌&&◌, Option, none,
  some, ltb, leb, if◌then◌else◌,
}
use sluice_gate_telemetery_i.Strconv.{read}
use sluice_gate_telemetery_i.Report.Markers.{match_prefix, match_suffix, drop}

abbrev pub and_then : {A B : Type 0} → Option A → (A → Option B) → Option B
and_then none f = none
and_then (some a) f = f a

-- `\d`.
abbrev pub is_digit : ℕ → Bool
is_digit c = leb b'0' c && leb c b'9'

-- The digits at the beginning, and the rest.
abbrev pub span_digits : Bytes → Bytes × Bytes
span_digits [] = ([], [])
span_digits (c ∷ s) =
    let rest = span_digits s in if is_digit c then (c ∷ rest.0, rest.1) else ([], c ∷ s)

-- `(\d+)`, where what follows in the pattern is no digit.
abbrev pub some_digits : Bytes → Option (Bytes × Bytes)
some_digits s = non_empty (span_digits s)
  where
    non_empty : Bytes × Bytes → Option (Bytes × Bytes)
    non_empty ([], rest) = none
    non_empty (c ∷ cs, rest) = some (c ∷ cs, rest)

-- `\d{n}`.
abbrev pub skip_digits : ℕ → Bytes → Option Bytes
skip_digits zero s = some s
skip_digits (suc n) [] = none
skip_digits (suc n) (c ∷ s) = let rest = skip_digits n s in if is_digit c then rest else none

-- A text of the pattern.
abbrev pub literal : Bytes → Bytes → Option Bytes
literal text s = if match_prefix s text then some (drop s (length text)) else none

abbrev pub at_end : Bytes → Option Bytes
at_end [] = some []
at_end (c ∷ s) = none

-- `_\d{8}T\d{6}Z\.json$`.
unfoldable pub timestamp_json : Bytes → Option Bytes
unfolding match_prefix
timestamp_json s = and_then (literal (codes "_") s) (λ a. and_then (skip_digits 8 a) (λ b.
    and_then (literal (codes "T") b)
      (λ c. and_then (skip_digits 6 c) (λ d. and_then (literal (codes "Z.json") d) at_end))))

-- sweepFileRe, with what its first group matches.
unfoldable pub sweep_file : Bytes → Option Bytes
unfolding timestamp_json match_prefix
sweep_file name = and_then (literal (codes "phase") name) (λ a. and_then (some_digits a) (λ m.
    and_then (literal (codes "_c") m.1)
      (λ b. and_then (some_digits b) (λ n. and_then (timestamp_json n.1) (λ u. some m.0)))))

-- scalingRealFileRe, likewise.
unfoldable pub scaling_real_file : Bytes → Option Bytes
unfolding timestamp_json match_prefix
scaling_real_file name =
    and_then (literal (codes "phase4_scaling_r") name)
      (λ a. and_then (some_digits a) (λ m. and_then (timestamp_json m.1) (λ u. some m.0)))

-- `strconv.Atoi` of digits: out of range it gives the largest int, with an error that is dropped.
unfoldable pub atoi : Bytes → ℤ
atoi s = if ltb (read 0 s) (2 ^ 63) then pos (read 0 s) else pos (2 ^ 63 - 1)

-- The cases of the `switch`.
pub data FileKind : Type 0 where
  sweep_kind : Bytes → FileKind
  loss_kind correctness_kind backpressure_kind blocked_kind : FileKind
  scaling_kind : Bytes → FileKind
  other_kind : FileKind

unfoldable pub file_kind : Bytes → FileKind
unfolding sweep_file scaling_real_file match_prefix match_suffix
file_kind name = elim (sweep_file name) [
  | some m ↦ sweep_kind m
  | none ↦
      if match_prefix name (codes "phase1_losstest_")
      then loss_kind
      else (if match_prefix name (codes "phase2_correctness_")
          then correctness_kind
          else (if match_prefix name (codes "phase3_backpressure_")
                && not (match_prefix name (codes "phase3_backpressure_load_"))
              then backpressure_kind
              else (if match_prefix name (codes "phase4_scaling_")
                    && match_suffix name (codes "_BLOCKED.json")
                  then blocked_kind
                  else (elim (scaling_real_file name) [
                    | some m ↦ scaling_kind m
                    | none ↦ other_kind
                  ]))))
]
