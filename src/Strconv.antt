-- ===== src/Strconv.antt =====
-- Go's decimal prints (`strconv.Itoa`, `strconv.FormatInt`, `%d`), as far as the program uses them,
-- and a reader to state that a print determines its number.
use sluice_gate_telemetery_i.Base.{
  ℕ, zero, suc, ◌+◌, ◌-◌, ◌*◌, ◌/◌, ◌%◌, ◌≤◌, ◌<◌, ℤ, pos, negsuc, Bytes, codes, ◌≡◌, refl, ap, sym,
  ◌∙◌, [], ◌∷◌, ◌==◌, if◌then◌else◌, All, arith, Bool-cases, inl, inr,
}

-- The digits of n before `out`, at most as many as the fuel.
emit : ℕ → ℕ → Bytes → Bytes
emit zero n out = out
emit (suc f) n out =
    let rest = emit f (n / 10) ((b'0' + n % 10) ∷ out) in
    if n / 10 == 0 then (b'0' + n % 10) ∷ out else rest

-- n + 1 rounds are enough, since each divides n by ten.
unfoldable pub format_nat : ℕ → Bytes
unfolding emit
format_nat n = emit (suc n) n []

unfoldable pub format_int : ℤ → Bytes
unfolding format_nat
format_int (pos n) = format_nat n
format_int (negsuc n) = b'-' ∷ format_nat (suc n)

pub read : ℕ → Bytes → ℕ
read v [] = v
read v (c ∷ s) = read (v * 10 + (c - b'0')) s

negate : ℕ → ℤ
negate zero = pos 0
negate (suc n) = negsuc n

pub read_int : Bytes → ℤ
read_int [] = pos 0
read_int (c ∷ s) = if c == b'-' then negate (read 0 s) else pos (read 0 (c ∷ s))

read-emit : (f n : ℕ) (out : Bytes) → n < f → read 0 (emit f n out) ≡ read n out
unfolding emit read
read-emit zero n out h = elim h [ ]
read-emit (suc f) n out h = ground (arith, read-emit f (n / 10) ((b'0' + n % 10) ∷ out))

abbrev pub IsDigit : ℕ → Type 0
IsDigit c = (b'0' ≤ c) × (c ≤ b'9')

emit-IsDigit : (f n : ℕ) (out : Bytes) → All IsDigit out → All IsDigit (emit f n out)
unfolding emit
emit-IsDigit zero n out h = h
emit-IsDigit (suc f) n out h = ground (arith, emit-IsDigit f (n / 10) ((b'0' + n % 10) ∷ out))

pub format_nat-IsDigit : (n : ℕ) → All IsDigit (format_nat n)
unfolding format_nat
format_nat-IsDigit n = emit-IsDigit (suc n) n [] tt

pub read-format_nat : (n : ℕ) → read 0 (format_nat n) ≡ n
unfolding format_nat
read-format_nat n = read-emit (suc n) n [] (omega arith) ∙ (unfold read in refl)

emit-cons : (f n : ℕ) (out : Bytes) → (d : ℕ) × (ds : Bytes) × (emit (suc f) n out ≡ d ∷ ds)
unfolding emit
emit-cons zero n out = (b'0' + n % 10, out, ground arith)
emit-cons (suc f) n out = elim (Bool-cases (n / 10 == 0)) [
  | inl done ↦ (b'0' + n % 10, out, rw done refl)
  | inr more ↦ let (d, ds, e) = emit-cons f (n / 10) ((b'0' + n % 10) ∷ out) in (d, ds, rw more e)
]

-- A number is printed with at least one digit.
pub format_nat-cons : (n : ℕ) → (d : ℕ) × (ds : Bytes) × (format_nat n ≡ d ∷ ds)
unfolding format_nat
format_nat-cons n = emit-cons n n []

-- Two numbers with one print are equal.
pub format_nat-injective : (m n : ℕ) → format_nat m ≡ format_nat n → m ≡ n
format_nat-injective m n e = sym (read-format_nat m) ∙ ap (read 0) e ∙ read-format_nat n

read_int-digits : (s : Bytes) → All IsDigit s → read_int s ≡ pos (read 0 s)
unfolding read_int read
read_int-digits [] h = refl
read_int-digits (c ∷ s) h = ground arith

-- Every signed number is read back from its print.
pub read_int-format_int : (z : ℤ) → read_int (format_int z) ≡ z
unfolding format_int
read_int-format_int (pos n) =
    read_int-digits (format_nat n) (format_nat-IsDigit n) ∙ ap pos (read-format_nat n)
read_int-format_int (negsuc n) =
    unfold read_int in ap negate (read-format_nat (suc n)) ∙ (unfold negate in refl)

prints : format_int (negsuc 0) ≡ codes "-1"
unfolding format_int
prints = refl
