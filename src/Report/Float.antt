-- ===== src/Report/Float.antt =====
-- Go's `>` on float64, on the bit patterns (used by internal/report/headlines.go).
use sluice_gate_telemetery_i.Base.{
  ℕ, ◌+◌, ◌%◌, ◌^◌, ◌≡◌, Bool, true, false, ◌&&◌, ltb, leb, arith, if◌then◌else◌,
}
use sluice_gate_telemetery_i.Report.{Float64}

abbrev pub sign_bit : ℕ
sign_bit = 2 ^ 63

-- All exponent bits set, no bit of the fraction.
abbrev pub infinity : Float64
infinity = 9218868437227405312

abbrev pub magnitude : Float64 → ℕ
magnitude x = x % sign_bit

abbrev pub is_negative : Float64 → Bool
is_negative x = leb sign_bit x

-- A number, and not NaN.
abbrev pub is_number : Float64 → Bool
is_number x = leb (magnitude x) infinity

-- `x > y` of numbers: by sign and magnitude, where the two zeros are the same.
abbrev pub number_gt : Float64 → Float64 → Bool
number_gt x y =
    if is_negative x
    then is_negative y && ltb (magnitude x) (magnitude y)
    else (if is_negative y
        then ltb 0 (magnitude x + magnitude y)
        else ltb (magnitude y) (magnitude x))

-- `x > y`: false if either is NaN.
unfoldable pub float_gt : Float64 → Float64 → Bool
float_gt x y = (is_number x && is_number y) && number_gt x y

pub float_gt_trans :
    (x y z : Float64) → float_gt x y ≡ true → float_gt y z ≡ true → float_gt x z ≡ true
unfolding float_gt
float_gt_trans x y z h k = ground arith

pub float_gt_irrefl : (x : Float64) → float_gt x x ≡ false
unfolding float_gt
float_gt_irrefl x = ground arith

-- What is not above y is not above anything that is above y, unless it is NaN.
pub float_gt-stays :
    (x y z : Float64) → float_gt x y ≡ false → float_gt z y ≡ true → float_gt x z ≡ false
unfolding float_gt
float_gt-stays x y z h k = ground arith
