-- ===== src/Config/Months.antt =====
-- Shifting a month there and back.
use get_receipt.Base.{◌<◌, ℕ, ◌+◌, ◌-◌, ◌≤◌, ◌≡◌, arith}
use get_receipt.Base.Integers.{negate, ℤ, pos, negsuc, ◌+ℤ◌, dozens, div_dozen, mod_dozen}
use get_receipt.Config.{shift_month}

-- The month that stands at an index, as the year and the month.
dozens-div_dozen : (n : ℤ) → dozens (div_dozen n) +ℤ pos (mod_dozen n + 1 - 1) ≡ n
dozens-div_dozen (pos n) = ground arith
dozens-div_dozen (negsuc n) = ground arith

-- A shift gives a month from 1 to 12.
pub shift_month-range :
    (year : ℤ) (month : ℕ) (delta : ℤ)
    → (1 ≤ (shift_month year month delta).1) × ((shift_month year month delta).1 ≤ 12)
unfolding shift_month
shift_month-range year month delta = ground arith

add-negate : (a d : ℤ) → a +ℤ d +ℤ negate d ≡ a
add-negate a d = ground arith

div_dozen-dozens : (year : ℤ) (k : ℕ) → k < 12 → div_dozen (dozens year +ℤ pos k) ≡ year
div_dozen-dozens year k lt = ground arith

mod_dozen-dozens : (year : ℤ) (k : ℕ) → k < 12 → mod_dozen (dozens year +ℤ pos k) ≡ k
mod_dozen-dozens year k lt = ground arith

-- For a month from 1 to 12, a shift and then the shift by the opposite offset give the year and the
-- month back.
pub shift_month-shift_month :
    (year : ℤ) (month : ℕ) (delta : ℤ)
    → 1 ≤ month
    → month ≤ 12
    → (let (year', month') = shift_month year month delta in
        shift_month year' month' (negate delta))
      ≡ (year, month)
unfolding shift_month
shift_month-shift_month year month delta low high =
    let index = dozens year +ℤ pos (month - 1) in
    rw
      (
        dozens-div_dozen (index +ℤ delta),
        add-negate index delta,
        div_dozen-dozens year (month - 1) (omega arith),
        mod_dozen-dozens year (month - 1) (omega arith),
      )
      (ground arith)
