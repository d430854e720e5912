-- ===== src/Config/Selectable.antt =====
-- `selectable_months` of cloud/src/config.py.
use get_receipt.Base.{
  ℕ, zero, suc, ◌+◌, ◌-◌, ◌*◌, ◌/◌, ◌%◌, ◌<◌, ◌≤◌, String, Bool, true, ◌&&◌, ◌||◌, Option, none,
  some, List, [], ◌∷◌, ◌≡◌, refl, ap, ◌∙◌, ◌==◌, nat_eq, if◌then◌else◌, leb, ltb, arith, Bool-cases,
  inl, inr,
}
use get_receipt.Base.Integers.{ℤ, pos, negsuc}
use get_receipt.Config.{shift_month, month_key}

-- `(year, month) <= (current.year, current.month)`. The years of dates are positive.
abbrev pub not_after : ℤ → ℕ → ℕ → ℕ → Bool
not_after (pos year) month current_year current_month =
    ltb year current_year || year == current_year && leb month current_month
not_after (negsuc n) month current_year current_month = true

-- The loop, for a number of rounds; none when they do not reach its end.
unfoldable pub months_from : ℕ → ℤ × ℕ → ℕ → ℕ → Option (List String)
months_from zero (year, month) current_year current_month = none
months_from (suc rounds) (year, month) current_year current_month =
    let rest = months_from rounds (shift_month year month (pos 1)) current_year current_month in
    if not_after year month current_year current_month
    then elim rest [ none ↦ none | some months ↦ some (month_key year month ∷ months) ]
    else some []

-- `selectable_months`, from `TARGET_MONTH_START` to the current month.
unfoldable pub selectable_months : ℕ → ℕ → ℕ → Option (List String)
unfolding months_from
selectable_months rounds current_year current_month =
    months_from rounds (pos 2026, 1) current_year current_month

-- The months by their number since the year 0, and a run of them.
abbrev pub month_at : ℕ → ℤ × ℕ
month_at i = (pos (i / 12), i % 12 + 1)

abbrev pub month_keys : ℕ → ℕ → List String
month_keys i zero = []
month_keys i (suc n) = month_key (month_at i).0 (month_at i).1 ∷ month_keys (suc i) n

shift_month_at : (i : ℕ) → shift_month (month_at i).0 (month_at i).1 (pos 1) ≡ month_at (suc i)
unfolding shift_month
shift_month_at i = ground arith

not_after_at :
    (i current_year k : ℕ)
    → k < 12
    → not_after (month_at i).0 (month_at i).1 current_year (suc k) ≡ leb i (current_year * 12 + k)
not_after_at i current_year k lt = ground (arith, lt)

months_from_at :
    (rounds i current_year k : ℕ)
    → k < 12
    → suc (current_year * 12 + k) - i < rounds
    → months_from rounds (month_at i) current_year (suc k)
      ≡ some (month_keys i (suc (current_year * 12 + k) - i))
unfolding months_from
months_from_at zero i current_year k lt enough = absurd (omega (arith, enough))
months_from_at (suc rounds) i current_year k lt enough =
    elim (Bool-cases (leb i (current_year * 12 + k))) [
      | inl e ↦
          let more : suc (current_year * 12 + k) - i ≡ suc (suc (current_year * 12 + k) - suc i) =
            ground (arith, e) in
          rw (not_after_at i current_year k lt, e, more, shift_month_at i)
            (rw (months_from_at rounds (suc i) current_year k lt (ground (arith, enough, e))) refl)
      | inr e ↦
          let over : suc (current_year * 12 + k) - i ≡ 0 = ground (arith, e) in
          rw (not_after_at i current_year k lt, e, over) refl
    ]

-- With more rounds than there are months from January 2026 to the current month, the selectable months
-- are the keys of these months in order, and none when the current month is before them.
pub selectable_months-month_keys :
    (rounds current_year current_month : ℕ)
    → 1 ≤ current_month
    → current_month ≤ 12
    → current_year * 12 + current_month - 24312 < rounds
    → selectable_months rounds current_year current_month
      ≡ some (month_keys 24312 (current_year * 12 + current_month - 24312))
unfolding selectable_months
selectable_months-month_keys rounds current_year zero low high enough = absurd (omega (arith, low))
selectable_months-month_keys rounds current_year (suc k) low high enough =
    let same : suc (current_year * 12 + k) - 24312 ≡ current_year * 12 + suc k - 24312 =
      omega arith in
    months_from_at rounds 24312 current_year k (omega (arith, high)) (omega (arith, enough))
    ∙ ap (λ (n : ℕ). some (month_keys 24312 n)) same
