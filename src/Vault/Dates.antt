-- ===== src/Vault/Dates.antt =====
-- `datetime.date`, as the vault uses it: its order, and `replace`.
use treble_tracker.Prelude.{
  ℕ, ◌%◌, Option, none, some, Bool, ◌&&◌, ◌||◌, not, ltb, leb, nat_eqb, if◌then◌else◌,
}
use treble_tracker.Prelude.Int.{ℤ, pos, negsuc}

pub record Date : Type 0 where
  -- from MINYEAR to MAXYEAR
  pub year : ℕ
  pub month : ℕ
  pub day : ℕ

-- the Gregorian rule
abbrev pub is_leap : (year : ℕ) → Bool
is_leap y = nat_eqb (y % 4) 0 && (not (nat_eqb (y % 100) 0) || nat_eqb (y % 400) 0)

-- `a <= b`
unfoldable pub date_le : Date → Date → Bool
date_le a b =
    ltb a.year b.year
    || nat_eqb a.year b.year && (ltb a.month b.month || nat_eqb a.month b.month && leb a.day b.day)

-- MINYEAR to MAXYEAR
abbrev pub year_in_range : ℤ → Option ℕ
year_in_range (pos y) = if leb 1 y && leb y 9999 then some y else none
year_in_range (negsuc n) = none

abbrev is_leap_day : Date → Bool
is_leap_day d = nat_eqb d.month 2 && nat_eqb d.day 29

-- `d.replace(year=y)`; `none` is `ValueError`.
unfoldable pub replace_year : Date → ℤ → Option Date
replace_year d y = elim (year_in_range y) [
  | none ↦ none
  | some year ↦
      if is_leap_day d && not (is_leap year) then none else some (record d { year = year })
]

-- `d.replace(year=y, day=1, month=3)`
unfoldable pub replace_first_of_march : ℤ → Option Date
replace_first_of_march y = elim (year_in_range y) [
  | none ↦ none
  | some year ↦ some (record { year = year; month = 3; day = 1 })
]
