-- ===== src/Schedules/Examples.antt =====
-- The day-of-week field translated with ASCII digits, and each property at a concrete input.
use proxsync.Prelude.{
  ℕ, ◌+◌, ◌-◌, ◌*◌, ◌≡◌, refl, Bool, true, false, ◌&&◌, Option, none, some, [], ◌∷◌, leb, arith,
}
use proxsync.Prelude.Text.{Text, codes}
use proxsync.Schedules.{Python, range_days, slice, is_in, translate_day_of_week, build_trigger}
use proxsync.Schedules.Weekdays.{slice-range_days}

digits : Text → Bool
digits [] = true
digits (c ∷ text) = leb 48 c && leb c 57 && digits text

filled : Text → Bool
filled [] = false
filled (c ∷ text) = true

value : ℕ → Text → ℕ
value n [] = n
value n (c ∷ text) = value (n * 10 + (c - 48)) text

ascii_isdigit : Text → Bool
unfolding digits filled
ascii_isdigit text = filled text && digits text

ascii_int : Text → Option ℕ
unfolding value
ascii_int text = some (value 0 text)

abbrev ascii : Python
ascii = record {
  strip = λ text. text;
  lower = λ text. text;
  isdigit = ascii_isdigit;
  int = ascii_int;
}

sunday : translate_day_of_week ascii (codes "0") ≡ some (codes "sun")
unfolding translate_day_of_week ascii_isdigit ascii_int
sunday = refl

sunday_alias : translate_day_of_week ascii (codes "7") ≡ some (codes "sun")
unfolding translate_day_of_week ascii_isdigit ascii_int
sunday_alias = refl

round_the_week : translate_day_of_week ascii (codes "fri-mon") ≡ some (codes "mon,fri,sat,sun")
unfolding translate_day_of_week ascii_isdigit ascii_int
round_the_week = refl

each_second : translate_day_of_week ascii (codes "*/2") ≡ some (codes "tue,thu,sat,sun")
unfolding translate_day_of_week ascii_isdigit ascii_int
each_second = refl

all_days : translate_day_of_week ascii (codes "1-5,0,6") ≡ some (codes "*")
unfolding translate_day_of_week ascii_isdigit ascii_int
all_days = refl

refused : translate_day_of_week ascii (codes "1,8") ≡ none
unfolding translate_day_of_week ascii_isdigit ascii_int
refused = refl

slice-range_days_example : is_in 0 (slice 2 0 (range_days 5 1)) ≡ true
slice-range_days_example = slice-range_days 2 5 1 0 (omega arith) (omega arith) (omega arith)

-- A line that restricts both the day of the month and the day of the week is refused.
both_days :
    build_trigger ascii (codes "0" ∷ codes "1" ∷ codes "5" ∷ codes "*" ∷ codes "0" ∷ []) ≡ none
unfolding build_trigger
both_days = refl
