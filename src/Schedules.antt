-- ===== src/Schedules.antt =====
-- `translate_day_of_week` of backend/app/core/cron.py: the day-of-week field of a crontab line in the
-- weekday names of APScheduler. A ValueError is none. Python's methods of texts are a parameter.
pub mod Weekdays
mod Examples
use proxsync.Prelude.{
  ℕ, zero, suc, ◌+◌, ◌-◌, ◌%◌, Bool, true, false, not, ◌&&◌, ◌||◌, Option, none, some, List, [],
  ◌∷◌, ◌++◌, ltb, leb, ◌==◌, length, filter, if◌then◌else◌,
}
use proxsync.Prelude.Text.{Text, codes, eq_text}

pub record Python : Type 0 where
  pub strip : Text → Text
  pub lower : Text → Text
  pub isdigit : Text → Bool
  pub int : Text → Option ℕ

-- `_CRONTAB_WEEKDAYS`
abbrev crontab_weekdays : List Text
crontab_weekdays =
    codes "sun"
    ∷ codes "mon"
    ∷ codes "tue"
    ∷ codes "wed"
    ∷ codes "thu"
    ∷ codes "fri"
    ∷ codes "sat"
    ∷ []

-- `_APSCHEDULER_ORDER`
abbrev apscheduler_order : List Text
apscheduler_order =
    codes "mon"
    ∷ codes "tue"
    ∷ codes "wed"
    ∷ codes "thu"
    ∷ codes "fri"
    ∷ codes "sat"
    ∷ codes "sun"
    ∷ []

-- `_WEEKDAY_TO_CRONTAB`
weekday_to_crontab : Text → ℕ → List Text → Option ℕ
weekday_to_crontab name index [] = none
weekday_to_crontab name index (other ∷ names) =
    let rest = weekday_to_crontab name (suc index) names in
    if eq_text name other then some index else rest

weekday_number : Option ℕ → Option ℕ
weekday_number none = none
weekday_number (some value) = if ltb 7 value then none else some (if value == 7 then 0 else value)

-- `_weekday_value`
pub weekday_value : Python → Text → Option ℕ
unfolding weekday_number weekday_to_crontab
weekday_value p token =
    let cleaned = p.lower (p.strip token) in
    if p.isdigit cleaned
    then weekday_number (p.int cleaned)
    else weekday_to_crontab cleaned 0 crontab_weekdays

-- `partition`: what stands before the first such character, whether there is one, and what follows it.
partition : ℕ → Text → (Text × Bool × Text)
partition separator [] = ([], false, [])
partition separator (c ∷ text) =
    let rest = partition separator text in
    if c == separator then ([], true, text) else (c ∷ rest.0, rest.1, rest.2)

positive : Option ℕ → Option ℕ
positive none = none
positive (some zero) = none
positive (some (suc n)) = some (suc n)

step_of : Python → Bool → Text → Option ℕ
unfolding positive
step_of p false step_text = some 1
step_of p true step_text = if p.isdigit step_text then positive (p.int step_text) else none

-- `range(start, start + count)`
pub from : ℕ → ℕ → List ℕ
from start zero = []
from start (suc count) = start ∷ from (suc start) count

-- The days of a range, which may go round the end of the week.
pub range_days : ℕ → ℕ → List ℕ
unfolding from
range_days start end =
    if leb start end
    then from start (end + 1 - start)
    else from start (7 - start) ++ from 0 (end + 1)

-- `ordered[::step]`: the elements whose place is a multiple of the step.
pub slice : ℕ → ℕ → List ℕ → List ℕ
slice step place [] = []
slice step place (day ∷ days) =
    let rest = slice step (suc place) days in if place % step == 0 then day ∷ rest else rest

bounded : Option ℕ → Option ℕ → Option (List ℕ)
unfolding range_days
bounded none end = none
bounded (some start) none = none
bounded (some start) (some end) = some (range_days start end)

single : ℕ → Option ℕ → Option (List ℕ)
unfolding from
single step none = none
single step (some first) = some (if ltb 1 step then from first (7 - first) else first ∷ [])

-- The `ordered` of `_weekday_token`.
ordered_days : Python → ℕ → Text → Option (List ℕ)
unfolding bounded single weekday_value partition from
ordered_days p step base =
    if eq_text base (codes "*")
    then some (from 0 7)
    else let parts = partition 45 base in
      if parts.1
      then bounded (weekday_value p parts.0) (weekday_value p parts.2)
      else single step (weekday_value p base)

sliced : ℕ → Option (List ℕ) → Option (List ℕ)
unfolding slice
sliced step none = none
sliced step (some days) = some (slice step 0 days)

stepped : Python → Text → Option ℕ → Option (List ℕ)
unfolding sliced ordered_days
stepped p base none = none
stepped p base (some step) = sliced step (ordered_days p step base)

-- `_weekday_token`
pub weekday_token : Python → Text → Option (List ℕ)
unfolding stepped step_of partition
weekday_token p token =
    let parts = partition 47 (p.strip token) in
    stepped p (p.strip parts.0) (step_of p parts.1 parts.2)

pub is_in : ℕ → List ℕ → Bool
is_in day [] = false
is_in day (other ∷ days) = other == day || is_in day days

-- `days |= …`
union : List ℕ → List ℕ → List ℕ
unfolding is_in
union days [] = days
union days (day ∷ more) = union (if is_in day days then days else days ++ day ∷ []) more

-- `field.split(",")`
split_comma : Text → (Text × List Text)
split_comma [] = ([], [])
split_comma (c ∷ text) =
    let rest = split_comma text in if c == 44 then ([], rest.0 ∷ rest.1) else (c ∷ rest.0, rest.1)

is_empty : Text → Bool
is_empty [] = true
is_empty (c ∷ text) = false

joined_days : Option (List ℕ) → Option (List ℕ) → Option (List ℕ)
unfolding union
joined_days none more = none
joined_days (some days) none = none
joined_days (some days) (some more) = some (union days more)

-- The loop over the parts of the field.
selected : Python → Option (List ℕ) → List Text → Option (List ℕ)
unfolding joined_days weekday_token is_empty
selected p days [] = days
selected p days (part ∷ parts) =
    selected p (if is_empty (p.strip part) then none else joined_days days (weekday_token p part))
      parts

name_selected : List ℕ → Text → Bool
unfolding is_in weekday_to_crontab
name_selected days name = named (weekday_to_crontab name 0 crontab_weekdays)
  where
    named : Option ℕ → Bool
    named none = false
    named (some day) = is_in day days

join_comma : List Text → Text
join_comma [] = []
join_comma (name ∷ []) = name
join_comma (name ∷ other ∷ names) = name ++ 44 ∷ join_comma (other ∷ names)

render : Option (List ℕ) → Option Text
unfolding name_selected join_comma
render none = none
render (some []) = none
render (some (day ∷ days)) =
    if length (day ∷ days) == 7
    then some (codes "*")
    else some (join_comma (filter (name_selected (day ∷ days)) apscheduler_order))

-- `translate_day_of_week`
pub translate_day_of_week : Python → Text → Option Text
unfolding render selected split_comma
translate_day_of_week p field =
    if eq_text (p.strip field) (codes "*")
    then some (codes "*")
    else let parts = split_comma field in render (selected p (some []) (parts.0 ∷ parts.1))

-- What `CronTrigger` is built from, beside the time zone; the library then checks the fields itself.
pub record TriggerFields : Type 0 where
  pub minute : Text
  pub hour : Text
  pub day : Text
  pub month : Text
  pub day_of_week : Text

trigger_with : Text → Text → Text → Text → Option Text → Option TriggerFields
trigger_with minute hour day month none = none
trigger_with minute hour day month (some day_of_week) =
    some
      (record { minute = minute; hour = hour; day = day; month = month; day_of_week = day_of_week })

-- `build_trigger` on the fields of the expression, up to the call of `CronTrigger`.
pub build_trigger : Python → List Text → Option TriggerFields
unfolding trigger_with translate_day_of_week
build_trigger p (minute ∷ hour ∷ day ∷ month ∷ day_of_week ∷ []) =
    if not (eq_text (p.strip day) (codes "*")) && not (eq_text (p.strip day_of_week) (codes "*"))
    then none
    else trigger_with minute hour day month (translate_day_of_week p day_of_week)
build_trigger p _ = none
