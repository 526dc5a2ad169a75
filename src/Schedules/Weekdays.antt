-- ===== src/Schedules/Weekdays.antt =====
-- Which days a range of weekdays with a step selects.
use proxsync.Prelude.{
  ℕ, zero, suc, ◌+◌, ◌-◌, ◌%◌, ◌<◌, ◌≡◌, refl, ap, ◌∙◌, true, false, ◌&&◌, ◌||◌, inl, inr, List, [],
  ◌∷◌, ◌++◌, ltb, leb, ◌==◌, length, arith, Bool-cases, if◌then◌else◌,
}
use proxsync.Schedules.{from, range_days, slice, is_in}

slice-append :
    (step place : ℕ) (days more : List ℕ)
    → slice step place (days ++ more)
      ≡ slice step place days ++ slice step (place + length days) more
unfolding slice
slice-append step place [] more = ap (λ n. slice step n more) (omega arith)
slice-append step place (day ∷ days) more =
    let shifted : suc place + length days ≡ place + suc (length days) = omega arith in
    let rest =
      slice-append step (suc place) days more
      ∙ ap (λ n. slice step (suc place) days ++ slice step n more) shifted in
    elim (Bool-cases (place % step == 0)) [
      | inl here ↦ simp here (ap (λ l. day ∷ l) rest)
      | inr passed ↦ simp passed rest
    ]

is_in-append :
    (day : ℕ) (days more : List ℕ) → is_in day (days ++ more) ≡ (is_in day days || is_in day more)
unfolding is_in
is_in-append day [] more = refl
is_in-append day (other ∷ days) more = ground (arith, is_in-append day days more)

length-from : (start count : ℕ) → length (from start count) ≡ count
unfolding from
length-from start zero = refl
length-from start (suc count) = ground (arith, length-from (suc start) count)

-- A day of a straight range stands at its distance from the start.
is_in-slice_from :
    (step place day start count : ℕ)
    → is_in day (slice step place (from start count))
      ≡ (leb start day && ltb day (start + count) && (place + (day - start)) % step == 0)
unfolding from slice is_in
is_in-slice_from step place day start zero = ground arith
is_in-slice_from step place day start (suc count) =
    let rest = is_in-slice_from step (suc place) day (suc start) count in
    elim (Bool-cases (ltb start day)) [
      | inl above ↦
          let same : suc place + (day - suc start) ≡ place + (day - start) =
            ground (arith, above) in
          let k = ap (λ n. n % step == 0) same in
          elim (Bool-cases (place % step == 0)) [
            | inl here ↦ simp here (ground (arith, rest, k, above))
            | inr passed ↦ simp passed (ground (arith, rest, k, above))
          ]
      | inr below ↦ elim (Bool-cases (start == day)) [
        | inl first ↦
            let same : place + (day - start) ≡ place = ground (arith, first) in
            let k = ap (λ n. n % step == 0) same in
            elim (Bool-cases (place % step == 0)) [
              | inl here ↦ simp here (ground (arith, rest, k, here, first))
              | inr passed ↦ simp passed (ground (arith, rest, k, passed, first))
            ]
        | inr other ↦ elim (Bool-cases (place % step == 0)) [
          | inl here ↦ simp here (ground (arith, rest, below, other))
          | inr passed ↦ simp passed (ground (arith, rest, below, other))
        ]
      ]
    ]

-- How far a day of the week lies after the start, going round the end of the week.
abbrev pub distance : ℕ → ℕ → ℕ
distance start day = if leb start day then day - start else 7 - start + day

-- A straight range, read by distances.
straight_day :
    (step start end day : ℕ)
    → leb start end ≡ true
    → end < 7
    → (leb start day && ltb day (start + (end + 1 - start)) && (0 + (day - start)) % step == 0)
      ≡ (leb (distance start day) (end - start) && distance start day % step == 0)
straight_day step start end day straight high = elim (Bool-cases (leb start day)) [
  | inl after ↦
      let same : 0 + (day - start) ≡ day - start = omega arith in
      let k = ap (λ n. n % step == 0) same in simp after (ground (arith, k, straight, after))
  | inr before ↦ simp before (ground (arith, straight, before, high))
]

-- A range round the end of the week, read by distances.
round_day :
    (step start end day : ℕ)
    → leb start end ≡ false
    → start < 7
    → day < 7
    → ((leb start day && ltb day (start + (7 - start)) && (0 + (day - start)) % step == 0)
        || (leb 0 day && ltb day (0 + (end + 1)) && (7 - start + (day - 0)) % step == 0))
      ≡ (leb (distance start day) (7 - start + end) && distance start day % step == 0)
round_day step start end day round low inside = elim (Bool-cases (leb start day)) [
  | inl after ↦
      let same : 0 + (day - start) ≡ day - start = omega arith in
      let k = ap (λ n. n % step == 0) same in
      simp after (ground (arith, k, round, after, low, inside))
  | inr before ↦
      let same : 7 - start + (day - 0) ≡ 7 - start + day = omega arith in
      let k = ap (λ n. n % step == 0) same in
      simp before (ground (arith, k, round, before, low, inside))
]

round_place : (start : ℕ) → 0 + length (from start (7 - start)) ≡ 7 - start
round_place start = omega (arith, length-from start (7 - start))

-- A day of the week is selected by a range with a step just if it lies no further after the start than the
-- end of the range does, going round the end of the week, and at a multiple of the step.
pub slice-range_days :
    (step start end day : ℕ)
    → start < 7
    → end < 7
    → day < 7
    → is_in day (slice step 0 (range_days start end))
      ≡ (leb (distance start day) (distance start end) && distance start day % step == 0)
unfolding range_days
slice-range_days step start end day low high inside = elim (Bool-cases (leb start end)) [
  | inl straight ↦ simp straight (
      is_in-slice_from step 0 day start (end + 1 - start)
      ∙ straight_day step start end day straight high)
  | inr round ↦ simp round (
      ap (is_in day) (slice-append step 0 (from start (7 - start)) (from 0 (end + 1)))
      ∙ is_in-append day (slice step 0 (from start (7 - start)))
          (slice step (0 + length (from start (7 - start))) (from 0 (end + 1)))
      ∙ ap
          (λ n.
            is_in day (slice step 0 (from start (7 - start)))
            || is_in day (slice step n (from 0 (end + 1))))
          (round_place start)
      ∙ ap (λ b. b || is_in day (slice step (7 - start) (from 0 (end + 1))))
          (is_in-slice_from step 0 day start (7 - start))
      ∙ ap
          (λ b.
            (leb start day && ltb day (start + (7 - start)) && (0 + (day - start)) % step == 0)
            || b)
          (is_in-slice_from step (7 - start) day 0 (end + 1))
      ∙ round_day step start end day round low inside)
]
