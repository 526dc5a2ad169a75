-- ===== src/Restore/System/Rows.antt =====
-- What the table of restores keeps to, beside the record of what was started on the host.
use mathlib.Core.Option
use mathlib.Core.Path.{subst}
use proxsync.Prelude.{
  ℕ, ◌+◌, ◌≤◌, ◌≡◌, refl, sym, ap, ◌∙◌, Bool, true, false, not, ◌||◌, inl, inr, Option, none, some,
  List, [], ◌∷◌, ◌++◌, map, ◌==◌, some-injective, count, count-append, All, arith, Bool-cases,
  Option-cases, is_some, if◌then◌else◌,
}
use proxsync.Retention.Types.{RestoreStatus}
use proxsync.Restore.Types.{RestoreRow}
use proxsync.Restore.Repository.{is_pending, is_running, is_in_flight, get_row, update_row}
use proxsync.Restore.Repository.Updates.{
  one_if, Distinct, get_row-update_row, count-update_row, update_row-absent, All-update_row,
  update_row-Distinct, All-get_row,
}
use proxsync.Restore.Steps.{RestorePlan}

-- Statuses that a restore has only after somebody confirmed it.
abbrev pub authorised : RestoreStatus → Bool
authorised RestoreStatus.pending_confirmation = false
authorised RestoreStatus.cancelled = false
authorised RestoreStatus.expired = false
authorised _ = true

-- Statuses of a restore that has not been claimed.
abbrev pub waits : RestoreStatus → Bool
waits RestoreStatus.pending_confirmation = true
waits RestoreStatus.confirmed = true
waits _ = false

-- How many times a restore was started on the host.
abbrev pub start_count : ℕ → List RestorePlan → ℕ
start_count id starts = count (λ p. p.restore_id == id) starts

-- A token is kept just while it may be used, what ran was confirmed, what was not claimed was not
-- started, and all else at most once, if it was confirmed.
abbrev pub RowOk : List RestorePlan → RestoreRow → Type 0
RowOk starts r =
    (is_some r.confirmation_token_hash ≡ is_pending r.status)
    × (not (authorised r.status) || is_some r.confirmed_at ≡ true)
    × (start_count r.id starts ≤ (if waits r.status then 0 else one_if (is_some r.confirmed_at)))

abbrev pub in_flight_row : RestoreRow → Bool
in_flight_row r = is_in_flight r.status

pub record AreSafe (starts : List RestorePlan) (rows : List RestoreRow) : Type 0 where
  pub distinct : Distinct rows
  pub each : All (RowOk starts) rows
  pub single : count in_flight_row rows ≤ 1
  pub known : All (λ p. is_some (get_row p.restore_id rows) ≡ true) starts

-- The restore is running.
abbrev pub running_row : Option RestoreRow → Bool
running_row none = false
running_row (some r) = is_running r.status

abbrev pub runs : ℕ → List RestoreRow → Bool
runs id rows = running_row (get_row id rows)

All-map-known :
    (rows after : List RestoreRow) (starts : List RestorePlan)
    → ((id : ℕ) → is_some (get_row id rows) ≡ true → is_some (get_row id after) ≡ true)
    → All (λ p. is_some (get_row p.restore_id rows) ≡ true) starts
    → All (λ p. is_some (get_row p.restore_id after) ≡ true) starts
All-map-known rows after [] keep h = tt
All-map-known rows after (p ∷ starts) keep h =
    (keep p.restore_id h.0, All-map-known rows after starts keep h.1)

-- A found row that changes in one of the ways that restores do.
pub record IsChange (starts : List RestorePlan) (rows : List RestoreRow)
    (f : RestoreRow → RestoreRow) (r : RestoreRow) : Type 0 where
  pub row : RowOk starts r → RowOk starts (f r)
  pub flight :
      count in_flight_row rows + one_if (in_flight_row (f r)) ≤ 1 + one_if (in_flight_row r)

module _ (starts : List RestorePlan) (id : ℕ) (f : RestoreRow → RestoreRow) (rows : List RestoreRow)
    (keeps : (r : RestoreRow) → (f r).id ≡ r.id) where
  known-update_row :
      (other : ℕ)
      → is_some (get_row other rows) ≡ true
      → is_some (get_row other (update_row id f rows)) ≡ true
  known-update_row other h = elim (Option-cases (get_row other rows)) [
    | inl absent ↦ ground (arith, get_row-update_row id f other rows keeps)
    | inr (r, found) ↦ ground (arith, get_row-update_row id f other rows keeps)
  ]

  pub update_row-AreSafe :
      (r : RestoreRow)
      → get_row id rows ≡ some r
      → IsChange starts rows f r
      → AreSafe starts rows
      → AreSafe starts (update_row id f rows)
  update_row-AreSafe r found change safe = record {
    distinct = update_row-Distinct id f rows keeps safe.distinct;
    each = All-update_row id f (RowOk starts) rows safe.each (λ u same ok.
        subst (λ v. RowOk starts (f v)) (some-injective r u (sym found ∙ same))
          (change.row (All-get_row (RowOk starts) id r rows safe.each found)));
    single = omega (arith, count-update_row id f in_flight_row r rows found, change.flight);
    known = All-map-known rows _ starts known-update_row safe.known;
  }

  -- The rows that are found stay so, and one that runs goes on if the change lets it.
  pub runs-update_row :
      (other : ℕ)
      → ((r : RestoreRow)
          → get_row id rows ≡ some r
          → is_running r.status ≡ true
          → is_running (f r).status ≡ true)
      → runs other rows ≡ true
      → runs other (update_row id f rows) ≡ true
  runs-update_row other goes_on h = elim (Option-cases (get_row other rows)) [
    | inl absent ↦ absurd (cc (ap running_row absent, h))
    | inr (r, found) ↦
        let ran : is_running r.status ≡ true = sym (ap running_row found) ∙ h in
        elim (Bool-cases (id == other)) [
          | inl same ↦
              let e : id ≡ other = ground arith in
              let found_id : get_row id rows ≡ some r =
                subst (λ j. get_row j rows ≡ some r) (sym e) found in
              simp (get_row-update_row id f other rows keeps, same, found) (goes_on r found_id ran)
          | inr foreign ↦ simp (get_row-update_row id f other rows keeps, foreign, found) ran
        ]
  ]

-- A change that finds its row, or finds none and changes nothing.
pub update_row-safe :
    (starts : List RestorePlan) (id : ℕ) (f : RestoreRow → RestoreRow) (rows : List RestoreRow)
    → ((r : RestoreRow) → (f r).id ≡ r.id)
    → ((r : RestoreRow) → get_row id rows ≡ some r → IsChange starts rows f r)
    → AreSafe starts rows
    → AreSafe starts (update_row id f rows)
update_row-safe starts id f rows keeps change safe = elim (Option-cases (get_row id rows)) [
  | inl absent ↦ rw (update_row-absent id f rows absent) safe
  | inr (r, found) ↦ update_row-AreSafe starts id f rows keeps r found (change r found) safe
]

-- A change of every row, one by one.
module _ (starts : List RestorePlan) (g : RestoreRow → RestoreRow)
    (keeps : (r : RestoreRow) → (g r).id ≡ r.id) where
  pub get_row-map :
      (id : ℕ) (rows : List RestoreRow) → get_row id (map g rows) ≡ Option.map g (get_row id rows)
  get_row-map id [] = refl
  get_row-map id (r ∷ rows) = ground (arith, keeps r, get_row-map id rows)

  map-Distinct : (rows : List RestoreRow) → Distinct rows → Distinct (map g rows)
  map-Distinct [] h = tt
  map-Distinct (r ∷ rows) h = ground (arith, keeps r, get_row-map r.id rows, map-Distinct rows)

  All-map :
      (rows : List RestoreRow)
      → ((r : RestoreRow) → RowOk starts r → RowOk starts (g r))
      → All (RowOk starts) rows
      → All (RowOk starts) (map g rows)
  All-map [] k h = tt
  All-map (r ∷ rows) k h = (k r h.0, All-map rows k h.1)

  count-map :
      (rows : List RestoreRow)
      → ((r : RestoreRow) → in_flight_row (g r) ≡ in_flight_row r)
      → count in_flight_row (map g rows) ≡ count in_flight_row rows
  count-map [] k = refl
  count-map (r ∷ rows) k = ground (arith, k r, count-map rows k)

  pub map-AreSafe :
      (rows : List RestoreRow)
      → ((r : RestoreRow) → RowOk starts r → RowOk starts (g r))
      → ((r : RestoreRow) → in_flight_row (g r) ≡ in_flight_row r)
      → AreSafe starts rows
      → AreSafe starts (map g rows)
  map-AreSafe rows row flight safe = record {
    distinct = map-Distinct rows safe.distinct;
    each = All-map rows row safe.each;
    single = omega (arith, count-map rows flight, safe.single);
    known =
        All-map-known rows (map g rows) starts
          (λ id h. elim (Option-cases (get_row id rows)) [
            | inl absent ↦ ground (arith, get_row-map id rows)
            | inr (r, found) ↦ ground (arith, get_row-map id rows)
          ])
          safe.known;
  }

-- One more row, of an id that the table does not have.
module _ (starts : List RestorePlan) (new : RestoreRow) where
  pub get_row-append :
      (id : ℕ) (rows : List RestoreRow)
      → get_row id (rows ++ new ∷ []) ≡ (
          if is_some (get_row id rows)
          then get_row id rows
          else (if new.id == id then some new else none))
  get_row-append id [] = ground arith
  get_row-append id (r ∷ rows) = ground (arith, get_row-append id rows)

  append-Distinct :
      (rows : List RestoreRow)
      → get_row new.id rows ≡ none
      → Distinct rows
      → Distinct (rows ++ new ∷ [])
  append-Distinct [] h k = (refl, tt)
  append-Distinct (r ∷ rows) h k = ground (arith, get_row-append r.id rows, append-Distinct rows)

  All-append :
      (rows : List RestoreRow)
      → All (RowOk starts) rows
      → RowOk starts new
      → All (RowOk starts) (rows ++ new ∷ [])
  All-append [] h k = (k, tt)
  All-append (r ∷ rows) h k = (h.0, All-append rows h.1 k)

  pub runs-append :
      (id : ℕ) (rows : List RestoreRow) → runs id rows ≡ true → runs id (rows ++ new ∷ []) ≡ true
  runs-append id rows h = elim (Option-cases (get_row id rows)) [
    | inl absent ↦ absurd (cc (ap running_row absent, h))
    | inr (r, found) ↦ simp (get_row-append id rows, found) (sym (ap running_row found) ∙ h)
  ]

  pub append-AreSafe :
      (rows : List RestoreRow)
      → get_row new.id rows ≡ none
      → RowOk starts new
      → in_flight_row new ≡ false
      → AreSafe starts rows
      → AreSafe starts (rows ++ new ∷ [])
  append-AreSafe rows absent ok waiting safe = record {
    distinct = append-Distinct rows absent safe.distinct;
    each = All-append rows safe.each ok;
    single = ground (arith, count-append in_flight_row rows (new ∷ []), safe.single);
    known =
        All-map-known rows (rows ++ new ∷ []) starts
          (λ id h. elim (Option-cases (get_row id rows)) [
            | inl gone ↦ absurd (cc (ap (λ o. is_some o) gone, h))
            | inr (r, found) ↦ simp (get_row-append id rows, found) refl
          ])
          safe.known;
  }

-- A restore that the table does not have was never started.
pub unknown_start_count :
    (id : ℕ) (rows : List RestoreRow) (starts : List RestorePlan)
    → get_row id rows ≡ none
    → All (λ p. is_some (get_row p.restore_id rows) ≡ true) starts
    → start_count id starts ≡ 0
unknown_start_count id rows [] absent h = refl
unknown_start_count id rows (p ∷ starts) absent h = elim (Bool-cases (p.restore_id == id)) [
  | inl same ↦
      let e : p.restore_id ≡ id = ground arith in
      absurd (cc (ap (λ j. is_some (get_row j rows)) e, ap (λ o. is_some o) absent, h.0))
  | inr other ↦ ground (arith, unknown_start_count id rows starts absent h.1)
]
