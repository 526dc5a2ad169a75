-- ===== src/Restore/Repository/Updates.antt =====
-- What a change of one row does to lookups, counts and predicates of the table.
use mathlib.Core.Option
use mathlib.Core.Path.{subst}
use proxsync.Prelude.{
  ℕ, ◌+◌, ◌≡◌, refl, ap, Bool, inl, inr, none, some, List, [], ◌∷◌, ◌==◌, find-cons, count, All,
  arith, Bool-cases, if◌then◌else◌,
}
use proxsync.Restore.Types.{RestoreRow}
use proxsync.Restore.Repository.{get_row, update_row}

abbrev pub one_if : Bool → ℕ
one_if b = if b then 1 else 0

-- No two rows have one id.
abbrev pub Distinct : List RestoreRow → Type 0
Distinct [] = Unit
Distinct (r ∷ rows) = (get_row r.id rows ≡ none) × Distinct rows

module _ (id : ℕ) (f : RestoreRow → RestoreRow) where
  pub get_row-update_row :
      (other : ℕ) (rows : List RestoreRow)
      → ((r : RestoreRow) → (f r).id ≡ r.id)
      → get_row other (update_row id f rows)
        ≡ (if id == other then Option.map f (get_row other rows) else get_row other rows)
  unfolding update_row
  get_row-update_row other [] keeps = ground arith
  get_row-update_row other (r ∷ rows) keeps = ground (arith, keeps r, get_row-update_row other rows)

  -- A count after the change, against the row that changed.
  pub count-update_row :
      (p : RestoreRow → Bool) (r : RestoreRow) (rows : List RestoreRow)
      → get_row id rows ≡ some r
      → count p (update_row id f rows) + one_if (p r) ≡ count p rows + one_if (p (f r))
  unfolding update_row
  count-update_row p r [] h = cc
  count-update_row p r (u ∷ rows) h = elim (find-cons (λ v. v.id == id) r u rows h) [
    | inl (here, same) ↦ ground (arith, ap p same, ap (λ v. p (f v)) same)
    | inr (other, later) ↦ ground (arith, count-update_row p r rows later)
  ]

  pub update_row-absent :
      (rows : List RestoreRow) → get_row id rows ≡ none → update_row id f rows ≡ rows
  unfolding update_row
  update_row-absent [] h = refl
  update_row-absent (u ∷ rows) h = ground (arith, update_row-absent rows)

  pub All-update_row :
      (P : RestoreRow → Type 0) (rows : List RestoreRow)
      → All P rows
      → ((r : RestoreRow) → get_row id rows ≡ some r → P r → P (f r))
      → All P (update_row id f rows)
  unfolding update_row
  All-update_row P [] h k = tt
  All-update_row P (u ∷ rows) h k = elim (Bool-cases (u.id == id)) [
    | inl same ↦ simp same (k u (simp same refl) h.0, h.1)
    | inr other ↦ simp other (h.0, All-update_row P rows h.1 (λ r found. k r (simp other found)))
  ]

  pub update_row-Distinct :
      (rows : List RestoreRow)
      → ((r : RestoreRow) → (f r).id ≡ r.id)
      → Distinct rows
      → Distinct (update_row id f rows)
  unfolding update_row
  update_row-Distinct [] keeps h = tt
  update_row-Distinct (u ∷ rows) keeps h =
      ground (arith, keeps u, get_row-update_row u.id rows, update_row-Distinct rows)

pub All-get_row :
    (P : RestoreRow → Type 0) (id : ℕ) (r : RestoreRow) (rows : List RestoreRow)
    → All P rows
    → get_row id rows ≡ some r
    → P r
All-get_row P id r [] h k = cc
All-get_row P id r (u ∷ rows) h k = elim (find-cons (λ v. v.id == id) r u rows k) [
  | inl (here, same) ↦ subst P same h.0
  | inr (other, later) ↦ All-get_row P id r rows h.1 later
]
