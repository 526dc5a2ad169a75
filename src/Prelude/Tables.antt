-- ===== src/Prelude/Tables.antt =====
-- Tables as lists of rows with a number for a key: a row is found by its key and changed in place.
use mathlib.Core.Option
use mathlib.Core.Path.{subst}
use proxsync.Prelude.{
  ℕ, ◌≡◌, refl, ap, Bool, false, inl, inr, Option, none, some, List, [], ◌∷◌, ◌++◌, ◌==◌, find,
  find-some, find-cons, map, All, arith, Bool-cases, is_some, if◌then◌else◌,
}

abbrev pub one_if : Bool → ℕ
one_if b = if b then 1 else 0

module _ {A : Type 0} (key : A → ℕ) where
  abbrev pub get_by : ℕ → List A → Option A
  get_by id rows = find (λ r. key r == id) rows

  unfoldable pub update_by : ℕ → (A → A) → List A → List A
  update_by id f [] = []
  update_by id f (r ∷ rows) =
      let rest = update_by id f rows in if key r == id then f r ∷ rows else r ∷ rest

  -- No two rows have one key.
  abbrev pub KeysDistinct : List A → Type 0
  KeysDistinct [] = Unit
  KeysDistinct (r ∷ rows) = (get_by (key r) rows ≡ none) × KeysDistinct rows

  pub get_by-update_by :
      (id : ℕ) (f : A → A) (other : ℕ) (rows : List A)
      → ((r : A) → key (f r) ≡ key r)
      → get_by other (update_by id f rows)
        ≡ (if id == other then Option.map f (get_by other rows) else get_by other rows)
  unfolding update_by
  get_by-update_by id f other [] keeps = ground arith
  get_by-update_by id f other (r ∷ rows) keeps =
      ground (arith, keeps r, get_by-update_by id f other rows keeps)

  pub get_by-append :
      (new : A) (id : ℕ) (rows : List A)
      → get_by id (rows ++ new ∷ []) ≡ (
          if is_some (get_by id rows)
          then get_by id rows
          else (if key new == id then some new else none))
  get_by-append new id [] = ground arith
  get_by-append new id (r ∷ rows) = ground (arith, get_by-append new id rows)

  pub get_by-key : (id : ℕ) (r : A) (rows : List A) → get_by id rows ≡ some r → key r ≡ id
  get_by-key id r rows found = ground (arith, find-some (λ u. key u == id) r rows found)

  -- A predicate of every row survives the change of one row, where that row keeps it.
  pub All-update_by :
      (P : A → Type 0) (id : ℕ) (f : A → A) (rows : List A)
      → All P rows
      → ((r : A) → get_by id rows ≡ some r → P r → P (f r))
      → All P (update_by id f rows)
  unfolding update_by
  All-update_by P id f [] h k = tt
  All-update_by P id f (u ∷ rows) h k = elim (Bool-cases (key u == id)) [
    | inl same ↦ simp same (k u (simp same refl) h.0, h.1)
    | inr other ↦
        simp other (h.0, All-update_by P id f rows h.1 (λ r found. k r (simp other found)))
  ]

  pub All-get_by :
      (P : A → Type 0) (id : ℕ) (r : A) (rows : List A) → All P rows → get_by id rows ≡ some r → P r
  All-get_by P id r [] h k = cc
  All-get_by P id r (u ∷ rows) h k = elim (find-cons (λ v. key v == id) r u rows k) [
    | inl (here, same) ↦ subst P same h.0
    | inr (other, later) ↦ All-get_by P id r rows h.1 later
  ]

  pub All-snoc :
      (P : A → Type 0) (new : A) (rows : List A) → All P rows → P new → All P (rows ++ new ∷ [])
  All-snoc P new [] h k = (k, tt)
  All-snoc P new (r ∷ rows) h k = (h.0, All-snoc P new rows h.1 k)

  pub update_by-KeysDistinct :
      (id : ℕ) (f : A → A) (rows : List A)
      → ((r : A) → key (f r) ≡ key r)
      → KeysDistinct rows
      → KeysDistinct (update_by id f rows)
  unfolding update_by
  update_by-KeysDistinct id f [] keeps h = tt
  update_by-KeysDistinct id f (u ∷ rows) keeps h = ground (
    arith,
    keeps u,
    get_by-update_by id f (key u) rows keeps,
    update_by-KeysDistinct id f rows keeps,
  )

  pub append-KeysDistinct :
      (new : A) (rows : List A)
      → get_by (key new) rows ≡ none
      → KeysDistinct rows
      → KeysDistinct (rows ++ new ∷ [])
  append-KeysDistinct new [] h k = (refl, tt)
  append-KeysDistinct new (r ∷ rows) h k =
      ground (arith, get_by-append new (key r) rows, append-KeysDistinct new rows)

  -- A row that some test finds is the one that its key finds.
  pub find-get_by :
      (q : A → Bool) (r : A) (rows : List A)
      → KeysDistinct rows
      → find q rows ≡ some r
      → get_by (key r) rows ≡ some r
  find-get_by q r [] d h = cc
  find-get_by q r (u ∷ rows) d h = elim (find-cons q r u rows h) [
    | inl (passes, same) ↦ subst (λ v. get_by (key v) (u ∷ rows) ≡ some v) same (ground arith)
    | inr (fails, later) ↦
        let found = find-get_by q r rows d.1 later in
        elim (Bool-cases (key u == key r)) [
          | inl same ↦
              let e : key u ≡ key r = ground arith in
              absurd (cc (d.0, found, ap (λ j. get_by j rows) e))
          | inr other ↦ simp other found
        ]
  ]

  pub All-absent :
      (P Q : A → Type 0) (id : ℕ) (rows : List A)
      → get_by id rows ≡ none
      → All P rows
      → ((r : A) → (key r == id) ≡ false → P r → Q r)
      → All Q rows
  All-absent P Q id [] absent h other = tt
  All-absent P Q id (u ∷ rows) absent h other = elim (Bool-cases (key u == id)) [
    | inl same ↦ ground (arith, same, absent)
    | inr foreign ↦ (other u foreign h.0, All-absent P Q id rows (simp foreign at absent) h.1 other)
  ]

  -- From what every row keeps to another predicate, which the changed row meets by its change and any
  -- row of another key as it is.
  pub All-settle :
      (P Q : A → Type 0) (id : ℕ) (f : A → A) (rows : List A)
      → KeysDistinct rows
      → All P rows
      → ((r : A) → (key r == id) ≡ false → P r → Q r)
      → ((r : A) → get_by id rows ≡ some r → P r → Q (f r))
      → All Q (update_by id f rows)
  unfolding update_by
  All-settle P Q id f [] d h other at = tt
  All-settle P Q id f (u ∷ rows) d h other at = elim (Bool-cases (key u == id)) [
    | inl same ↦
        let e : key u ≡ id = ground arith in
        simp same (
          at u (simp same refl) h.0,
          All-absent P Q id rows (subst (λ j. get_by j rows ≡ none) e d.0) h.1 other,
        )
    | inr foreign ↦ simp foreign (
      other u foreign h.0,
      All-settle P Q id f rows d.1 h.1 other (λ r found. at r (simp foreign found)),
    )
  ]

  pub get_by-map :
      (g : A → A) (id : ℕ) (rows : List A)
      → ((r : A) → key (g r) ≡ key r)
      → get_by id (map g rows) ≡ Option.map g (get_by id rows)
  get_by-map g id [] keeps = refl
  get_by-map g id (r ∷ rows) keeps = ground (arith, keeps r, get_by-map g id rows keeps)

  pub map-KeysDistinct :
      (g : A → A) (rows : List A)
      → ((r : A) → key (g r) ≡ key r)
      → KeysDistinct rows
      → KeysDistinct (map g rows)
  map-KeysDistinct g [] keeps h = tt
  map-KeysDistinct g (r ∷ rows) keeps h =
      ground (arith, keeps r, get_by-map g (key r) rows keeps, map-KeysDistinct g rows keeps)

module _ {A : Type 0} where
  pub All-map :
      (P Q : A → Type 0) (g : A → A) (rows : List A)
      → ((r : A) → P r → Q (g r))
      → All P rows
      → All Q (map g rows)
  All-map P Q g [] k h = tt
  All-map P Q g (r ∷ rows) k h = (k r h.0, All-map P Q g rows k h.1)
