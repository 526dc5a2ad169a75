-- ===== src/Restore/Preflight/Guests.antt =====
-- Which guest `_existing_guest` of backend/app/services/restore_service.py finds under an id.
use mathlib.Core.Path.{subst}
use proxsync.Prelude.{
  ℕ, ◌≤◌, ◌≡◌, refl, Bool, true, ◌&&◌, none, some, List, [], ◌∷◌, ◌==◌, find, count, Member, here,
  there, some-injective, arith, Bool-cases, inl, inr, if◌then◌else◌,
}
use proxsync.Retention.Types.{GuestType, vm, lxc}
use proxsync.Restore.Types.{Guest}
use proxsync.Restore.Preflight.{same_type, existing_guest, or_else, get_by_vmid}

module _ {A : Type 0} (p q : A → Bool) (narrower : (a : A) → q a ≡ true → p a ≡ true) where
  find-none_left : (xs : List A) → count p xs ≡ 0 → find q xs ≡ none
  find-none_left [] none_left = refl
  find-none_left (x ∷ xs) none_left = elim (Bool-cases (q x)) [
    | inl passes ↦ ground (arith, narrower x passes, none_left)
    | inr fails ↦ simp fails (find-none_left xs (ground (arith, none_left)))
  ]

  Member-count : (a : A) (xs : List A) → Member a xs → p a ≡ true → 1 ≤ count p xs
  Member-count a [] m passes = elim m [ ]
  Member-count a (x ∷ xs) here passes = ground (arith, passes)
  Member-count a (x ∷ xs) (there m) passes = ground (arith, Member-count a xs m passes)

  -- Where one element at most passes a test, a narrower test finds it or nothing.
  find-sole :
      (a : A) (xs : List A)
      → count p xs ≤ 1
      → Member a xs
      → p a ≡ true
      → find q xs ≡ (if q a then some a else none)
  find-sole a [] single m passes = elim m [ ]
  find-sole a (x ∷ xs) single here passes =
      let rest : find q xs ≡ none = find-none_left xs (ground (arith, single, passes)) in
      elim (Bool-cases (q x)) [ inl chosen ↦ simp chosen refl | inr other ↦ simp other rest ]
  find-sole a (x ∷ xs) single (there m) passes = elim (Bool-cases (p x)) [
    | inl both ↦ absurd (ground (arith, both, single, Member-count a xs m passes))
    | inr fails ↦ elim (Bool-cases (q x)) [
      | inl odd ↦ absurd (ground (arith, narrower x odd, fails))
      | inr other ↦ simp other (find-sole a xs (ground (arith, single, fails)) m passes)
    ]
  ]

module _ {A : Type 0} (q : A → Bool) where
  pub find-Member : (a : A) (xs : List A) → find q xs ≡ some a → Member a xs × (q a ≡ true)
  find-Member a [] found = cc
  find-Member a (x ∷ xs) found = elim (Bool-cases (q x)) [
    | inl passes ↦
        let same : x ≡ a = some-injective x a (simp passes at found) in
        subst (λ b. Member b (x ∷ xs) × (q b ≡ true)) same (here, passes)
    | inr fails ↦ let later = find-Member a xs (simp fails at found) in (there later.0, later.1)
  ]

-- VMIDs are unique across virtual machines and containers.
abbrev pub VmidsDistinct : List Guest → Type 0
VmidsDistinct guests = (vmid : ℕ) → count (λ g. g.vmid == vmid) guests ≤ 1

typed_alone :
    (vmid : ℕ) (type : GuestType) (guest : Guest) (guests : List Guest)
    → VmidsDistinct guests
    → Member guest guests
    → guest.vmid ≡ vmid
    → get_by_vmid vmid type guests
      ≡ (if guest.vmid == vmid && same_type guest.guest_type type then some guest else none)
typed_alone vmid type guest guests distinct held same =
    find-sole (λ g. g.vmid == vmid) (λ g. g.vmid == vmid && same_type g.guest_type type)
      (λ g both. ground (arith, both)) guest guests (distinct vmid) held (ground (arith, same))

by_type :
    (guest : Guest) (type : GuestType)
    → guest.guest_type ≡ type
    → or_else
        (if same_type guest.guest_type vm then some guest else none)
        (if same_type guest.guest_type lxc then some guest else none)
      ≡ some guest
unfolding or_else
by_type guest vm e = simp e refl
by_type guest lxc e = simp e refl

pub guest_exists :
    (vmid : ℕ) (guest : Guest) (guests : List Guest)
    → VmidsDistinct guests
    → Member guest guests
    → guest.vmid ≡ vmid
    → existing_guest vmid guests ≡ some guest
unfolding existing_guest or_else
guest_exists vmid guest guests distinct held same =
    let self : (guest.vmid == vmid) ≡ true = ground (arith, same) in
    simp
      (
        typed_alone vmid vm guest guests distinct held same,
        typed_alone vmid lxc guest guests distinct held same,
      )
      (simp self (by_type guest guest.guest_type refl))
