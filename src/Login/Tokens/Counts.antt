-- ===== src/Login/Tokens/Counts.antt =====
-- How many tokens of a family are live, and what revoking does to that.
use mathlib.Core.Path.{subst}
use mathlib.Core.Option
use proxsync.Prelude.{
  ℕ, suc, ◌≤◌, ◌≡◌, refl, Bool, true, false, not, ◌&&◌, inl, inr, none, some, List, [], ◌∷◌, ◌++◌,
  ◌==◌, find, find-cons, count, arith, if◌then◌else◌,
}
use proxsync.Prelude.Text.{Text}
use proxsync.Login.Tokens.{
  RefreshToken, RevokedReason, is_revoked, has_hash, in_family, revoke_row, revoke_where,
  revoke_all_for_user,
}

-- How many tokens of a family are not revoked.
abbrev pub active : Text → List RefreshToken → ℕ
active family_id rows = count (λ t. in_family family_id t && not (is_revoked t)) rows

-- No family has two tokens that are not revoked.
abbrev pub IsSingle : List RefreshToken → Type 0
IsSingle rows = (family_id : Text) → active family_id rows ≤ 1

pub find-append :
    (p : RefreshToken → Bool) (t : RefreshToken) (xs ys : List RefreshToken)
    → find p xs ≡ some t
    → find p (xs ++ ys) ≡ some t
find-append p t [] ys h = cc
find-append p t (x ∷ xs) ys h = ground (arith, find-append p t xs ys, h)

module _ (at : ℕ) (reason : RevokedReason) where
  pub active-revoke_where :
      (p : RefreshToken → Bool) (family_id : Text) (rows : List RefreshToken)
      → active family_id (revoke_where p at reason rows) ≤ active family_id rows
  unfolding revoke_where
  active-revoke_where p family_id [] = omega arith
  active-revoke_where p family_id (t ∷ rows) = ground (arith, active-revoke_where p family_id rows)

  pub active-revoke_all :
      (family_id : Text) (rows : List RefreshToken)
      → active family_id (revoke_where (in_family family_id) at reason rows) ≡ 0
  unfolding revoke_where
  active-revoke_all family_id [] = refl
  active-revoke_all family_id (t ∷ rows) = ground (arith, active-revoke_all family_id rows)

  pub find-revoke_where :
      (p : RefreshToken → Bool) (token_hash : Text) (rows : List RefreshToken)
      → find (has_hash token_hash) (revoke_where p at reason rows)
        ≡ Option.map
            (λ t. if p t then revoke_row at reason t else t)
            (find (has_hash token_hash) rows)
  unfolding revoke_where
  find-revoke_where p token_hash [] = refl
  find-revoke_where p token_hash (t ∷ rows) = ground (arith, find-revoke_where p token_hash rows)

  -- Revoking a live token that was found takes it out of the count of its family.
  pub active-revoke :
      (p : RefreshToken → Bool) (family_id : Text) (t : RefreshToken) (rows : List RefreshToken)
      → find p rows ≡ some t
      → is_revoked t ≡ false
      → in_family family_id t ≡ true
      → suc (active family_id (revoke_where (λ u. u.id == t.id) at reason rows))
        ≤ active family_id rows
  unfolding revoke_where
  active-revoke p family_id t [] found live belongs = cc
  active-revoke p family_id t (u ∷ rows) found live belongs = elim (find-cons p t u rows found) [
    | inl (passes, same) ↦
        subst
          (λ x.
            is_revoked x ≡ false
            → in_family family_id x ≡ true
            → suc (active family_id (revoke_where (λ v. v.id == x.id) at reason (u ∷ rows)))
              ≤ active family_id (u ∷ rows))
          same
          (λ live_u belongs_u.
            ground (arith, active-revoke_where (λ v. v.id == u.id) family_id rows))
          live belongs
    | inr (fails, later) ↦ ground (
      arith,
      active-revoke p family_id t rows later live belongs,
      active-revoke_where (λ v. v.id == t.id) family_id rows,
    )
  ]

-- A token of a family with no live token is revoked.
pub find-active :
    (p : RefreshToken → Bool) (family_id : Text) (t : RefreshToken) (rows : List RefreshToken)
    → find p rows ≡ some t
    → in_family family_id t ≡ true
    → active family_id rows ≡ 0
    → is_revoked t ≡ true
find-active p family_id t [] found belongs dead = cc
find-active p family_id t (u ∷ rows) found belongs dead = elim (find-cons p t u rows found) [
  | inl (passes, same) ↦
      subst (λ x. in_family family_id x ≡ true → is_revoked x ≡ true) same
        (λ belongs_u. ground (arith, dead)) belongs
  | inr (fails, later) ↦ find-active p family_id t rows later belongs (omega (arith, dead))
]

-- How many tokens of a user are not revoked.
abbrev pub live_of : ℕ → List RefreshToken → ℕ
live_of user_id rows = count (λ t. t.user_id == user_id && not (is_revoked t)) rows

pub revoke_all-live_of :
    (user_id at : ℕ) (reason : RevokedReason) (rows : List RefreshToken)
    → live_of user_id (revoke_all_for_user user_id at reason none rows).1 ≡ 0
unfolding revoke_all_for_user revoke_where
revoke_all-live_of user_id at reason [] = refl
revoke_all-live_of user_id at reason (t ∷ rows) =
    ground (arith, revoke_all-live_of user_id at reason rows)
