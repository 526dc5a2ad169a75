-- ===== src/Agent/Remotes/Safe.antt =====
-- What a validated name and a validated path are.
use mathlib.Core.Path.{subst}
use proxsync.Prelude.{
  ℕ, ◌≤◌, ◌≡◌, refl, Bool, true, false, ◌⊎◌, inl, inr, List, [], ◌∷◌, ◌==◌, ltb, length, any, all,
  arith, Bool-cases,
}
use proxsync.Prelude.Text.{Text}
use proxsync.Effects.{ok-injective, ok}
use proxsync.Agent.Remotes.{
  lstrip, cons_unless, rstrip, strip, is_colon, is_slash, is_name_character, matches_name,
  permitted, validate_remote_name, is_control, is_glob, split_slash, is_bad_segment,
  starts_with_dash, check_cleaned, validate_remote_path,
}

-- Stripping brings in no character.
any-lstrip : (p q : ℕ → Bool) (t : Text) → any q t ≡ false → any q (lstrip p t) ≡ false
unfolding lstrip
any-lstrip p q [] h = refl
any-lstrip p q (c ∷ t) h = ground (arith, any-lstrip p q t)

any-cons_unless :
    (q : ℕ → Bool) (b : Bool) (c : ℕ) (t : Text)
    → q c ≡ false
    → any q t ≡ false
    → any q (cons_unless b c t) ≡ false
unfolding cons_unless
any-cons_unless q true c [] h k = refl
any-cons_unless q false c [] h k = ground arith
any-cons_unless q b c (d ∷ t) h k = ground arith

any-rstrip : (p q : ℕ → Bool) (t : Text) → any q t ≡ false → any q (rstrip p t) ≡ false
unfolding rstrip
any-rstrip p q [] h = refl
any-rstrip p q (c ∷ t) h =
    any-cons_unless q (p c) c (rstrip p t) (ground arith) (any-rstrip p q t (ground arith))

any-strip : (p q : ℕ → Bool) (t : Text) → any q t ≡ false → any q (strip p t) ≡ false
any-strip p q t h = any-rstrip p q (lstrip p t) (any-lstrip p q t h)

-- A name that is fit to stand before the colon of an rclone argument.
pub record IsName (name : Text) : Type 0 where
  pub non_empty : 1 ≤ length name
  pub short : length name ≤ 64
  pub no_colon : any is_colon name ≡ false
  pub no_dash : starts_with_dash name ≡ false

name_characters : (t : Text) → all is_name_character t ≡ true → any is_colon t ≡ false
name_characters [] h = refl
name_characters (c ∷ t) h = ground (arith, name_characters t)

matches_name-IsName : (name : Text) → matches_name name ≡ true → IsName name
unfolding matches_name
matches_name-IsName [] h = cc
matches_name-IsName (c ∷ t) h = record {
  non_empty = omega arith;
  short = ground arith;
  no_colon = ground (arith, name_characters t);
  no_dash = ground arith;
}

-- A name that passes is fit for an argument: of 1 to 64 characters, without a colon, not starting with
-- a dash, and one of the permitted names if there are any.
pub validate_remote_name-IsName :
    (is_space : ℕ → Bool) (name : Text) (allowed : List Text) (result : Text)
    → validate_remote_name is_space name allowed ≡ ok result
    → IsName result × (permitted allowed result ≡ true)
unfolding validate_remote_name
validate_remote_name-IsName is_space name allowed result h =
    let cleaned = rstrip is_colon (strip is_space name) in
    elim (Bool-cases (matches_name cleaned)) [
      | inr other ↦ absurd (cc (simp other at h))
      | inl matched ↦ elim (Bool-cases (permitted allowed cleaned)) [
        | inr refused ↦ absurd (cc (simp (matched, refused) at h))
        | inl admitted ↦
            let same = ok-injective cleaned result (simp (matched, admitted) at h) in
            (
              subst IsName same (matches_name-IsName cleaned matched),
              subst (λ n. permitted allowed n ≡ true) same admitted,
            )
      ]
    ]

-- A path that is fit to stand after the colon: nothing in it that rclone reads as a flag, another
-- remote, a pattern or a way upwards.
pub record IsPath (path : Text) : Type 0 where
  pub no_dash : starts_with_dash path ≡ false
  pub no_colon : any is_colon path ≡ false
  pub no_glob : any is_glob path ≡ false
  pub no_control : any is_control path ≡ false
  pub segments : (path ≡ []) ⊎ (any is_bad_segment (split_slash path) ≡ false)

check_cleaned-IsPath :
    (t result : Text) → any is_control t ≡ false → check_cleaned t ≡ ok result → IsPath result
unfolding check_cleaned
check_cleaned-IsPath [] result control h = subst IsPath (ok-injective [] result h) (record {
  no_dash = refl;
  no_colon = refl;
  no_glob = refl;
  no_control = refl;
  segments = inl refl;
})
check_cleaned-IsPath (c ∷ t) result control h = elim (Bool-cases (starts_with_dash (c ∷ t))) [
  | inl dash ↦ absurd (cc (simp dash at h))
  | inr plain ↦ elim (Bool-cases (any is_colon (c ∷ t))) [
    | inl found ↦ absurd (cc (simp (plain, found) at h))
    | inr no_colon ↦ elim (Bool-cases (any is_glob (c ∷ t))) [
      | inl found ↦ absurd (cc (simp (plain, no_colon, found) at h))
      | inr no_glob ↦ elim (Bool-cases (any is_bad_segment (split_slash (c ∷ t)))) [
        | inl found ↦ absurd (cc (simp (plain, no_colon, no_glob, found) at h))
        | inr good ↦
            subst IsPath (ok-injective (c ∷ t) result (simp (plain, no_colon, no_glob, good) at h))
              (record {
                no_dash = plain;
                no_colon = no_colon;
                no_glob = no_glob;
                no_control = control;
                segments = inr good;
              })
      ]
    ]
  ]
]

-- A path that passes holds no colon, no filter character and no control character, does not start with
-- a dash, and unless it is empty none of its segments is empty, a dot or two dots: what stripping
-- leaves is as free of them as what came in.
pub validate_remote_path-IsPath :
    (is_space : ℕ → Bool) (path result : Text)
    → validate_remote_path is_space path ≡ ok result
    → IsPath result
unfolding validate_remote_path
validate_remote_path-IsPath is_space path result h = elim (Bool-cases (ltb 1024 (length path))) [
  | inl long ↦ absurd (cc (simp long at h))
  | inr fits ↦ elim (Bool-cases (any (λ c. c == 0) path)) [
    | inl found ↦ absurd (cc (simp (fits, found) at h))
    | inr no_null ↦ elim (Bool-cases (any is_control path)) [
      | inl found ↦ absurd (cc (simp (fits, no_null, found) at h))
      | inr no_control ↦
          check_cleaned-IsPath (strip is_slash (strip is_space path)) result
            (any-strip is_slash is_control (strip is_space path)
              (any-strip is_space is_control path no_control))
            (simp (fits, no_null, no_control) at h)
    ]
  ]
]
