-- ===== src/Login/Sessions/Rotation.antt =====
-- One live refresh token per sign-in, and what happens when a token comes twice.
use mathlib.Core.Path.{subst}
use proxsync.Prelude.{
  ℕ, ◌≡◌, refl, sym, ap, ◌∙◌, Bool, true, false, not, ◌&&◌, inl, inr, Option, none, some, List, [],
  ◌∷◌, ◌++◌, ◌==◌, leb, find, arith, Bool-cases, count-append,
}
use proxsync.Prelude.Text.{Text, eq_text}
use proxsync.Login.Tokens.{
  RefreshToken, rotated, expired, is_revoked, has_hash, in_family, get_by_hash, revoke_where,
  revoke, revoke_family,
}
use proxsync.Login.Tokens.Counts.{IsSingle, active-revoke_where, active-revoke}
use proxsync.Login.State.{User, Context, World, State, record_audit, no_detail, token_refresh}
use proxsync.Login.Signin.Issue.{issue_session-cases}
use proxsync.Login.Sessions.{numbered_row, refresh_for, refresh_stored, refresh}

-- A table in which a live token has given way to a new one of its family.
rotate-IsSingle :
    (p : RefreshToken → Bool) (stored token : RefreshToken) (now : ℕ) (rows : List RefreshToken)
    → find p rows ≡ some stored
    → is_revoked stored ≡ false
    → token.family_id ≡ stored.family_id
    → IsSingle rows
    → IsSingle (revoke stored now rotated rows ++ token ∷ [])
unfolding revoke
rotate-IsSingle p stored token now rows found live same single family_id =
    let old = revoke_where (λ t. t.id == stored.id) now rotated rows in
    let split = count-append (λ t. in_family family_id t && not (is_revoked t)) old (token ∷ []) in
    elim (Bool-cases (in_family family_id stored)) [
      | inl belongs ↦ ground (
        arith,
        split,
        single family_id,
        active-revoke now rotated p family_id stored rows found live belongs,
      )
      | inr foreign ↦
          let token_foreign : in_family family_id token ≡ false =
            ap (λ f. eq_text f family_id) same ∙ foreign in
          ground (
            arith,
            split,
            token_foreign,
            single family_id,
            active-revoke_where now rotated (λ t. t.id == stored.id) family_id rows,
          )
    ]

module _ (w : World) (context : Context) (now : ℕ) (s : State) where
  -- The state in which the new session is issued.
  abbrev pub audited : RefreshToken → User → State
  unfolding record_audit
  audited stored user =
      (record_audit (numbered_row token_refresh true user.id (some user.username) context no_detail)
        (record s { tokens = revoke stored now rotated s.tokens })).1

  refresh_for-IsSingle :
      (p : RefreshToken → Bool) (stored : RefreshToken) (user : Option User)
      → find p s.tokens ≡ some stored
      → is_revoked stored ≡ false
      → IsSingle s.tokens
      → IsSingle (refresh_for w stored user context now s).1.tokens
  unfolding refresh_for revoke_family record_audit revoke
  refresh_for-IsSingle p stored none found live single = λ family_id. omega (
    arith,
    single family_id,
    active-revoke_where now _ (in_family stored.family_id) family_id s.tokens,
  )
  refresh_for-IsSingle p stored (some user) found live single =
      elim (issue_session-cases w user stored.family_id context now (audited stored user)) [
        | inl (issued, (token, same, fresh, rows)) ↦
            subst IsSingle (sym rows)
              (rotate-IsSingle p stored token now s.tokens found live same single)
        | inr (refused, rows) ↦ subst IsSingle (sym rows) (λ family_id. omega (
          arith,
          single family_id,
          active-revoke_where now rotated (λ t. t.id == stored.id) family_id s.tokens,
        ))
      ]

  refresh_stored-IsSingle :
      (p : RefreshToken → Bool) (stored : Option RefreshToken)
      → find p s.tokens ≡ stored
      → IsSingle s.tokens
      → IsSingle (refresh_stored w stored context now s).1.tokens
  unfolding refresh_stored revoke_family record_audit revoke
  refresh_stored-IsSingle p none found single = single
  refresh_stored-IsSingle p (some stored) found single = elim (Bool-cases (is_revoked stored)) [
    | inl revoked ↦ simp revoked (λ family_id. omega (
      arith,
      single family_id,
      active-revoke_where now _ (in_family stored.family_id) family_id s.tokens,
    ))
    | inr live ↦ elim (Bool-cases (leb stored.expires_at now)) [
      | inl late ↦
          simp (live, late)
            (λ family_id. omega (
              arith,
              single family_id,
              active-revoke_where now expired (λ t. t.id == stored.id) family_id s.tokens,
            ))
      | inr valid ↦ simp (live, valid) (refresh_for-IsSingle p stored _ found live single)
    ]
  ]

  -- A refresh, whatever comes of it, leaves no family with two tokens that are not revoked, if none
  -- had two before.
  pub refresh-IsSingle :
      (raw : Text) → IsSingle s.tokens → IsSingle (refresh w raw context now s).1.tokens
  unfolding refresh get_by_hash
  refresh-IsSingle raw single = refresh_stored-IsSingle (has_hash (w.hash_token raw)) _ refl single
