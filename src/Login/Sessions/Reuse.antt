-- ===== src/Login/Sessions/Reuse.antt =====
-- A refresh token that comes a second time ends its family, and so does signing out.
use mathlib.Core.Path.{subst}
use mathlib.Core.Option
use proxsync.Prelude.{
  ℕ, ◌≡◌, refl, sym, ap, ◌∙◌, true, false, inl, inr, Option, none, some, [], ◌∷◌, ◌++◌, ◌==◌, leb,
  find, arith, Bool-cases, if◌then◌else◌,
}
use proxsync.Prelude.Text.{Text, eq_text, eq_text_refl}
use proxsync.Effects.{ok-injective, ok, raised}
use proxsync.Login.Tokens.{
  RefreshToken, rotated, logged_out, is_revoked, has_hash, get_by_hash, revoke_row, revoke,
  revoke_family,
}
use proxsync.Login.Tokens.Counts.{
  active, find-append, active-revoke_all, find-revoke_where, find-active,
}
use proxsync.Login.State.{
  User, Context, World, State, IssuedSession, reused_token, session_expired, record_audit,
}
use proxsync.Login.Signin.Issue.{issue_session-cases}
use proxsync.Login.Sessions.{
  get_user, active_user, refresh_for, refresh_stored, refresh, logout_stored, logout,
}
use proxsync.Login.Sessions.Rotation.{audited}

-- What a refresh that succeeds has done.
record IsRotated (stored : RefreshToken) (now : ℕ) (s after : State) (session : IssuedSession)
    : Type 0 where
  live : is_revoked stored ≡ false
  family : session.family_id ≡ stored.family_id
  token : RefreshToken
  rows : after.tokens ≡ revoke stored now rotated s.tokens ++ token ∷ []

module _ (w : World) (context : Context) (now : ℕ) (s : State) (session : IssuedSession) where
  refresh_for-IsRotated :
      (stored : RefreshToken) (user : Option User)
      → is_revoked stored ≡ false
      → (refresh_for w stored user context now s).0 ≡ ok session
      → IsRotated stored now s (refresh_for w stored user context now s).1 session
  unfolding refresh_for record_audit revoke_family
  refresh_for-IsRotated stored none live h = cc
  refresh_for-IsRotated stored (some user) live h =
      elim (issue_session-cases w user stored.family_id context now
        (audited w context now s stored user)) [
          | inl (issued, (token, same, fresh, rows)) ↦ record {
            live = live;
            family = sym (ap (λ i. i.family_id) (ok-injective _ session (sym issued ∙ h)));
            token = token;
            rows = rows;
          }
          | inr (refused, rows) ↦ cc (sym refused ∙ h)
        ]

module _ (w : World) (context : Context) (now : ℕ) (s : State) where
  -- A token that is already revoked ends its family.
  refresh_stored_revoked :
      (stored : RefreshToken)
      → is_revoked stored ≡ true
      → ((refresh_stored w (some stored) context now s).0 ≡ raised reused_token)
        × (active stored.family_id (refresh_stored w (some stored) context now s).1.tokens ≡ 0)
  unfolding refresh_stored revoke_family record_audit
  refresh_stored_revoked stored revoked =
      simp revoked (refl, active-revoke_all now _ stored.family_id s.tokens)

  refresh_found :
      (raw : Text) (stored : RefreshToken)
      → get_by_hash (w.hash_token raw) s.tokens ≡ some stored
      → is_revoked stored ≡ true
      → ((refresh w raw context now s).0 ≡ raised reused_token)
        × (active stored.family_id (refresh w raw context now s).1.tokens ≡ 0)
  unfolding refresh
  refresh_found raw stored found revoked = rw found (refresh_stored_revoked stored revoked)

  refresh_stored_late :
      (stored : RefreshToken)
      → is_revoked stored ≡ false
      → leb stored.expires_at now ≡ true
      → (refresh_stored w (some stored) context now s).0 ≡ raised session_expired
  unfolding refresh_stored
  refresh_stored_late stored live late = simp (live, late) refl

  refresh_stored_valid :
      (stored : RefreshToken)
      → is_revoked stored ≡ false
      → leb stored.expires_at now ≡ false
      → refresh_stored w (some stored) context now s
        ≡ refresh_for w stored (active_user (get_user stored.user_id s.users)) context now s
  unfolding refresh_stored
  refresh_stored_valid stored live valid = simp (live, valid) refl

  refresh_stored-IsRotated :
      (session : IssuedSession) (stored : RefreshToken)
      → (refresh_stored w (some stored) context now s).0 ≡ ok session
      → IsRotated stored now s (refresh_stored w (some stored) context now s).1 session
  refresh_stored-IsRotated session stored h = elim (Bool-cases (is_revoked stored)) [
    | inl revoked ↦ cc (sym (refresh_stored_revoked stored revoked).0 ∙ h)
    | inr live ↦ elim (Bool-cases (leb stored.expires_at now)) [
      | inl late ↦ cc (sym (refresh_stored_late stored live late) ∙ h)
      | inr valid ↦
          let same = refresh_stored_valid stored live valid in
          subst (λ r. IsRotated stored now s r.1 session) (sym same)
            (refresh_for-IsRotated w context now s session stored _ live
              (sym (ap (λ r. r.0) same) ∙ h))
    ]
  ]

  refresh-found :
      (session : IssuedSession) (raw : Text)
      → (refresh w raw context now s).0 ≡ ok session
      → (stored : RefreshToken) × (get_by_hash (w.hash_token raw) s.tokens ≡ some stored)
        × IsRotated stored now s (refresh w raw context now s).1 session
  unfolding refresh refresh_stored
  refresh-found session raw h =
      elim (get_by_hash (w.hash_token raw) s.tokens)
          as (λ o.
            (o ≡ get_by_hash (w.hash_token raw) s.tokens)
            → (refresh_stored w o context now s).0 ≡ ok session
            → (stored : RefreshToken) × (get_by_hash (w.hash_token raw) s.tokens ≡ some stored)
              × IsRotated stored now s (refresh w raw context now s).1 session) [
                | none ↦ λ e k. cc k
                | some stored ↦ λ e k. (
                  stored,
                  sym e,
                  subst (λ o. IsRotated stored now s (refresh_stored w o context now s).1 session) e
                      (refresh_stored-IsRotated session stored k),
                )
              ]
        refl h

  -- The row of a rotated token stands in the new table, revoked.
  rotated_row :
      (p : Text) (stored token : RefreshToken)
      → find (has_hash p) s.tokens ≡ some stored
      → find (has_hash p) (revoke stored now rotated s.tokens ++ token ∷ [])
        ≡ some (revoke_row now rotated stored)
  unfolding revoke
  rotated_row p stored token found = find-append (has_hash p) _ _ (token ∷ []) (
      find-revoke_where now rotated (λ t. t.id == stored.id) p s.tokens
      ∙ ap (Option.map (λ t. if t.id == stored.id then revoke_row now rotated t else t)) found
      ∙ ground arith)

-- After a refresh that succeeds, the same raw token, presented next and at any time, is refused as
-- reused, and then the family of the new session has no live token left: neither who stole the token
-- nor who was robbed keeps the session.
pub refresh-reused :
    (w : World) (context other : Context) (now later : ℕ) (s : State) (session : IssuedSession)
    (raw : Text)
    → (refresh w raw context now s).0 ≡ ok session
    → ((refresh w raw other later (refresh w raw context now s).1).0 ≡ raised reused_token)
      × (active session.family_id
            (refresh w raw other later (refresh w raw context now s).1).1.tokens
          ≡ 0)
unfolding get_by_hash
refresh-reused w context other now later s session raw h =
    let (stored, found, r) = refresh-found w context now s session raw h in
    let again : get_by_hash (w.hash_token raw) (refresh w raw context now s).1.tokens
        ≡ some (revoke_row now rotated stored) =
      ap (find (has_hash (w.hash_token raw))) r.rows
      ∙ rotated_row w context now s (w.hash_token raw) stored r.token found in
    let (refused, ended) =
      refresh_found w other later (refresh w raw context now s).1 raw
        (revoke_row now rotated stored) again (ground arith) in
    let kept : (revoke_row now rotated stored).family_id ≡ session.family_id =
      ground (arith, r.family) in
    (
      refused,
      subst (λ f. active f (refresh w raw other later (refresh w raw context now s).1).1.tokens ≡ 0)
          kept ended,
    )

logout_dead :
    (w : World) (context : Context) (now : ℕ) (s : State) (c : ℕ) (raw : Text)
    (stored : RefreshToken)
    → get_by_hash (w.hash_token (c ∷ raw)) s.tokens ≡ some stored
    → active stored.family_id (logout w (some (c ∷ raw)) context now s).1.tokens ≡ 0
unfolding logout logout_stored revoke_family record_audit
logout_dead w context now s c raw stored found =
    rw found (active-revoke_all now logged_out stored.family_id s.tokens)

-- Signing out with a known token leaves its family without a live token, and whichever token of the
-- family is presented next, that one or another, at any time, is refused as reused.
pub logout-ends :
    (w : World) (context other : Context) (now later : ℕ) (s : State) (c : ℕ) (raw sibling : Text)
    (stored kept : RefreshToken)
    → get_by_hash (w.hash_token (c ∷ raw)) s.tokens ≡ some stored
    → get_by_hash (w.hash_token sibling) (logout w (some (c ∷ raw)) context now s).1.tokens
      ≡ some kept
    → kept.family_id ≡ stored.family_id
    → (active stored.family_id (logout w (some (c ∷ raw)) context now s).1.tokens ≡ 0)
      × ((refresh w sibling other later (logout w (some (c ∷ raw)) context now s).1).0
          ≡ raised reused_token)
unfolding get_by_hash
logout-ends w context other now later s c raw sibling stored kept found listed same =
    let dead = logout_dead w context now s c raw stored found in
    let revoked =
      find-active (has_hash (w.hash_token sibling)) stored.family_id kept _ listed
        (ap (λ f. eq_text f stored.family_id) same ∙ eq_text_refl stored.family_id) dead in
    (dead, (refresh_found w other later _ sibling kept listed revoked).0)
