-- ===== src/Login/Examples.antt =====
-- The theorems of signing in at concrete inputs.
use proxsync.Prelude.{
  ℕ, ◌+◌, ◌≤◌, ◌<◌, ◌≡◌, ◌≢◌, refl, true, false, ◌⊎◌, none, some, List, [], ◌∷◌, length, min, ◌*◌,
  ◌^◌, arith, ◌==◌, if◌then◌else◌,
}
use mathlib.Core.Option
use proxsync.Prelude.Text.{codes, eq_text}
use proxsync.Effects.{ok, raised}
use proxsync.Login.Limiter.{check, lockout_duration_seconds}
use proxsync.Login.Limiter.Backoff.{lockout_duration_seconds-doubles}
use proxsync.Login.Tokens.{RefreshToken, logged_out, get_by_hash, revoke_family}
use proxsync.Login.Tokens.Counts.{active, IsSingle, live_of}
use proxsync.Login.State.{User, Context, World, State, IssuedSession, reused_token, get_by_username}
use proxsync.Login.Signin.{session_of, lock_seconds, login, limiter_key}
use proxsync.Login.Signin.Lockout.{login-lockout}
use proxsync.Login.Sessions.{get_user, refresh, logout, change_password}
use proxsync.Login.Sessions.Rotation.{refresh-IsSingle}
use proxsync.Login.Sessions.Reuse.{refresh-reused, logout-ends}
use proxsync.Login.Sessions.Password.{change_password-outcome}

-- Hashes are the identity, random values count upwards, and names are taken as they come.
abbrev world : World
world = record {
  casefold_strip = λ t. t;
  hash_token = λ t. t;
  verify_password = eq_text;
  needs_rehash = λ t. false;
  hash_password = λ n t. t;
  raw_token = λ n. n ∷ [];
  new_family_id = λ n. n ∷ [];
  csrf_token = λ n. n ∷ [];
  access_token = λ n u t. n ∷ [];
  next_id = length;
  refresh_ttl = 1000;
  access_ttl = 15;
  login_max_attempts = 1;
  login_lockout_base_seconds = 60;
  login_lockout_max_seconds = 3600;
}

abbrev ann : User
ann = record {
  id = 1;
  username = codes "ann";
  password_hash = codes "right";
  role = codes "admin";
  is_active = true;
  must_change_password = false;
  failed_login_count = 0;
  locked_until = none;
  last_login_at = none;
  last_login_ip = none;
}

abbrev locked_ann : User
locked_ann = record ann { locked_until = some 100 }

abbrev token : RefreshToken
token = record {
  id = 0;
  user_id = 1;
  token_hash = codes "t";
  family_id = codes "f";
  expires_at = 500;
  created_at = 0;
  revoked_at = none;
  revoked_reason = none;
  user_agent = none;
  ip_address = none;
}

abbrev state : List User → State
state users = record {
  users = users;
  tokens = token ∷ [];
  audit = [];
  limiter = record { max = 5; window = 900; max_keys = 4096; hits = [] };
  draws = 7;
}

abbrev home : Context
home = record { ip_address = none; user_agent = none }

abbrev renewed : IssuedSession
renewed = session_of world ann (codes "f") 10 (state (ann ∷ []))

refreshed : (refresh world (codes "t") home 10 (state (ann ∷ []))).0 ≡ ok renewed
unfolding refresh
refreshed = refl

refresh-reused_example :
    ((refresh world (codes "t") home 20 (refresh world (codes "t") home 10 (state (ann ∷ []))).1).0
      ≡ raised reused_token)
    × (active
          (codes "f")
          (refresh world
            (codes "t")
            home
            20
            (refresh world (codes "t") home 10 (state (ann ∷ []))).1).1.tokens
        ≡ 0)
refresh-reused_example =
    refresh-reused world home home 10 20 (state (ann ∷ [])) renewed (codes "t") refreshed

one_token : IsSingle (token ∷ [])
one_token = λ family_id. ground arith

refresh-IsSingle_example : IsSingle (refresh world (codes "t") home 10 (state (ann ∷ []))).1.tokens
refresh-IsSingle_example = refresh-IsSingle world home 10 (state (ann ∷ [])) (codes "t") one_token

stored_before : get_by_hash (codes "t") (token ∷ []) ≡ some token
unfolding get_by_hash
stored_before = refl

stored_after :
    get_by_hash (codes "t") (logout world (some (codes "t")) home 10 (state (ann ∷ []))).1.tokens
    ≡ some (record token { revoked_at = some 10; revoked_reason = some logged_out })
unfolding get_by_hash logout revoke_family
stored_after = refl

logout-ends_example :
    (active (codes "f") (logout world (some (codes "t")) home 10 (state (ann ∷ []))).1.tokens ≡ 0)
    × ((refresh world
          (codes "t")
          home
          20
          (logout world (some (codes "t")) home 10 (state (ann ∷ []))).1).0
        ≡ raised reused_token)
logout-ends_example =
    logout-ends world home home 10 20 (state (ann ∷ [])) b't' [] (codes "t") token
      (record token { revoked_at = some 10; revoked_reason = some logged_out }) stored_before
      stored_after refl

found : get_by_username world (codes "ann") (ann ∷ []) ≡ some ann
unfolding get_by_username
found = refl

found_locked : get_by_username world (codes "ann") (locked_ann ∷ []) ≡ some locked_ann
unfolding get_by_username
found_locked = refl

admitted :
    (check (limiter_key home (codes "ann")) 0 (state (ann ∷ [])).limiter).0
    ≡ some (record { allowed = true; remaining = 5; retry_after_seconds = 0 })
unfolding check
admitted = refl

soon : 30 < 10 + lock_seconds world 1
unfolding lockout_duration_seconds
soon = omega arith

login-lockout_example :
    (login world
      (codes "ann")
      (codes "right")
      home
      30
      1
      (login world (codes "ann") (codes "wrong") home 10 0 (state (ann ∷ []))).1).0
    ≢ ok renewed
login-lockout_example =
    login-lockout world home 10 0 ann (codes "ann") (codes "wrong") (state (ann ∷ []))
      (record { allowed = true; remaining = 5; retry_after_seconds = 0 }) admitted refl found refl
      refl home 30 1 (codes "right") renewed (omega arith) soon

change_password-outcome_example :
    ((change_password world ann (codes "right") (codes "twelve chars") home 10 (state (ann ∷ []))).0
        ≡ ok tt)
      × (live_of 1
            (change_password world ann
              (codes "right")
              (codes "twelve chars")
              home
              10
              (state (ann ∷ []))).1.tokens
          ≡ 0)
      × (12 ≤ length (codes "twelve chars"))
      × (codes "twelve chars" ≢ codes "right")
      × (world.verify_password ann.password_hash (codes "right") ≡ true)
      × ((id : ℕ)
          → get_user id
              (change_password world ann
                (codes "right")
                (codes "twelve chars")
                home
                10
                (state (ann ∷ []))).1.users
            ≡ Option.map
                (λ u.
                  if u.id == 1
                  then record u {
                    password_hash = world.hash_password 0 (codes "twelve chars");
                    must_change_password = false;
                  }
                  else u)
                (get_user id (ann ∷ [])))
    ⊎ ((change_password world ann
          (codes "right")
          (codes "twelve chars")
          home
          10
          (state (ann ∷ []))).0
        ≢ ok tt)
      × ((change_password world ann
            (codes "right")
            (codes "twelve chars")
            home
            10
            (state (ann ∷ []))).1.tokens
          ≡ token ∷ [])
      × ((change_password world ann
            (codes "right")
            (codes "twelve chars")
            home
            10
            (state (ann ∷ []))).1.users
          ≡ ann ∷ [])
change_password-outcome_example =
    change_password-outcome world ann (codes "right") (codes "twelve chars") home 10
      (state (ann ∷ []))

lockout_duration_seconds-doubles_example :
    lockout_duration_seconds 4 60 3600 ≡ min (60 * 2 ^ 3) 3600
lockout_duration_seconds-doubles_example = lockout_duration_seconds-doubles 3 60 3600 (omega arith)

families_fresh : (n : ℕ) → active (n ∷ codes "new") (token ∷ []) ≡ 0
families_fresh n = ground arith

abbrev fresh_world : World
fresh_world = record world { new_family_id = λ n. n ∷ codes "new" }
