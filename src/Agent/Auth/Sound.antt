-- ===== src/Agent/Auth/Sound.antt =====
-- What an accepted request has proved, and what a refused one leaves behind.
use proxsync.Prelude.{
  ℕ, ◌≤◌, ◌≡◌, refl, Bool, true, false, ap, sym, ◌∙◌, ◌&&◌, Option, none, some, ◌⊎◌, inl, inr,
  length, leb, arith, Bool-cases,
}
use proxsync.Prelude.Text.{Text, eq_text→eq}
use proxsync.Effects.{Result, ok, raised}
use proxsync.Agent.Auth.{
  NonceCache, claim, Float, Platform, AuthError, replayed_nonce, Request, RequestAuthenticator,
  sign_request, compare_digest, exceeds, claim_nonce, check_signature, check_time, check_timestamp,
  check_key, Credentials, credentials, verify_credentials, verify,
}

compare_digest-ok : (a b : Text) → compare_digest a b ≡ ok true → a ≡ b
unfolding compare_digest
compare_digest-ok a b h = eq_text→eq a b (ground arith)

-- An accepted request carries the configured key id, a nonce of 8 to 128 characters that was free,
-- a timestamp that is not outside the window, and the signature of its own method, path,
-- timestamp, nonce and body.
pub record IsAuthentic (p : Platform) (auth : RequestAuthenticator) (request : Request) (now : ℕ)
    (cache : NonceCache) : Type 0 where
  pub timestamp : Text
  pub nonce : Text
  pub signature : Text
  pub time : Float
  pub carried : credentials p request ≡ some (auth.key_id, timestamp, nonce, signature)
  pub long_enough : 8 ≤ length nonce
  pub short_enough : length nonce ≤ 128
  pub read : p.float timestamp ≡ some time
  pub fresh : exceeds auth.window now time ≡ false
  pub signed :
      signature
      ≡ sign_request p auth.secret request.method request.path timestamp nonce request.body
  pub free : (claim nonce now cache).1 ≡ true
  pub claimed : (verify p auth request now cache).1 ≡ (claim nonce now cache).0

module _ (now : ℕ) (nonce : Text) (cache : NonceCache) where
  -- The nonce was free, and the cache is the one that its claim leaves.
  abbrev Claimed : NonceCache → Type 0
  Claimed after = ((claim nonce now cache).1 ≡ true) × (after ≡ (claim nonce now cache).0)

  claim_nonce_passed :
      (claim_nonce nonce now cache).0 ≡ ok tt → Claimed (claim_nonce nonce now cache).1
  unfolding claim_nonce
  claim_nonce_passed h = elim (Bool-cases (claim nonce now cache).1) [
    | inl free ↦ (free, refl)
    | inr used ↦ absurd (ground (arith, used))
  ]

  signature_passed :
      (c : Result AuthError Bool)
      → (check_signature c nonce now cache).0 ≡ ok tt
      → (c ≡ ok true) × Claimed (check_signature c nonce now cache).1
  unfolding check_signature
  signature_passed (raised e) h = cc
  signature_passed (ok false) h = cc
  signature_passed (ok true) h = (refl, claim_nonce_passed h)

  time_passed :
      (late : Bool) (c : Result AuthError Bool)
      → (check_time late c nonce now cache).0 ≡ ok tt
      → (late ≡ false) × (c ≡ ok true) × Claimed (check_time late c nonce now cache).1
  unfolding check_time
  time_passed true c h = cc
  time_passed false c h = let (s, k) = signature_passed c h in (refl, s, k)

  timestamp_passed :
      (window : ℕ) (o : Option Float) (c : Result AuthError Bool)
      → (check_timestamp window o c nonce now cache).0 ≡ ok tt
      → (time : Float) × (o ≡ some time)
        × (exceeds window now time ≡ false)
        × (c ≡ ok true)
        × Claimed (check_timestamp window o c nonce now cache).1
  unfolding check_timestamp
  timestamp_passed window none c h = cc
  timestamp_passed window (some time) c h =
      let (f, s, k) = time_passed (exceeds window now time) c h in (time, refl, f, s, k)

  key_passed :
      (c : Result AuthError Bool) (well_formed : Bool)
      (rest : NonceCache → Result AuthError Unit × NonceCache)
      → (check_key c well_formed rest cache).0 ≡ ok tt
      → (c ≡ ok true)
        × (well_formed ≡ true)
        × ((rest cache).0 ≡ ok tt)
        × ((check_key c well_formed rest cache).1 ≡ (rest cache).1)
  unfolding check_key
  key_passed (raised e) w rest h = cc
  key_passed (ok false) w rest h = cc
  key_passed (ok true) false rest h = cc
  key_passed (ok true) true rest h = (refl, refl, h, refl)

module _ (p : Platform) (auth : RequestAuthenticator) (request : Request) (now : ℕ)
    (cache : NonceCache) where
  verify_credentials_passed :
      (o : Option Credentials)
      → credentials p request ≡ o
      → verify_credentials p auth request now o cache ≡ verify p auth request now cache
      → (verify_credentials p auth request now o cache).0 ≡ ok tt
      → IsAuthentic p auth request now cache
  unfolding verify_credentials
  verify_credentials_passed none e v h = cc
  verify_credentials_passed (some (key_id, timestamp, nonce, signature)) e v h =
      let mac =
        sign_request p auth.secret request.method request.path timestamp nonce request.body in
      let (key, form, rest, after) =
        key_passed now nonce cache (compare_digest key_id auth.key_id)
          (leb 8 (length nonce) && leb (length nonce) 128)
          (check_timestamp auth.window (p.float timestamp) (compare_digest mac signature) nonce now)
          h in
      let (time, read, fresh, signed, taken) =
        timestamp_passed now nonce cache auth.window (p.float timestamp)
          (compare_digest mac signature) rest in
      record {
        timestamp = timestamp;
        nonce = nonce;
        signature = signature;
        time = time;
        carried = e ∙ ap (λ k. some (k, timestamp, nonce, signature)) (compare_digest-ok _ _ key);
        long_enough = ground arith;
        short_enough = ground arith;
        read = read;
        fresh = fresh;
        signed = sym (compare_digest-ok _ _ signed);
        free = taken.0;
        claimed = sym (ap (λ r. r.1) v) ∙ after ∙ taken.1;
      }

  -- A request is accepted only if it is authentic and fresh: the configured key id, a free nonce of
  -- admissible length, a timestamp that is not outside the window, and a signature over the very
  -- method, path, timestamp, nonce and body that it carries.
  pub verify-IsAuthentic :
      (verify p auth request now cache).0 ≡ ok tt → IsAuthentic p auth request now cache
  unfolding verify
  verify-IsAuthentic h = verify_credentials_passed (credentials p request) refl refl h

-- The cache is as before, or it is what one claim leaves.
abbrev pub ClaimsOnce : ℕ → NonceCache → NonceCache → Type 0
ClaimsOnce now cache after =
    (after ≡ cache) ⊎ ((nonce : Text) × (after ≡ (claim nonce now cache).0))

-- Unless the nonce alone was wrong, a refusal leaves the cache as it was.
abbrev pub BurnsNothing : Result AuthError Unit → NonceCache → NonceCache → Type 0
BurnsNothing (ok u) cache after = Unit
BurnsNothing (raised e) cache after = (e ≡ replayed_nonce) ⊎ (after ≡ cache)

module _ (now : ℕ) (nonce : Text) (cache : NonceCache) where
  -- Both, of an outcome.
  abbrev IsCareful : Result AuthError Unit × NonceCache → Type 0
  IsCareful out = ClaimsOnce now cache out.1 × BurnsNothing out.0 cache out.1

  claim_nonce-IsCareful : IsCareful (claim_nonce nonce now cache)
  unfolding claim_nonce
  claim_nonce-IsCareful = elim (Bool-cases (claim nonce now cache).1) [
    | inl free ↦ simp free (inr (nonce, refl), tt)
    | inr used ↦ simp used (inr (nonce, refl), inl refl)
  ]

  signature-IsCareful : (c : Result AuthError Bool) → IsCareful (check_signature c nonce now cache)
  unfolding check_signature
  signature-IsCareful (raised e) = (inl refl, inr refl)
  signature-IsCareful (ok false) = (inl refl, inr refl)
  signature-IsCareful (ok true) = claim_nonce-IsCareful

  time-IsCareful :
      (late : Bool) (c : Result AuthError Bool) → IsCareful (check_time late c nonce now cache)
  unfolding check_time
  time-IsCareful true c = (inl refl, inr refl)
  time-IsCareful false c = signature-IsCareful c

  timestamp-IsCareful :
      (window : ℕ) (o : Option Float) (c : Result AuthError Bool)
      → IsCareful (check_timestamp window o c nonce now cache)
  unfolding check_timestamp
  timestamp-IsCareful window none c = (inl refl, inr refl)
  timestamp-IsCareful window (some time) c = time-IsCareful (exceeds window now time) c

  key-IsCareful :
      (c : Result AuthError Bool) (well_formed : Bool)
      (rest : NonceCache → Result AuthError Unit × NonceCache)
      → IsCareful (rest cache)
      → IsCareful (check_key c well_formed rest cache)
  unfolding check_key
  key-IsCareful (raised e) w rest h = (inl refl, inr refl)
  key-IsCareful (ok false) w rest h = (inl refl, inr refl)
  key-IsCareful (ok true) false rest h = (inl refl, inr refl)
  key-IsCareful (ok true) true rest h = h

module _ (p : Platform) (auth : RequestAuthenticator) (request : Request) (now : ℕ)
    (cache : NonceCache) where
  credentials-IsCareful :
      (o : Option Credentials)
      → ClaimsOnce now cache (verify_credentials p auth request now o cache).1
        × BurnsNothing
            (verify_credentials p auth request now o cache).0
            cache
            (verify_credentials p auth request now o cache).1
  unfolding verify_credentials
  credentials-IsCareful none = (inl refl, inr refl)
  credentials-IsCareful (some (key_id, timestamp, nonce, signature)) =
      key-IsCareful now nonce cache (compare_digest key_id auth.key_id) _ _
        (timestamp-IsCareful now nonce cache auth.window (p.float timestamp) _)

  -- Every check of a request claims at most one nonce, and a request that is refused for any reason
  -- but a replay leaves the cache as it was: without the secret no nonce can be used up.
  pub verify-BurnsNothing :
      ClaimsOnce now cache (verify p auth request now cache).1
      × BurnsNothing (verify p auth request now cache).0 cache (verify p auth request now cache).1
  unfolding verify
  verify-BurnsNothing = credentials-IsCareful (credentials p request)
