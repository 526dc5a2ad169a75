-- ===== src/Agent/Auth/Replay.antt =====
-- A request that was accepted once is not accepted again.
use mathlib.Core.Path.{subst}
use native.Mathlib.Nat.{add-zero}
use proxsync.Prelude.{
  ◌≢◌, ℕ, suc, ◌+◌, ◌*◌, ◌≤◌, ◌<◌, ◌≡◌, sym, ap, ◌∙◌, true, false, Option, none, some, List, [],
  ◌∷◌, inl, inr, length, All, arith,
}
use proxsync.Prelude.Int.{ℤ}
use proxsync.Prelude.Text.{Text}
use proxsync.Effects.{ok}
use proxsync.Agent.Auth.{
  NonceCache, claim, Float, finite, Platform, Request, RequestAuthenticator, exceeds, Credentials,
  credentials, verify,
}
use proxsync.Agent.Auth.Nonces.{
  Held, Held-weaken, claim-Held, claim-replayed, claim-newest, claim_fields,
}
use proxsync.Agent.Auth.Sound.{verify-IsAuthentic, ClaimsOnce, verify-BurnsNothing}

-- The cache after a sequence of requests, each checked at its time.
pub serve : Platform → RequestAuthenticator → List (Request × ℕ) → NonceCache → NonceCache
serve p auth [] cache = cache
serve p auth ((request, now) ∷ rest) cache = serve p auth rest (verify p auth request now cache).1

-- An entry with its time, in a cache of a given lifetime and size.
record Remembers (nonce : Text) (seen_at k ttl max_size : ℕ) (cache : NonceCache) : Type 0 where
  held : Held nonce seen_at k cache.entries
  lifetime : cache.ttl ≡ ttl
  size : cache.max_size ≡ max_size

module _ (nonce : Text) (seen_at ttl max_size : ℕ) where
  claim-Remembers :
      (k now : ℕ) (other : Text) (cache : NonceCache)
      → now ≤ seen_at + ttl
      → suc k < max_size
      → Remembers nonce seen_at k ttl max_size cache
      → Remembers nonce seen_at (suc k) ttl max_size (claim other now cache).0
  claim-Remembers k now other cache fresh room r = record {
    held = claim-Held nonce seen_at k now other cache (omega arith) (omega arith) r.held;
    lifetime = (claim_fields other now cache).0 ∙ r.lifetime;
    size = (claim_fields other now cache).1 ∙ r.size;
  }

  kept-Remembers :
      (k : ℕ) (cache after : NonceCache)
      → after ≡ cache
      → Remembers nonce seen_at k ttl max_size cache
      → Remembers nonce seen_at (suc k) ttl max_size after
  kept-Remembers k cache after same r =
      subst (Remembers nonce seen_at (suc k) ttl max_size) (sym same) (record {
        held = Held-weaken nonce seen_at k cache.entries r.held;
        lifetime = r.lifetime;
        size = r.size;
      })

  step-Remembers :
      (k now : ℕ) (cache after : NonceCache)
      → ClaimsOnce now cache after
      → now ≤ seen_at + ttl
      → suc k < max_size
      → Remembers nonce seen_at k ttl max_size cache
      → Remembers nonce seen_at (suc k) ttl max_size after
  step-Remembers k now cache after (inl same) fresh room r = kept-Remembers k cache after same r
  step-Remembers k now cache after (inr (other, claimed)) fresh room r =
      subst (Remembers nonce seen_at (suc k) ttl max_size) (sym claimed)
        (claim-Remembers k now other cache fresh room r)

  serve-Remembers :
      (p : Platform) (auth : RequestAuthenticator) (later : List (Request × ℕ)) (k : ℕ)
      (cache : NonceCache)
      → All (λ x. x.1 ≤ seen_at + ttl) later
      → k + length later < max_size
      → Remembers nonce seen_at k ttl max_size cache
      → Remembers nonce seen_at (k + length later) ttl max_size (serve p auth later cache)
  unfolding serve
  serve-Remembers p auth [] k cache fresh room r = rw add-zero r
  serve-Remembers p auth ((request, now) ∷ later) k cache fresh room r =
      let same : suc k + length later ≡ k + suc (length later) = omega arith in
      subst
        (λ n.
          Remembers nonce seen_at n ttl max_size
            (serve p auth later (verify p auth request now cache).1))
        same
        (serve-Remembers p auth later (suc k) (verify p auth request now cache).1 fresh.1
          (omega arith)
          (step-Remembers k now cache _ (verify-BurnsNothing p auth request now cache).0 fresh.0
            (omega arith) r))

-- Two checks that both find a finite timestamp in the window are at most twice the window apart.
window_span :
    (window first second : ℕ) (time : ℤ)
    → exceeds window first (finite time) ≡ false
    → exceeds window second (finite time) ≡ false
    → second ≤ first + window * 2
unfolding exceeds
window_span window first second time h k = ground arith

All-trans :
    (later : List (Request × ℕ)) (m n : ℕ)
    → All (λ x. x.1 ≤ m) later
    → m ≤ n
    → All (λ x. x.1 ≤ n) later
All-trans [] m n h k = tt
All-trans (x ∷ later) m n h k = (omega arith, All-trans later m n h.1 k)

abbrev creds_or : Credentials → Option Credentials → Credentials
creds_or d none = d
creds_or d (some c) = c

abbrev float_or : Float → Option Float → Float
float_or d none = d
float_or d (some f) = f

module _ (p : Platform) (auth : RequestAuthenticator) (request : Request) (cache : NonceCache)
    (key_id timestamp nonce signature : Text) (time : ℤ)
    (carried : credentials p request ≡ some (key_id, timestamp, nonce, signature))
    (read : p.float timestamp ≡ some (finite time)) where
  -- What an accepted request says of the nonce and the timestamp that it is known to carry.
  record Admitted (now : ℕ) : Type 0 where
    fresh : exceeds auth.window now (finite time) ≡ false
    free : (claim nonce now cache).1 ≡ true
    claimed : (verify p auth request now cache).1 ≡ (claim nonce now cache).0

  admitted : (now : ℕ) → (verify p auth request now cache).0 ≡ ok tt → Admitted now
  admitted now h =
      let a = verify-IsAuthentic p auth request now cache h in
      let same : some (auth.key_id, a.timestamp, a.nonce, a.signature)
          ≡ some (key_id, timestamp, nonce, signature) =
        sym a.carried ∙ carried in
      let pair = ap (creds_or (key_id, timestamp, nonce, signature)) same in
      let same_nonce : a.nonce ≡ nonce = ap (λ c. c.2) pair in
      let same_time : a.time ≡ finite time =
        ap (float_or (finite time)) (sym a.read ∙ ap p.float (ap (λ c. c.1) pair) ∙ read) in
      record {
        fresh = subst (λ f. exceeds auth.window now f ≡ false) same_time a.fresh;
        free = subst (λ n. (claim n now cache).1 ≡ true) same_nonce a.free;
        claimed =
            subst (λ n. (verify p auth request now cache).1 ≡ (claim n now cache).0) same_nonce
              a.claimed;
      }

module _ (p : Platform) (auth : RequestAuthenticator) (request : Request) (cache : NonceCache)
    (key_id timestamp nonce signature : Text) (time : ℤ)
    (carried : credentials p request ≡ some (key_id, timestamp, nonce, signature))
    (read : p.float timestamp ≡ some (finite time)) where
  remembered :
      (first : ℕ)
      → cache.ttl ≡ auth.window * 2
      → 0 < cache.max_size
      → (verify p auth request first cache).0 ≡ ok tt
      → Remembers nonce first 0
          (auth.window * 2)
          cache.max_size
          (verify p auth request first cache).1
  remembered first lifetime room accepted =
      let a =
        admitted p auth request cache key_id timestamp nonce signature time carried read first
          accepted in
      subst (Remembers nonce first 0 (auth.window * 2) cache.max_size) (sym a.claimed) (record {
        held = claim-newest nonce first cache room a.free;
        lifetime = (claim_fields nonce first cache).0 ∙ lifetime;
        size = (claim_fields nonce first cache).1;
      })

  -- Once a request with a finite timestamp has been accepted, the same request is refused at any
  -- later time, whatever requests are checked in between at times up to then, as long as they are
  -- fewer than the cache holds. The lifetime of an entry is twice the window, as the agent wires it.
  pub verify-replayed :
      (first second : ℕ) (later : List (Request × ℕ))
      → cache.ttl ≡ auth.window * 2
      → length later < cache.max_size
      → All (λ x. x.1 ≤ second) later
      → (verify p auth request first cache).0 ≡ ok tt
      → (verify p auth request second (serve p auth later (verify p auth request first cache).1)).0
        ≢ ok tt
  verify-replayed first second later lifetime room ordered accepted again =
      let last = serve p auth later (verify p auth request first cache).1 in
      let a =
        admitted p auth request cache key_id timestamp nonce signature time carried read first
          accepted in
      let b =
        admitted p auth request last key_id timestamp nonce signature time carried read second
          again in
      let near : second ≤ first + auth.window * 2 =
        window_span auth.window first second time a.fresh b.fresh in
      let r =
        serve-Remembers nonce first (auth.window * 2) cache.max_size p auth later 0
          (verify p auth request first cache).1
          (All-trans later second (first + auth.window * 2) ordered near) (omega arith)
          (remembered first lifetime (omega arith) accepted) in
      cc (
        b.free,
        claim-replayed nonce first (0 + length later) second last (rw r.lifetime near) r.held,
      )
