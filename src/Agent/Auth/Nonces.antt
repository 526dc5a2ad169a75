-- ===== src/Agent/Auth/Nonces.antt =====
-- The nonce cache keeps what it must and stays within its bound.
use proxsync.Prelude.{
  ℕ, suc, ◌+◌, ◌≤◌, ◌<◌, ◌≡◌, true, false, List, [], ◌∷◌, ◌++◌, leb, ltb, length, length-append,
  arith, Bool-cases, inl, inr,
}
use proxsync.Prelude.Text.{Text, eq_text_refl}
use proxsync.Agent.Auth.{NonceCache, purge, holds, trim, claim}

-- The nonce was seen at that time, and at most `k` entries are newer than its own.
pub data Held (nonce : Text) (seen_at k : ℕ) : List (Text × ℕ) → Type 0 where
  here : {post : List (Text × ℕ)} → length post ≤ k → Held nonce seen_at k ((nonce, seen_at) ∷ post)
  older :
      {e : Text × ℕ} {entries : List (Text × ℕ)}
      → Held nonce seen_at k entries
      → Held nonce seen_at k (e ∷ entries)

module _ (nonce : Text) (seen_at : ℕ) where
  holds-Held :
      (k : ℕ) (entries : List (Text × ℕ))
      → Held nonce seen_at k entries
      → holds nonce entries ≡ true
  unfolding holds
  holds-Held k [] h = elim h [ ]
  holds-Held k ((n, t) ∷ entries) (here h) = ground (arith, eq_text_refl nonce)
  holds-Held k ((n, t) ∷ entries) (older h) = ground (arith, holds-Held k entries h)

  purge-Held :
      (k ttl now : ℕ) (entries : List (Text × ℕ))
      → now ≤ seen_at + ttl
      → Held nonce seen_at k entries
      → Held nonce seen_at k (purge ttl now entries)
  unfolding purge
  purge-Held k ttl now [] fresh h = elim h [ ]
  purge-Held k ttl now ((n, t) ∷ entries) fresh (here h) =
      let keep : leb now (seen_at + ttl) ≡ true = ground arith in rw keep (here h)
  purge-Held k ttl now ((n, t) ∷ entries) fresh (older h) = elim (Bool-cases (leb now (t + ttl))) [
    | inl keep ↦ rw keep (older h)
    | inr drop ↦ rw drop (purge-Held k ttl now entries fresh h)
  ]

  append-Held :
      (k : ℕ) (e : Text × ℕ) (entries : List (Text × ℕ))
      → Held nonce seen_at k entries
      → Held nonce seen_at (suc k) (entries ++ e ∷ [])
  append-Held k e [] h = elim h [ ]
  append-Held k e (x ∷ entries) (here h) = here (omega (arith, length-append {0} entries (e ∷ [])))
  append-Held k e (x ∷ entries) (older h) = older (append-Held k e entries h)

  trim-Held :
      (k max_size : ℕ) (entries : List (Text × ℕ))
      → k < max_size
      → Held nonce seen_at k entries
      → Held nonce seen_at k (trim max_size entries)
  unfolding trim
  trim-Held k max_size [] room h = elim h [ ]
  trim-Held k max_size ((n, t) ∷ entries) room (here h) =
      let fits : ltb max_size (length ((n, t) ∷ entries)) ≡ false = ground arith in rw fits (here h)
  trim-Held k max_size (x ∷ entries) room (older h) =
      elim (Bool-cases (ltb max_size (length (x ∷ entries)))) [
        | inl drop ↦ rw drop (trim-Held k max_size entries room h)
        | inr fits ↦ rw fits (older h)
      ]

  pub Held-weaken :
      (k : ℕ) (entries : List (Text × ℕ))
      → Held nonce seen_at k entries
      → Held nonce seen_at (suc k) entries
  Held-weaken k [] h = elim h [ ]
  Held-weaken k (x ∷ entries) (here h) = here (omega arith)
  Held-weaken k (x ∷ entries) (older h) = older (Held-weaken k entries h)

  -- One more claim, of any nonce, keeps an entry that has not expired while there is room.
  pub claim-Held :
      (k now : ℕ) (other : Text) (cache : NonceCache)
      → now ≤ seen_at + cache.ttl
      → suc k < cache.max_size
      → Held nonce seen_at k cache.entries
      → Held nonce seen_at (suc k) (claim other now cache).0.entries
  unfolding claim
  claim-Held k now other cache fresh room h =
      let kept : Held nonce seen_at k (purge cache.ttl now cache.entries) =
        purge-Held k cache.ttl now cache.entries fresh h in
      elim (Bool-cases (holds other (purge cache.ttl now cache.entries))) [
        | inl again ↦ simp again (Held-weaken k _ kept)
        | inr new ↦ simp new (trim-Held (suc k) cache.max_size _ room (append-Held k _ _ kept))
      ]

  pub claim-replayed :
      (k now : ℕ) (cache : NonceCache)
      → now ≤ seen_at + cache.ttl
      → Held nonce seen_at k cache.entries
      → (claim nonce now cache).1 ≡ false
  unfolding claim
  claim-replayed k now cache fresh h =
      simp (holds-Held k _ (purge-Held k cache.ttl now cache.entries fresh h))

last-Held :
    (nonce : Text) (now : ℕ) (entries : List (Text × ℕ))
    → Held nonce now 0 (entries ++ (nonce, now) ∷ [])
last-Held nonce now [] = here (omega arith)
last-Held nonce now (e ∷ entries) = older (last-Held nonce now entries)

-- A claim that succeeds leaves the nonce as the newest entry.
pub claim-newest :
    (nonce : Text) (now : ℕ) (cache : NonceCache)
    → 0 < cache.max_size
    → (claim nonce now cache).1 ≡ true
    → Held nonce now 0 (claim nonce now cache).0.entries
unfolding claim
claim-newest nonce now cache room h =
    elim (Bool-cases (holds nonce (purge cache.ttl now cache.entries))) [
      | inl again ↦ absurd (ground (arith, again))
      | inr new ↦ simp new (trim-Held nonce now 0 cache.max_size _ room (last-Held nonce now _))
    ]

pub claim_fields :
    (nonce : Text) (now : ℕ) (cache : NonceCache)
    → ((claim nonce now cache).0.ttl ≡ cache.ttl)
      × ((claim nonce now cache).0.max_size ≡ cache.max_size)
unfolding claim
claim_fields nonce now cache = ground arith

length-trim : (max_size : ℕ) (entries : List (Text × ℕ)) → length (trim max_size entries) ≤ max_size
unfolding trim
length-trim max_size [] = omega arith
length-trim max_size (e ∷ entries) = ground (arith, length-trim max_size entries)

length-purge :
    (ttl now : ℕ) (entries : List (Text × ℕ)) → length (purge ttl now entries) ≤ length entries
unfolding purge
length-purge ttl now [] = omega arith
length-purge ttl now ((n, t) ∷ entries) = ground (arith, length-purge ttl now entries)

-- A cache within its bound stays within it, whatever is claimed and when.
pub claim_bounded :
    (nonce : Text) (now : ℕ) (cache : NonceCache)
    → length cache.entries ≤ cache.max_size
    → length (claim nonce now cache).0.entries ≤ cache.max_size
unfolding claim
claim_bounded nonce now cache h = ground (
  arith,
  length-purge cache.ttl now cache.entries,
  length-trim cache.max_size (purge cache.ttl now cache.entries ++ (nonce, now) ∷ []),
)
