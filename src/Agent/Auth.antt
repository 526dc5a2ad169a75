-- ===== src/Agent/Auth.antt =====
-- Request authentication: agent/app/core/security.py, and its wiring in agent/app/api/deps.py.
-- Times are natural numbers of clock ticks, and windows are in the same unit. Hashing, case mapping
-- and the parsing of a float are Python's: a `Platform`.
pub mod Nonces
pub mod Replay
pub mod Sound
pub mod Canonical
mod Examples
use proxsync.Prelude.{
  ℕ, zero, suc, ◌+◌, ◌-◌, ◌*◌, Bool, true, false, not, ◌&&◌, ◌||◌, Option, none, some, List, [],
  ◌∷◌, ◌++◌, ltb, leb, ◌==◌, length, any, all, if◌then◌else◌,
}
use proxsync.Prelude.Int.{ℤ, pos, negsuc}
use proxsync.Prelude.Text.{Text, codes, eq_text}
use proxsync.Effects.{Result, ok, raised, Action, return, raise, ◌>>=◌, ◌>>◌, resume}

-- The entries of the `OrderedDict`, oldest insertion first.
pub record NonceCache : Type 0 where
  pub ttl : ℕ
  pub max_size : ℕ
  pub entries : List (Text × ℕ)

-- `_purge`: `seen_at < now - ttl` is `seen_at + ttl < now`.
purge : ℕ → ℕ → List (Text × ℕ) → List (Text × ℕ)
purge ttl now [] = []
purge ttl now ((nonce, seen_at) ∷ entries) =
    let rest = purge ttl now entries in
    if leb now (seen_at + ttl) then (nonce, seen_at) ∷ entries else rest

-- `nonce in self._entries`
pub holds : Text → List (Text × ℕ) → Bool
holds nonce [] = false
holds nonce ((n, seen_at) ∷ entries) = eq_text n nonce || holds nonce entries

-- `while len(self._entries) > self._max_size: popitem(last=False)`
trim : ℕ → List (Text × ℕ) → List (Text × ℕ)
trim max_size [] = []
trim max_size (e ∷ entries) =
    let rest = trim max_size entries in
    if ltb max_size (length (e ∷ entries)) then rest else e ∷ entries

-- `claim`: the new cache, and whether the nonce was free.
pub claim : Text → ℕ → NonceCache → NonceCache × Bool
unfolding purge holds trim
claim nonce current cache =
    let entries = purge cache.ttl current cache.entries in
    if holds nonce entries
    then (record cache { entries = entries }, false)
    else (record cache { entries = trim cache.max_size (entries ++ (nonce, current) ∷ []) }, true)

pub data Float : Type 0 where
  finite : ℤ → Float
  infinite nan : Float

pub record Platform : Type 0 where
  pub upper : Text → Text
  pub lower : Text → Text
  pub sha256_hex : Text → Text
  pub hmac_sha256_hex : Text → Text → Text
  pub float : Text → Option Float

pub data AuthError : Type 0 where
  missing_headers unknown_key_id malformed_nonce malformed_timestamp outside_window : AuthError
  invalid_signature replayed_nonce : AuthError
  -- `hmac.compare_digest` raises it for a text that is not ASCII
  type_error : AuthError

pub record Request : Type 0 where
  pub method : Text
  pub path : Text
  pub headers : List (Text × Text)
  pub body : Text

pub record RequestAuthenticator : Type 0 where
  pub key_id : Text
  pub secret : Text
  pub window : ℕ

-- `build_canonical_string`
pub build_canonical_string : Platform → Text → Text → Text → Text → Text → Text
build_canonical_string p method path timestamp nonce body =
    p.upper method
    ++ b'|' ∷ (path ++ b'|' ∷ (timestamp ++ b'|' ∷ (nonce ++ b'|' ∷ p.sha256_hex body)))

pub sign_request : Platform → Text → Text → Text → Text → Text → Text → Text
unfolding build_canonical_string
sign_request p secret method path timestamp nonce body =
    p.hmac_sha256_hex secret (build_canonical_string p method path timestamp nonce body)

or_text : Option Text → Option Text → Option Text
or_text (some t) other = some t
or_text none other = other

-- `{name.lower(): value for …}.get(key)`: of two equal names the later one counts.
header : Platform → Text → List (Text × Text) → Option Text
unfolding or_text
header p key [] = none
header p key ((name, value) ∷ headers) =
    or_text (header p key headers) (if eq_text (p.lower name) key then some value else none)

abbrev is_ascii : Text → Bool
is_ascii = all (λ c. ltb c 128)

-- `hmac.compare_digest`
compare_digest : Text → Text → Result AuthError Bool
compare_digest a b = if is_ascii a && is_ascii b then ok (eq_text a b) else raised type_error

-- `abs(current - t) > window`, which is false for NaN.
distance : ℕ → ℤ → ℕ
distance current (pos t) = if leb t current then current - t else t - current
distance current (negsuc n) = current + suc n

pub exceeds : ℕ → ℕ → Float → Bool
unfolding distance
exceeds window current (finite t) = ltb window (distance current t)
exceeds window current infinite = true
exceeds window current nan = false

abbrev Verify : Type 0
Verify = Action AuthError NonceCache Unit

-- The signature holds: the nonce is claimed only now.
claim_nonce : Text → ℕ → Verify
unfolding claim
claim_nonce nonce current cache =
    let (after, free) = claim nonce current cache in
    (if free then ok tt else raised replayed_nonce, after)

check_signature : Result AuthError Bool → Text → ℕ → Verify
unfolding claim_nonce
check_signature (raised e) nonce current = raise e
check_signature (ok false) nonce current = raise invalid_signature
check_signature (ok true) nonce current = claim_nonce nonce current

check_time : Bool → Result AuthError Bool → Text → ℕ → Verify
unfolding check_signature
check_time true comparison nonce current = raise outside_window
check_time false comparison nonce current = check_signature comparison nonce current

check_timestamp : ℕ → Option Float → Result AuthError Bool → Text → ℕ → Verify
unfolding check_time
check_timestamp window none comparison nonce current = raise malformed_timestamp
check_timestamp window (some t) comparison nonce current =
    check_time (exceeds window current t) comparison nonce current

check_key : Result AuthError Bool → Bool → Verify → Verify
check_key (raised e) well_formed rest = raise e
check_key (ok false) well_formed rest = raise unknown_key_id
check_key (ok true) false rest = raise malformed_nonce
check_key (ok true) true rest = rest

-- The four headers, all present and not empty.
abbrev pub Credentials : Type 0
Credentials = Text × Text × Text × Text

non_empty : Option Text → Option Text
non_empty (some (c ∷ t)) = some (c ∷ t)
non_empty _ = none

all_four : Option Text → Option Text → Option Text → Option Text → Option Credentials
all_four (some key_id) (some timestamp) (some nonce) (some signature) =
    some (key_id, timestamp, nonce, signature)
all_four _ _ _ _ = none

-- The header names, in lower case.
pub credentials : Platform → Request → Option Credentials
unfolding header non_empty all_four
credentials p request =
    all_four (non_empty (header p (codes "x-proxsync-key") request.headers))
      (non_empty (header p (codes "x-proxsync-timestamp") request.headers))
      (non_empty (header p (codes "x-proxsync-nonce") request.headers))
      (non_empty (header p (codes "x-proxsync-signature") request.headers))

verify_credentials : Platform → RequestAuthenticator → Request → ℕ → Option Credentials → Verify
unfolding compare_digest check_key check_timestamp sign_request
verify_credentials p auth request now none = raise missing_headers
verify_credentials p auth request now (some (key_id, timestamp, nonce, signature)) =
    check_key (compare_digest key_id auth.key_id) (leb 8 (length nonce) && leb (length nonce) 128) (
      check_timestamp auth.window (p.float timestamp)
        (compare_digest
          (sign_request p auth.secret request.method request.path timestamp nonce request.body)
          signature)
        nonce now)

-- `RequestAuthenticator.verify`
pub verify : Platform → RequestAuthenticator → Request → ℕ → Verify
unfolding verify_credentials
verify p auth request now = verify_credentials p auth request now (credentials p request)

-- The cache that `build_container` makes for an authenticator.
pub nonce_cache_for : RequestAuthenticator → ℕ → NonceCache
nonce_cache_for auth max_size = record { ttl = auth.window * 2; max_size = max_size; entries = [] }

pub data AddressError : Type 0 where
  undetermined malformed not_permitted : AddressError

-- `assert_client_allowed`; parsing an address and testing a network are Python's `ipaddress`.
module _ {Address Network : Type 0} (ip_address : Text → Option Address)
    (contains : Network → Address → Bool) where
  assert_parsed : Option Address → List Network → Result AddressError Unit
  assert_parsed none networks = raised malformed
  assert_parsed (some address) networks =
      if any (λ network. contains network address) networks then ok tt else raised not_permitted

  assert_host : Option Text → List Network → Result AddressError Unit
  unfolding assert_parsed
  assert_host none networks = raised undetermined
  assert_host (some host) networks = assert_parsed (ip_address host) networks

  pub assert_client_allowed : Option Text → List Network → Result AddressError Unit
  unfolding assert_host
  assert_client_allowed host [] = ok tt
  assert_client_allowed host (network ∷ networks) = assert_host host (network ∷ networks)
