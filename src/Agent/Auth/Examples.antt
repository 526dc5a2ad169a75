-- ===== src/Agent/Auth/Examples.antt =====
-- The theorems of request authentication at concrete inputs.
use proxsync.Prelude.{◌≡◌, ◌≢◌, refl, some, [], ◌∷◌, length, arith}
use proxsync.Prelude.Int.{pos}
use proxsync.Prelude.Text.{Text, codes}
use proxsync.Effects.{ok}
use proxsync.Agent.Auth.{
  NonceCache, claim, finite, Platform, Request, RequestAuthenticator, credentials, exceeds, verify,
}
use proxsync.Agent.Auth.Sound.{IsAuthentic, verify-IsAuthentic}
use proxsync.Agent.Auth.Replay.{serve, verify-replayed}
use proxsync.Agent.Auth.Canonical.{build_canonical_string-injective}

-- A stand-in for the hashes: they only have to be functions here.
abbrev platform : Platform
platform = record {
  upper = λ t. t;
  lower = λ t. t;
  sha256_hex = λ t. t;
  hmac_sha256_hex = λ secret message. length message ∷ [];
  float = λ t. some (finite (pos 1000));
}

abbrev auth : RequestAuthenticator
auth = record { key_id = codes "dashboard"; secret = codes "s"; window = 60 }

abbrev cache : NonceCache
cache = record { ttl = 120; max_size = 4; entries = [] }

abbrev signed : Request
signed = record {
  method = codes "GET";
  path = codes "/health";
  headers =
      (codes "x-proxsync-key", codes "dashboard")
      ∷ (codes "x-proxsync-timestamp", codes "1000")
      ∷ (codes "x-proxsync-nonce", codes "abcdefgh")
      ∷ (codes "x-proxsync-signature", 26 ∷ [])
      ∷ [];
  body = [];
}

abbrev bare : Request
bare = record { method = codes "GET"; path = codes "/"; headers = []; body = [] }

signed_accepted : (verify platform auth signed 1010 cache).0 ≡ ok tt
unfolding verify credentials claim exceeds
signed_accepted = refl

signed_carries :
    credentials platform signed ≡ some (codes "dashboard", codes "1000", codes "abcdefgh", 26 ∷ [])
unfolding credentials
signed_carries = refl

verify-IsAuthentic_example : IsAuthentic platform auth signed 1010 cache
verify-IsAuthentic_example = verify-IsAuthentic platform auth signed 1010 cache signed_accepted

verify-replayed_example :
    (verify platform auth signed 1050
      (serve platform auth ((bare, 1020) ∷ []) (verify platform auth signed 1010 cache).1)).0
    ≢ ok tt
verify-replayed_example =
    verify-replayed platform auth signed cache (codes "dashboard") (codes "1000") (codes "abcdefgh")
      (26 ∷ []) (pos 1000) signed_carries refl 1010 1050 ((bare, 1020) ∷ []) refl (omega arith)
      (omega arith) signed_accepted

build_canonical_string-injective_example :
    (codes "GET" ≡ codes "GET")
    × (codes "/a" ≡ codes "/a")
    × (codes "1" ≡ codes "1")
    × (codes "n" ≡ codes "n")
    × ◌≡◌ {A = Text} [] []
build_canonical_string-injective_example =
    build_canonical_string-injective platform (codes "GET") (codes "GET") (codes "/a") (codes "/a")
      (codes "1") (codes "1") (codes "n") (codes "n") [] [] refl refl refl
