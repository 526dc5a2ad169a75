-- ===== src/Agent/Auth/Canonical.antt =====
-- The string that is signed determines the parts that it binds.
use proxsync.Prelude.{◌≡◌, refl, Bool, true, not, ◌&&◌, [], ◌∷◌, ◌++◌, ◌==◌, all, arith}
use proxsync.Prelude.Text.{Text}
use proxsync.Agent.Auth.{Platform, build_canonical_string}

-- No separator inside.
abbrev pub bar_free : Text → Bool
bar_free = all (λ c. not (c == b'|'))

split_bar :
    (s s' t t' : Text)
    → bar_free s ≡ true
    → bar_free s' ≡ true
    → s ++ b'|' ∷ t ≡ s' ++ b'|' ∷ t'
    → (s ≡ s') × (t ≡ t')
split_bar [] [] t t' h h' e = (refl, cc)
split_bar [] (c ∷ s') t t' h h' e = ground arith
split_bar (c ∷ s) [] t t' h h' e = ground arith
split_bar (c ∷ s) (c' ∷ s') t t' h h' e = ground (arith, split_bar s s' t t')

-- Two requests with the same canonical string, whose methods, paths, timestamps and nonces hold no
-- separator, agree in the method, the path with its query, the timestamp, the nonce and the hash of
-- the body.
pub build_canonical_string-injective :
    (p : Platform) (method method' path path' time time' nonce nonce' body body' : Text)
    → bar_free (p.upper method) && bar_free path && bar_free time && bar_free nonce ≡ true
    → bar_free (p.upper method') && bar_free path' && bar_free time' && bar_free nonce' ≡ true
    → build_canonical_string p method path time nonce body
      ≡ build_canonical_string p method' path' time' nonce' body'
    → (p.upper method ≡ p.upper method')
      × (path ≡ path')
      × (time ≡ time')
      × (nonce ≡ nonce')
      × (p.sha256_hex body ≡ p.sha256_hex body')
unfolding build_canonical_string
build_canonical_string-injective p method method' path path' time time' nonce nonce' body body' h h'
      e =
    let (m, e1) =
      split_bar (p.upper method) (p.upper method') _ _ (ground arith) (ground arith) e in
    let (q, e2) = split_bar path path' _ _ (ground arith) (ground arith) e1 in
    let (t, e3) = split_bar time time' _ _ (ground arith) (ground arith) e2 in
    let (n, e4) = split_bar nonce nonce' _ _ (ground arith) (ground arith) e3 in (m, q, t, n, e4)
