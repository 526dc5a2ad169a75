-- ===== src/Agent/Remotes.antt =====
-- Names and paths of rclone remotes: agent/app/validators/remotes.py. Which characters are white
-- space to `str.strip` is Python's: a parameter.
pub mod Safe
mod Examples
use proxsync.Prelude.{
  ℕ, Bool, true, false, not, ◌&&◌, ◌||◌, Option, none, some, List, [], ◌∷◌, ◌++◌, ltb, leb, ◌==◌,
  length, any, all, if◌then◌else◌,
}
use proxsync.Prelude.Text.{Text, codes, eq_text}
use proxsync.Effects.{Result, ok, raised}

pub data RemoteError : Type 0 where
  invalid_name not_permitted too_long null_byte control_character leading_dash colon : RemoteError
  glob_character bad_segment : RemoteError

-- `text.lstrip(…)`, `text.rstrip(…)` and `text.strip(…)` of the characters that pass a test.
pub lstrip : (ℕ → Bool) → Text → Text
lstrip p [] = []
lstrip p (c ∷ t) = let rest = lstrip p t in if p c then rest else c ∷ t

cons_unless : Bool → ℕ → Text → Text
cons_unless true c [] = []
cons_unless false c [] = c ∷ []
cons_unless b c (d ∷ t) = c ∷ d ∷ t

pub rstrip : (ℕ → Bool) → Text → Text
unfolding cons_unless
rstrip p [] = []
rstrip p (c ∷ t) = cons_unless (p c) c (rstrip p t)

abbrev pub strip : (ℕ → Bool) → Text → Text
strip p t = rstrip p (lstrip p t)

abbrev pub is_colon : ℕ → Bool
is_colon c = c == b':'

abbrev pub is_slash : ℕ → Bool
is_slash c = c == b'/'

abbrev is_alphanumeric : ℕ → Bool
is_alphanumeric c = leb b'0' c && leb c b'9' || leb b'A' c && leb c b'Z' || leb b'a' c && leb c b'z'

abbrev is_name_character : ℕ → Bool
is_name_character c = is_alphanumeric c || c == b'.' || c == b'_' || c == b'-'

-- `REMOTE_NAME_PATTERN`
pub matches_name : Text → Bool
matches_name [] = false
matches_name (c ∷ t) = is_alphanumeric c && all is_name_character t && leb (length t) 63

pub permitted : List Text → Text → Bool
permitted [] name = true
permitted (a ∷ allowed) name = any (eq_text name) (a ∷ allowed)

-- `validate_remote_name`; no list of remotes and an empty one permit any name.
unfoldable pub validate_remote_name : (ℕ → Bool) → Text → List Text → Result RemoteError Text
unfolding rstrip lstrip matches_name permitted
validate_remote_name is_space name allowed =
    let cleaned = rstrip is_colon (strip is_space name) in
    if not (matches_name cleaned)
    then raised invalid_name
    else if not (permitted allowed cleaned)
    then raised not_permitted
    else ok cleaned

abbrev pub is_control : ℕ → Bool
is_control c = ltb c 32 || c == 127

-- `_GLOB_CHARACTERS`
abbrev pub is_glob : ℕ → Bool
is_glob c = any (λ g. c == g) (codes "*?[]{}")

add_to_first : ℕ → List Text → List Text
add_to_first c [] = (c ∷ []) ∷ []
add_to_first c (segment ∷ segments) = (c ∷ segment) ∷ segments

-- `text.split("/")`
pub split_slash : Text → List Text
unfolding add_to_first
split_slash [] = [] ∷ []
split_slash (c ∷ t) =
    let segments = split_slash t in if is_slash c then [] ∷ segments else add_to_first c segments

abbrev pub is_bad_segment : Text → Bool
is_bad_segment segment =
    eq_text segment [] || eq_text segment (codes ".") || eq_text segment (codes "..")

abbrev pub starts_with_dash : Text → Bool
starts_with_dash [] = false
starts_with_dash (c ∷ t) = c == b'-'

-- The checks of the cleaned path.
check_cleaned : Text → Result RemoteError Text
unfolding split_slash
check_cleaned [] = ok []
check_cleaned (c ∷ t) =
    if starts_with_dash (c ∷ t)
    then raised leading_dash
    else if any is_colon (c ∷ t)
    then raised colon
    else if any is_glob (c ∷ t)
    then raised glob_character
    else if any is_bad_segment (split_slash (c ∷ t))
    then raised bad_segment
    else ok (c ∷ t)

-- `validate_remote_path`
pub validate_remote_path : (ℕ → Bool) → Text → Result RemoteError Text
unfolding rstrip lstrip check_cleaned
validate_remote_path is_space path =
    if ltb 1024 (length path)
    then raised too_long
    else if any (λ c. c == 0) path
    then raised null_byte
    else if any is_control path
    then raised control_character
    else check_cleaned (strip is_slash (strip is_space path))

-- `"/".join(part for part in (path, filename) if part)`
pub tail_of : Text → Text → Text
tail_of [] filename = filename
tail_of (c ∷ path) [] = c ∷ path
tail_of (c ∷ path) (f ∷ filename) = (c ∷ path) ++ b'/' ∷ f ∷ filename

-- `build_remote_spec`
pub build_remote_spec : Text → Text → Text → Text
build_remote_spec remote path filename = remote ++ b':' ∷ tail_of path filename
