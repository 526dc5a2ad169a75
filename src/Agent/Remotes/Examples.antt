-- ===== src/Agent/Remotes/Examples.antt =====
-- The theorems of remote names and paths at concrete inputs.
use proxsync.Prelude.{ℕ, ◌≡◌, refl, Bool, [], ◌∷◌, ◌==◌}
use proxsync.Prelude.Text.{codes}
use proxsync.Effects.{ok}
use proxsync.Agent.Remotes.{validate_remote_name, validate_remote_path}
use proxsync.Agent.Remotes.Safe.{IsPath, validate_remote_path-IsPath}

abbrev is_space : ℕ → Bool
is_space c = c == 32

name_passes :
    validate_remote_name is_space (codes " gdrive: ") (codes "gdrive" ∷ []) ≡ ok (codes "gdrive")
unfolding validate_remote_name
name_passes = refl

path_passes : validate_remote_path is_space (codes " /proxsync/dump/ ") ≡ ok (codes "proxsync/dump")
unfolding validate_remote_path
path_passes = refl

validate_remote_path-IsPath_example : IsPath (codes "proxsync/dump")
validate_remote_path-IsPath_example =
    validate_remote_path-IsPath is_space (codes " /proxsync/dump/ ") (codes "proxsync/dump")
      path_passes
