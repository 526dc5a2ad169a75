-- ===== src/Restore/Preflight/Archives.antt =====
-- The archive of a backup that the artifact and digest checks of a preflight let pass.
use mathlib.Core.Bool.{false≢true}
use proxsync.Prelude.{
  ℕ, ◌≡◌, refl, sym, ap, ◌∙◌, true, false, Option, none, some, List, find, Member, arith,
  Bool-cases, Option-cases, ◌⊎◌, inl, inr, is_some,
}
use proxsync.Prelude.Text.{Text, eq_text, eq_text→eq}
use proxsync.Retention.Types.{UploadStatus}
use proxsync.Restore.Types.{SourceBackup, AgentArtifact}
use proxsync.Restore.Preflight.{
  Host, is_uploaded, local_artifact, local_artifact_named, artifact_presence, checksum_check,
  digest_agrees, remote_usable,
}
use proxsync.Restore.Preflight.Guests.{find-Member}

-- The digest that the host has for an archive is the recorded one, where both are known.
abbrev pub IsIntact : Host → SourceBackup → AgentArtifact → Type 0
IsIntact host backup artifact =
    (expected actual : Text)
    → backup.checksum_sha256 ≡ some expected
    → artifact.checksum_sha256 ≡ some actual
    → host.lower actual ≡ host.lower expected

-- The host lists the archive under its name, undamaged as far as is known; or it does not list it, and the
-- archive is in the remote store, uploaded and not deleted there.
abbrev pub IsAvailable : Host → SourceBackup → Text → Type 0
IsAvailable host backup filename =
    (items : List AgentArtifact) × (host.artifacts backup.vmid backup.guest_type ≡ some items)
    × (((artifact : AgentArtifact) × Member artifact items
          × (artifact.filename ≡ filename)
          × IsIntact host backup artifact)
        ⊎ ((find (λ item. eq_text item.filename filename) items ≡ none)
            × (backup.upload_status ≡ UploadStatus.uploaded)
            × ((path : Text) × (backup.remote_path ≡ some path))
            × (backup.remote_deleted_at ≡ none)))

listed-IsAvailable :
    (host : Host) (backup : SourceBackup) (filename : Text) (items : List AgentArtifact)
    (found : Option AgentArtifact)
    → host.artifacts backup.vmid backup.guest_type ≡ some items
    → find (λ item. eq_text item.filename filename) items ≡ found
    → (artifact_presence backup (some found)).1 ≡ true
    → (checksum_check host backup.checksum_sha256
        (artifact_presence backup (some found)).0
        (some found)).0
      ≡ true
    → IsAvailable host backup filename
unfolding artifact_presence checksum_check digest_agrees
listed-IsAvailable host backup filename items (some artifact) listed e present intact =
    let held = find-Member (λ item. eq_text item.filename filename) artifact items e in
    (
      items,
      listed,
      inl (
        artifact,
        held.0,
        eq_text→eq artifact.filename filename held.1,
        λ expected actual known has.
            eq_text→eq (host.lower actual) (host.lower expected) (simp (known, has) at intact),
      ),
    )
listed-IsAvailable host backup filename items none listed e present intact =
    elim (Bool-cases (remote_usable backup)) [
      | inr unusable ↦ absurd (false≢true (simp unusable at present))
      | inl usable ↦ (
        items,
        listed,
        inr (
          e,
          is_uploaded-uploaded backup.upload_status (ground (arith, usable)),
          path_known backup.remote_path (ground (arith, usable)),
          not_deleted backup.remote_deleted_at (ground (arith, usable)),
        ),
      )
    ]
  where
    is_uploaded-uploaded :
        (status : UploadStatus) → is_uploaded status ≡ true → status ≡ UploadStatus.uploaded
    is_uploaded-uploaded UploadStatus.uploaded h = refl
    is_uploaded-uploaded UploadStatus.not_required h = absurd (false≢true h)
    is_uploaded-uploaded UploadStatus.pending h = absurd (false≢true h)
    is_uploaded-uploaded UploadStatus.uploading h = absurd (false≢true h)
    is_uploaded-uploaded UploadStatus.failed h = absurd (false≢true h)

    path_known : (path : Option Text) → is_some path ≡ true → (p : Text) × (path ≡ some p)
    path_known none h = absurd (false≢true h)
    path_known (some p) h = (p, refl)

    not_deleted : (at : Option ℕ) → is_some at ≡ false → at ≡ none
    not_deleted none h = refl
    not_deleted (some at) h = absurd (false≢true (sym h))

-- What the host's answer to a listing says of an archive.
abbrev answered : Text → Option (List AgentArtifact) → Option (Option AgentArtifact)
answered filename none = none
answered filename (some items) = some (find (λ item. eq_text item.filename filename) items)

local_artifact-away :
    (host : Host) (backup : SourceBackup) (filename : Text)
    → backup.filename ≡ some filename
    → host.artifacts backup.vmid backup.guest_type ≡ none
    → local_artifact host backup ≡ none
unfolding local_artifact local_artifact_named
local_artifact-away host backup filename named away =
    ap (λ name. local_artifact_named host backup name) named ∙ ap (answered filename) away

local_artifact-listed :
    (host : Host) (backup : SourceBackup) (filename : Text) (items : List AgentArtifact)
    → backup.filename ≡ some filename
    → host.artifacts backup.vmid backup.guest_type ≡ some items
    → local_artifact host backup ≡ some (find (λ item. eq_text item.filename filename) items)
unfolding local_artifact local_artifact_named
local_artifact-listed host backup filename items named listed =
    ap (λ name. local_artifact_named host backup name) named ∙ ap (answered filename) listed

pub available :
    (host : Host) (backup : SourceBackup) (filename : Text)
    → backup.filename ≡ some filename
    → (artifact_presence backup (local_artifact host backup)).1 ≡ true
    → (checksum_check host backup.checksum_sha256
        (artifact_presence backup (local_artifact host backup)).0
        (local_artifact host backup)).0
      ≡ true
    → IsAvailable host backup filename
unfolding artifact_presence
available host backup filename named present intact =
    elim (Option-cases (host.artifacts backup.vmid backup.guest_type)) [
      | inl away ↦
          absurd
            (false≢true (simp (local_artifact-away host backup filename named away) at present))
      | inr (items, listed) ↦
          listed-IsAvailable host backup filename items
            (find (λ item. eq_text item.filename filename) items) listed refl
            (simp (local_artifact-listed host backup filename items named listed) at present)
            (simp (local_artifact-listed host backup filename items named listed) at intact)
    ]
