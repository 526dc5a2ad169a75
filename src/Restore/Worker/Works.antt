-- ===== src/Restore/Worker/Works.antt =====
-- What the worker's place says of the table, and moving on from it.
use mathlib.Core.Path.{subst}
use proxsync.Prelude.{
  ℕ, ◌≤◌, ◌≡◌, sym, Bool, true, Option, none, some, List, [], ◌∷◌, length, All, arith,
}
use proxsync.Prelude.Text.{Text}
use proxsync.Retention.Types.{RestoreStatus}
use proxsync.Restore.Types.{RestoreRow}
use proxsync.Restore.Repository.{update_row}
use proxsync.Restore.Repository.Updates.{one_if}
use proxsync.Restore.Service.{State}
use proxsync.Restore.Steps.{RestorePlan, Stage, idle}
use proxsync.Restore.Worker.{System, close_row}
use proxsync.Restore.Steps.Follows.{engaged, closes, EndsWell, GoesOn, Follows}
use proxsync.Restore.System.Rows.{AreSafe, start_count, runs}
use proxsync.Restore.System.Routes.{IsKept}
use proxsync.Restore.Worker.Closing.{close_row-AreSafe}

-- One restore at most is at the worker or left to it; it runs, and it is started but once.
abbrev pub Works : List RestoreRow → List RestorePlan → List (ℕ × Text) → Option (ℕ × Bool) → Type 0
Works rows starts resume none =
    (length resume ≤ 1) × All (λ p. (runs p.0 rows ≡ true) × (start_count p.0 starts ≤ 1)) resume
Works rows starts resume (some (id, begun)) =
    (resume ≡ []) × (runs id rows ≡ true) × (start_count id starts ≤ one_if begun)

pub record IsSafe (y : System) : Type 0 where
  pub table : AreSafe y.starts y.store.restores
  pub work : Works y.store.restores y.starts y.resume (engaged y.stage)
  pub ends : EndsWell y.stage

module _ (rows : List RestoreRow) (starts : List RestorePlan) (resume : List (ℕ × Text)) where
  pub goes-Works :
      (id : ℕ) (begun : Bool) (next : Option (ℕ × Bool))
      → Works rows starts resume (some (id, begun))
      → GoesOn id begun next
      → Works rows starts resume next
  goes-Works id begun none h k = simp h.0 (omega arith, tt)
  goes-Works id begun (some (other, later)) h k = (
    h.0,
    subst (λ j. runs j rows ≡ true) (sym k.0) h.1,
    subst (λ j. start_count j starts ≤ one_if later) (sym k.0) (omega (arith, h.2, k.1)),
  )

  -- The rows changed, and what ran still runs.
  pub rows-Works :
      (after : List RestoreRow) (next : Option (ℕ × Bool))
      → ((id : ℕ) → runs id rows ≡ true → runs id after ≡ true)
      → Works rows starts resume next
      → Works after starts resume next
  rows-Works after none keep h = (h.0, all resume h.1)
    where
      all :
          (ps : List (ℕ × Text))
          → All (λ p. (runs p.0 rows ≡ true) × (start_count p.0 starts ≤ 1)) ps
          → All (λ p. (runs p.0 after ≡ true) × (start_count p.0 starts ≤ 1)) ps
      all [] k = tt
      all (p ∷ ps) k = ((keep p.0 k.0.0, k.0.1), all ps k.1)
  rows-Works after (some (id, begun)) keep h = (h.0, keep id h.1, h.2)

-- The worker moves on, with the tables as they are.
pub in_stage-IsSafe :
    (y : System) (id : ℕ) (begun : Bool) (stage : Stage)
    → AreSafe y.starts y.store.restores
    → Works y.store.restores y.starts y.resume (some (id, begun))
    → Follows id begun stage
    → IsSafe (record y { stage = stage })
in_stage-IsSafe y id begun stage table work follows = record {
  table = table;
  work = goes-Works y.store.restores y.starts y.resume id begun (engaged stage) work follows.0;
  ends = follows.1;
}

pub close-IsSafe :
    (y : System) (id : ℕ) (begun : Bool) (status : RestoreStatus) (now : ℕ)
    → AreSafe y.starts y.store.restores
    → Works y.store.restores y.starts y.resume (some (id, begun))
    → closes status ≡ true
    → IsSafe (record y {
      store = record (y.store) { restores = update_row id (close_row status now) y.store.restores };
      stage = idle;
    })
close-IsSafe y id begun status now table work good = record {
  table = close_row-AreSafe y.starts now status id y.store.restores good work.1 table;
  work = simp work.0 (omega arith, tt);
  ends = tt;
}

-- A change of the table outside the worker that keeps what runs.
pub kept-IsSafe :
    (y : System) (after : State)
    → IsKept y.starts y.store.restores after.restores
    → IsSafe y
    → IsSafe (record y { store = after })
kept-IsSafe y after kept safe = record {
  table = kept.safe safe.table;
  work =
      rows-Works y.store.restores y.starts y.resume after.restores (engaged y.stage) kept.goes_on
        safe.work;
  ends = safe.ends;
}
