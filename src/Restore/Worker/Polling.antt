-- ===== src/Restore/Worker/Polling.antt =====
-- How long the worker follows a restore whose agent does not answer.
use proxsync.Prelude.{
  ℕ, suc, ◌+◌, ◌≡◌, refl, ap, ◌∙◌, Bool, true, false, Option, none, some, List, [], ◌∷◌, ◌++◌, ltb,
  any, All, arith, Bool-cases, inl, inr, if◌then◌else◌,
}
use proxsync.Retention.Types.{RestoreStatus}
use proxsync.Restore.Repository.{update_row}
use proxsync.Restore.Steps.{
  Input, unanswered, lost, again, idle, following, closing, poll, since_or, after_poll,
}
use proxsync.Restore.Worker.{System, in_stage, with_rows, close_row, run, advance}

-- The worker through a sequence of awaits.
pub advance_all : ℕ → List Input → System → System
unfolding advance
advance_all grace [] y = y
advance_all grace (i ∷ inputs) y = advance_all grace inputs (advance grace i y)

-- The agent is away, and nothing else happens.
abbrev pub IsUnanswered : Input → Type 0
IsUnanswered i = (i.crashes ≡ false) × (i.stopping ≡ false) × (i.poll_reply ≡ unanswered)

abbrev pub is_late : ℕ → Input → Bool
is_late until i = ltb until i.loop_time

-- The worker closes the restore as interrupted after some of the inputs.
abbrev pub ClosesWithin : ℕ → List Input → ℕ → System → System → Type 0
ClosesWithin grace inputs id y start =
    (used : List Input) × (rest : List Input) × (inputs ≡ used ++ rest)
    × ((last : Input)
        → last.crashes ≡ false
        → advance grace last (advance_all grace used start)
          ≡ with_rows
              (update_row id (close_row RestoreStatus.interrupted last.now) y.store.restores) idle
              y)

module _ (grace id : ℕ) (y : System) where
  following-advance :
      (since : Option ℕ) (i : Input)
      → IsUnanswered i
      → advance grace i (in_stage (following id since) y)
        ≡ in_stage (after_poll id (poll grace since i.loop_time unanswered)) y
  unfolding advance run
  following-advance since i h = simp (h.0, h.1, h.2) refl

  closing-advance :
      (last : Input)
      → last.crashes ≡ false
      → advance grace last (in_stage (closing id RestoreStatus.interrupted) y)
        ≡ with_rows
            (update_row id (close_row RestoreStatus.interrupted last.now) y.store.restores)
            idle
            y
  unfolding advance run
  closing-advance last h = simp h refl

  since-poll :
      (t now : ℕ)
      → poll grace (some (suc t)) now unanswered
        ≡ (if ltb (suc t + grace) now then lost else again (some (suc t)))
  unfolding poll since_or
  since-poll t now = refl

  later-advance :
      (t : ℕ) (i : Input)
      → IsUnanswered i
      → advance grace i (in_stage (following id (some (suc t))) y)
        ≡ in_stage
            (if is_late (suc t + grace) i
              then closing id RestoreStatus.interrupted
              else following id (some (suc t)))
            y
  unfolding after_poll
  later-advance t i h = elim (Bool-cases (is_late (suc t + grace) i)) [
    | inl late ↦ following-advance (some (suc t)) i h ∙ simp (since-poll t i.loop_time, late) refl
    | inr early ↦ following-advance (some (suc t)) i h ∙ simp (since-poll t i.loop_time, early) refl
  ]

  first-advance :
      (t : ℕ) (i : Input)
      → i.loop_time ≡ suc t
      → IsUnanswered i
      → advance grace i (in_stage (following id none) y) ≡ in_stage (following id (some (suc t))) y
  unfolding after_poll poll since_or
  first-advance t i now h =
      let early : ltb (suc t + grace) (suc t) ≡ false = ground arith in
      following-advance none i h ∙ simp (now, early) refl

  later-closes :
      (t : ℕ) (inputs : List Input)
      → All IsUnanswered inputs
      → any (is_late (suc t + grace)) inputs ≡ true
      → ClosesWithin grace inputs id y (in_stage (following id (some (suc t))) y)
  unfolding advance_all
  later-closes t [] h late = cc
  later-closes t (i ∷ inputs) h late = elim (Bool-cases (is_late (suc t + grace) i)) [
    | inl now_late ↦
        let e : advance grace i (in_stage (following id (some (suc t))) y)
            ≡ in_stage (closing id RestoreStatus.interrupted) y =
          simp now_late at (later-advance t i h.0) in
        (i ∷ [], inputs, refl, λ last calm. ap (advance grace last) e ∙ closing-advance last calm)
    | inr early ↦
        let e : advance grace i (in_stage (following id (some (suc t))) y)
            ≡ in_stage (following id (some (suc t))) y =
          simp early at (later-advance t i h.0) in
        let (used, rest, parts, closes) = later-closes t inputs h.1 (simp early at late) in
        (
          i ∷ used,
          rest,
          ap (λ is. i ∷ is) parts,
          λ last calm. ap (λ z. advance grace last (advance_all grace used z)) e ∙ closes last calm,
        )
  ]

  -- While the worker follows a restore and the agent leaves every poll unanswered, the first at an
  -- instant that is not zero and some other one more than the seconds of grace after it, while the worker
  -- is not being stopped and no unexpected exception is raised, it has closed the restore as interrupted
  -- and is free again one stretch after some of those polls.
  pub following-closes :
      (first : Input) (t : ℕ) (inputs : List Input)
      → first.loop_time ≡ suc t
      → All IsUnanswered (first ∷ inputs)
      → any (is_late (suc t + grace)) inputs ≡ true
      → ClosesWithin grace (first ∷ inputs) id y (in_stage (following id none) y)
  unfolding advance_all
  following-closes first t inputs now h late =
      let e = first-advance t first now h.0 in
      let (used, rest, parts, closes) = later-closes t inputs h.1 late in
      (
        first ∷ used,
        rest,
        ap (λ is. first ∷ is) parts,
        λ last calm. ap (λ z. advance grace last (advance_all grace used z)) e ∙ closes last calm,
      )
