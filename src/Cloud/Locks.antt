-- ===== src/Cloud/Locks.antt =====
-- apps/cloud-worker/src/filesystemQueue.ts, the lock files: `acquireLock`, `tryOpenLock`,
-- `removeStaleLock` and `releaseLock`. A lock file is its modification time under the job's id.
use ninjacode_agent.Prelude.{
  ltb, if◌then◌else◌, take, ℕ, ◌+◌, Bool, true, false, Option, none, some, List, [], ◌∷◌,
}
use ninjacode_agent.Prelude.Maps.{get, delete, insert}
use ninjacode_agent.Prelude.Texts.{Text}

abbrev pub lock_stale_ms : ℕ
lock_stale_ms = 30000

abbrev pub Locks : Type 0
Locks = List (Text × ℕ)

-- One attempt at a lock: the clock's reading, and what other processes have done to the lock files
-- since the attempt before.
pub record Moment : Type 0 where
  pub now : ℕ
  pub others : Locks → Locks

-- `open(target, "wx")` creates the file, or fails because it is there.
unfoldable pub try_open_lock : Text → ℕ → Locks → Option Locks
try_open_lock id now locks = elim (get id locks) [
  | none ↦ some (insert id now locks)
  | some since ↦ none
]

-- `Date.now() - info.mtimeMs > LOCK_STALE_MS`
unfoldable pub remove_stale_lock : Text → ℕ → Locks → Locks
remove_stale_lock id now locks = elim (get id locks) [
  | none ↦ locks
  | some since ↦ if ltb (since + lock_stale_ms) now then delete id locks else locks
]

-- The loop of `acquireLock` over the attempts left.
unfoldable pub acquire_from : Text → List Moment → Locks → Bool × Locks
unfolding try_open_lock remove_stale_lock
acquire_from id [] locks = (false, locks)
acquire_from id (m ∷ later) locks = elim (try_open_lock id m.now (m.others locks)) [
  | some opened ↦ (true, opened)
  | none ↦ acquire_from id later (remove_stale_lock id m.now (m.others locks))
]

-- 40 attempts if the caller waits, else one.
unfoldable pub acquire_lock : Text → Bool → List Moment → Locks → Bool × Locks
unfolding acquire_from
acquire_lock id wait moments locks = acquire_from id (take (if wait then 40 else 1) moments) locks

unfoldable pub release_lock : Text → Locks → Locks
release_lock id locks = delete id locks
