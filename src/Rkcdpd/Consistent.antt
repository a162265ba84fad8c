-- ===== src/Rkcdpd/Consistent.antt =====
-- Daemon.mark_consistent of rkcdp/rkcdpd.py: a frozen file system, the ring read until it is empty,
-- and the sequence number reached in manifest.json.
pub mod Point
use io_filter_driver_for_lin.Base.{
  ℕ, Bool, true, false, ◌||◌, Option, none, some, List, [], ◌∷◌, ◌++◌, if◌then◌else◌,
}
use io_filter_driver_for_lin.Image.{Image}
use io_filter_driver_for_lin.Rkcdpd.Daemon.{
  Daemon, recovery_active, paused, Returned, value, value_error, never, consume,
}
use io_filter_driver_for_lin.Rkcdpd.Status.{present, nonempty}

-- What `fsfreeze -f /` does: it refuses, it is killed at the time limit (with the file system
-- frozen by then, or not), or it freezes; and then the reads, up to an empty one or to the deadline.
pub data Freeze : Type 0 where
  refused : Freeze
  timed_out : Bool → Freeze
  froze : List (List ℕ) → Freeze

-- How the call ends: a `return` before the freeze, one after it, the point marked, one of the two
-- exceptions, or not at all.
pub data Attempt : Type 0 where
  unsettled freeze_refused abandoned marked timeout_expired bad_record hangs : Attempt

-- `owes_thaw`: the freeze took hold and the call did not run `fsfreeze -u` after it. Where it did run
-- it, what that command answers is not looked at.
pub record Ended : Type 0 where
  pub attempt : Attempt
  pub daemon : Daemon
  pub owes_thaw : Bool

-- if self.paused() or self.recovery_active() or self.base_progress
abbrev pub busy : Daemon → Bool
busy d = paused d || recovery_active d || present d.base_progress

module _ (fallocate : ℕ → ℕ → Image → Option Image) where
  -- The while loop; it ends with the first empty read or at the deadline.
  unfoldable pub drain : List (List ℕ) → Returned (List ℕ) × Daemon → Returned (List ℕ) × Daemon
  drain [] r = r
  drain ([] ∷ reads) r = r
  drain ((b ∷ bytes) ∷ reads) (value pending, d) =
      drain reads (consume fallocate (pending ++ b ∷ bytes) d)
  drain ((b ∷ bytes) ∷ reads) (value_error, d) = (value_error, d)
  drain ((b ∷ bytes) ∷ reads) (never, d) = (never, d)

  -- After `finally`: a gap that appeared meanwhile abandons the point.
  unfoldable pub mark : Returned (List ℕ) × Daemon → Ended
  mark (value tail, d) =
      if nonempty d.recovery_queue || recovery_active d
      then record { attempt = abandoned; daemon = d; owes_thaw = false }
      else record {
        attempt = marked;
        daemon = record d { consistent = some d.last_seq };
        owes_thaw = false;
      }
  mark (value_error, d) = record { attempt = bad_record; daemon = d; owes_thaw = false }
  mark (never, d) = record { attempt = hangs; daemon = d; owes_thaw = true }

  unfoldable pub freeze_and_mark : Freeze → Daemon → Ended
  freeze_and_mark refused d = record { attempt = freeze_refused; daemon = d; owes_thaw = false }
  freeze_and_mark (timed_out frozen) d = record {
    attempt = timeout_expired;
    daemon = d;
    owes_thaw = frozen;
  }
  freeze_and_mark (froze reads) d = mark (drain reads (value [], d))

  unfoldable pub mark_consistent : Freeze → Daemon → Ended
  mark_consistent freeze d =
      if busy d
      then record { attempt = unsettled; daemon = d; owes_thaw = false }
      else freeze_and_mark freeze d
