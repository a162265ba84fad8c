-- ===== src/Rkcdpd/Restart.antt =====
-- Daemon.__init__ and the start of Daemon.main of rkcdp/rkcdpd.py: what a daemon takes over from the
-- files that an earlier one left.
pub mod Resumed
use io_filter_driver_for_lin.Base.{ℕ, Bool, false, ◌&&◌, not, none, []}
use io_filter_driver_for_lin.Rkcdpd.Daemon.{Daemon}
use io_filter_driver_for_lin.Rkcdpd.Replica.{Replica}
use io_filter_driver_for_lin.Rkcdpd.Status.{present}

-- __init__, of a configuration with `seed_required`, a disk of `size` bytes and the replica that was
-- opened, over the files of the daemon `d` before it.
unfoldable pub init : Bool → ℕ → Replica → Daemon → Daemon
init seed_required size replica d = record {
  size = size;
  replica = replica;
  copying = none;
  deferred = [];
  base_progress = none;
  recovery_alive = false;
  recovery_queue = [];
  gap_seen = none;
  last_seq = none;
  records = 0;
  bytes = 0;
  seed_required = seed_required && not (present d.base_end_seq);
  base_end_seq = d.base_end_seq;
  consistent = d.consistent;
  recovery_json = d.recovery_json;
  pending_bin = d.pending_bin;
  rebuild_lock = d.rebuild_lock;
}

-- The start of main: a recovery of recovery.json is resumed; the flag says that a base copy is
-- started.
unfoldable pub start_threads : Daemon → Daemon × Bool
start_threads d = (
  record d { recovery_alive = present d.recovery_json },
  not (present d.base_end_seq) && not d.seed_required,
)

-- A daemon started over the files of another.
abbrev pub restart : Bool → ℕ → Replica → Daemon → Daemon
restart seed_required size replica d = (start_threads (init seed_required size replica d)).0
