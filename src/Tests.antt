-- ===== src/Tests.antt =====
-- A small disk, records and a daemon, to which the modules below apply the theorems.
pub mod Copying
pub mod Streams
pub mod Seeds
pub mod Manager
pub mod Seeding
pub mod Restarting
pub mod Interleaved
pub mod Timed
pub mod Reported
pub mod Written
use io_filter_driver_for_lin.Base.{
  ℕ, ◌≡◌, Bool, true, false, Option, none, some, List, [], ◌∷◌, arith,
}
use io_filter_driver_for_lin.Image.{Image}
use io_filter_driver_for_lin.Dmcdp.{Rec, Item, rec_magic}
use io_filter_driver_for_lin.Rkcdpd.Replica.{Replica}
use io_filter_driver_for_lin.Rkcdpd.Replica.Effect.{zero_range, PunchesZeros}
use io_filter_driver_for_lin.Rkcdpd.Daemon.{Daemon}

abbrev pub punching : ℕ → ℕ → Image → Option Image
punching off len img = some (zero_range off len img)

pub punching-PunchesZeros : PunchesZeros punching
punching-PunchesZeros off len img img' h i = ground arith

abbrev pub blank : Image
blank i = 0

abbrev pub sevens : Image
sevens i = 7

abbrev pub record_of : ℕ → ℕ → ℕ → ℕ → Rec
record_of type seq sector len = record {
  magic = rec_magic;
  version = 1;
  type = type;
  flags = 0;
  state = 2;
  seq = seq;
  sector = sector;
  len = len;
  rec_len = 64;
  ts_ns = 0;
  reserved = 0;
}

abbrev pub two_bytes : Item
two_bytes = (record_of 1 1 0 2, 8 ∷ 9 ∷ [])

abbrev pub plain_replica : Replica
plain_replica = record { fd = blank; seed = none; punch_ok = true }

abbrev pub idle_daemon : Daemon
idle_daemon = record {
  size = 1048576;
  replica = plain_replica;
  copying = none;
  deferred = [];
  base_progress = none;
  recovery_alive = false;
  recovery_queue = [];
  gap_seen = none;
  last_seq = none;
  records = 0;
  bytes = 0;
  seed_required = false;
  base_end_seq = some 0;
  consistent = none;
  recovery_json = none;
  pending_bin = none;
  rebuild_lock = false;
}
