-- ===== src/Tests/Copying.antt =====
-- The theorems on a chunk in flight and on the base copy, applied to a small disk.
use io_filter_driver_for_lin.Base.{◌≡◌, ◌≤◌, refl, true, false, none, some, [], ◌∷◌, arith}
use io_filter_driver_for_lin.Dmcdp.{Item}
use io_filter_driver_for_lin.Rkcdpd.Replica.Effect.{effect}
use io_filter_driver_for_lin.Rkcdpd.Daemon.{Daemon, in_flight, apply_all}
use io_filter_driver_for_lin.Rkcdpd.Daemon.Copy.{copy_chunk}
use io_filter_driver_for_lin.Rkcdpd.Daemon.Copy.Loop.{effects, IsInOrOut}
use io_filter_driver_for_lin.Rkcdpd.Daemon.Copy.Chunk.{landed, fd-copy_chunk}
use io_filter_driver_for_lin.Rkcdpd.Daemon.Copy.Straddle.{copy_chunk_reorders}
use io_filter_driver_for_lin.Rkcdpd.Daemon.Copy.{Round, base_copy, base_copy_loop}
use io_filter_driver_for_lin.Rkcdpd.Daemon.Copy.BaseCopy.{base_copy_ends}
use io_filter_driver_for_lin.Base.{◌++◌}
use io_filter_driver_for_lin.Rkcdpd.Daemon.Copy.Settle.{log_of}
use io_filter_driver_for_lin.Rkcdpd.Daemon.Copy.WholeCopy.{AreFair, base_copy_converges}
use io_filter_driver_for_lin.Rkcdpd.Daemon.Copy.Recover.{Plan, RereadsAll}
use io_filter_driver_for_lin.Tests.{
  punching, punching-PunchesZeros, blank, sevens, record_of, two_bytes, idle_daemon,
}

two_bytes-IsInOrOut : IsInOrOut 0 512 two_bytes
two_bytes-IsInOrOut h = (omega arith, omega arith)

fd-copy_chunk_example :
    (copy_chunk punching false sevens 0 512 512 (two_bytes ∷ []) [] idle_daemon).0.replica.fd 1
    ≡ effects (two_bytes ∷ []) (landed false sevens 0 512 blank) 1
fd-copy_chunk_example =
    fd-copy_chunk punching punching-PunchesZeros false sevens 0 512 512 (two_bytes ∷ []) []
      idle_daemon 1 (omega arith) (omega arith, tt) tt (two_bytes-IsInOrOut, tt) tt

-- An older discard over the edge of the chunk, and a newer write beyond it.
abbrev older_discard : Item
older_discard = (record_of 3 1 0 1024, [])

abbrev newer_write : Item
newer_write = (record_of 1 2 1 2, 8 ∷ 9 ∷ [])

meets : in_flight (some (0, 512)) older_discard.0 ≡ true
unfolding in_flight
meets = refl

apart : in_flight (some (0, 512)) newer_write.0 ≡ false
unfolding in_flight
apart = refl

copy_chunk_reorders_example :
    (copy_chunk punching false sevens 0 512 512
        (older_discard ∷ newer_write ∷ [])
        []
        idle_daemon).0.replica.fd
      512
    ≡ effect older_discard (effect newer_write blank) 512
copy_chunk_reorders_example =
    copy_chunk_reorders punching punching-PunchesZeros false sevens 0 512 512 older_discard
      newer_write idle_daemon 512 (omega arith) meets apart refl

abbrev small_disk : Daemon
small_disk = record idle_daemon { size = 2; base_end_seq = none }

-- A read of one byte.
abbrev short_read : Round
short_read = record { idle = []; dev = sevens; got = 1; early = []; late = [] }

base_copy_ends_example :
    let after = base_copy punching (short_read ∷ short_read ∷ []) false 5 small_disk in
    (2
      ≤ (base_copy_loop punching
          (short_read ∷ short_read ∷ [])
          0
          (record small_disk { base_progress = some 0 })).1)
    × (after.base_end_seq ≡ some 5)
    × (after.base_progress ≡ none)
base_copy_ends_example =
    base_copy_ends punching (short_read ∷ short_read ∷ []) 5 small_disk
      (omega arith, (omega arith, tt)) (omega arith)

-- Two rounds of a byte each; a write arrives in the first, and the device then shows it.
abbrev busy_read : Round
busy_read = record { idle = []; dev = sevens; got = 1; early = []; late = two_bytes ∷ [] }

abbrev later_read : Round
later_read = record {
  idle = [];
  dev = effects (two_bytes ∷ []) sevens;
  got = 1;
  early = [];
  late = [];
}

two_rounds-AreFair : AreFair sevens 2 0 (busy_read ∷ later_read ∷ []) []
two_rounds-AreFair = (
  omega arith,
  record {
    ahead = [];
    behind = two_bytes ∷ [];
    device = λ i. refl;
    logged = refl;
    returns = omega arith;
    fits = omega arith;
    early_sized = tt;
    late_sized = (omega arith, tt);
    early_placed = tt;
    late_placed = ((λ h. (omega arith, omega arith)), tt);
  },
  (
    omega arith,
    record {
      ahead = [];
      behind = [];
      device = λ i. refl;
      logged = refl;
      returns = omega arith;
      fits = omega arith;
      early_sized = tt;
      late_sized = tt;
      early_placed = tt;
      late_placed = tt;
    },
    tt,
  ),
)

base_copy_converges_example :
    (apply_all punching []
        (base_copy punching (busy_read ∷ later_read ∷ []) false 5 small_disk)).replica.fd
      1
    ≡ effects (log_of (busy_read ∷ later_read ∷ []) ++ []) sevens 1
base_copy_converges_example =
    base_copy_converges punching punching-PunchesZeros (busy_read ∷ later_read ∷ []) [] sevens 5
      small_disk 1 (λ j. refl) refl two_rounds-AreFair (omega arith) (omega arith)

-- One dirty sector, re-read in one round while a write to it arrives.
abbrev sector_read : Round
sector_read = record { idle = []; dev = sevens; got = 512; early = two_bytes ∷ []; late = [] }

abbrev pub one_sector : Plan
one_sector = ((0, 1), sector_read ∷ []) ∷ []

pub one_sector-RereadsAll : RereadsAll sevens one_sector []
one_sector-RereadsAll = (
  (
    omega arith,
    record {
      ahead = [];
      behind = two_bytes ∷ [];
      device = λ i. refl;
      logged = refl;
      returns = omega arith;
      fits = omega arith;
      early_sized = (omega arith, tt);
      late_sized = tt;
      early_placed = (two_bytes-IsInOrOut, tt);
      late_placed = tt;
    },
    refl,
  ),
  tt,
)
