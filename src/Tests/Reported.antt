-- ===== src/Tests/Reported.antt =====
-- The theorems on the driver's answers, the throttle, the mapping and what the manager shows, applied to
-- one node.
use Prim.Native.String.{String}
use mathlib.Core.List.{Perm}
use io_filter_driver_for_lin.Base.{
  ℕ, ◌+◌, ◌*◌, ◌≤◌, ◌<◌, ◌≡◌, ◌⊎◌, refl, true, false, Option, none, some, List, [], ◌∷◌, arith, All,
  replicate,
}
use io_filter_driver_for_lin.Dmcdp.Extents.{bitmap_extents}
use io_filter_driver_for_lin.Dmcdp.Extents.Covered.{covered, dirty}
use io_filter_driver_for_lin.Dmcdp.Driver.{DriverStatus, Ioctls, status, read_bitmap}
use io_filter_driver_for_lin.Dmcdp.Driver.Answers.{
  status_bytes, FitsStruct, Answers, read_bitmap-bitmap_extents,
}
use io_filter_driver_for_lin.Rkcdpd.Status.Document.{Reporter, write_status}
use io_filter_driver_for_lin.Rkcdpd.Throttle.{second, throttle, Call, account, account_all}
use io_filter_driver_for_lin.Rkcdpd.Throttle.Rate.{
  AreTimed, last_return, IsWithinRate, each_second, account_all-IsWithinRate, account_all_overruns,
}
use io_filter_driver_for_lin.Rkcdpd.Target.{
  Commands, create, modprobe, attached, ensure_target, attach, create_mapping, checked_status,
  status_field,
}
use io_filter_driver_for_lin.Rkcdpd.Target.Adopted.{IsAdopted, IsMade, ensure_target_attached}
use io_filter_driver_for_lin.ApiRkcdp.{seed_running}
use io_filter_driver_for_lin.ApiRkcdp.Nodes.{
  Entry, Row, Cache, row, nodes, refresh_loop, rkcdp_nodes,
}
use io_filter_driver_for_lin.ApiRkcdp.Nodes.Listed.{
  AreShownInOrder, failed_rounds, rkcdp_nodes-refresh_loop,
}
use io_filter_driver_for_lin.ApiRkcdp.Nodes.Fresh.{read_back, shown_as, row-write_status}
use io_filter_driver_for_lin.Base.{inl, ◌/◌, ◌++◌}
use io_filter_driver_for_lin.Dmcdp.Driver.{unpack_status}
use io_filter_driver_for_lin.Dmcdp.Extents.{extents_loop, bit_at, bitmap_bit, next_start, yield_run}
use io_filter_driver_for_lin.Rkcdpd.Daemon.{Daemon, apply_all}
use io_filter_driver_for_lin.Rkcdpd.Daemon.Copy.{recover}
use io_filter_driver_for_lin.Rkcdpd.Daemon.Copy.Loop.{effects}
use io_filter_driver_for_lin.Rkcdpd.Daemon.Copy.Recover.{extents_of, rounds_of, log_of_plan}
use io_filter_driver_for_lin.Rkcdpd.Recovery.{recovery_extents, start_driver_recovery}
use io_filter_driver_for_lin.Rkcdpd.Recovery.Reread.{start_driver_recovery-recover}
use io_filter_driver_for_lin.Tests.{punching, punching-PunchesZeros, sevens}
use io_filter_driver_for_lin.Tests.Copying.{one_sector, one_sector-RereadsAll}
use io_filter_driver_for_lin.Tests.{idle_daemon}

-- A driver with a bitmap of 8 bits in 8 bytes, of which two are set.
abbrev small : DriverStatus
small = record {
  abi_version = 1;
  flags = 0;
  dev_sectors = 64;
  chunk_sectors = 8;
  minor = 0;
  bitmap_bits = 8;
  bitmap_bytes = 8;
  bitmap_set = 2;
  ring_size = 4096;
  ring_used = 0;
  seq_next = 7;
  records = 6;
  bytes_logged = 12;
  overflows = 1;
}

abbrev two_set : List ℕ
two_set = 5 ∷ 0 ∷ 0 ∷ 0 ∷ 0 ∷ 0 ∷ 0 ∷ 0 ∷ []

abbrev answering : Ioctls
answering = record {
  ioc_status = λ buf. some (status_bytes small (replicate 32 0));
  ioc_bitmap = λ len flags buf. some two_set;
}

small-FitsStruct : FitsStruct small
small-FitsStruct = record {
  abi_version_fits = omega arith;
  flags_fits = omega arith;
  dev_sectors_fits = omega arith;
  chunk_sectors_fits = omega arith;
  minor_fits = omega arith;
  bitmap_bits_fits = omega arith;
  bitmap_bytes_fits = omega arith;
  bitmap_set_fits = omega arith;
  ring_size_fits = omega arith;
  ring_used_fits = omega arith;
  seq_next_fits = omega arith;
  records_fits = omega arith;
  bytes_logged_fits = omega arith;
  overflows_fits = omega arith;
}

answering-Answers : Answers answering small two_set
answering-Answers = record {
  reserved = replicate 32 0;
  struct_fits = small-FitsStruct;
  answers_status = refl;
  bytes_enough = omega arith;
  bytes_given = refl;
  answers_bitmap = λ flags. refl;
}

read_bitmap-bitmap_extents_example :
    (status answering ≡ some small)
    × (read_bitmap answering true ≡ some (two_set, 8, 8))
    × ((es : List (ℕ × ℕ)) × (bitmap_extents two_set 8 8 ≡ some es)
        × ((c o : ℕ) → o < 8 → covered es (c * 8 + o) ≡ dirty two_set 8 c))
read_bitmap-bitmap_extents_example =
    read_bitmap-bitmap_extents answering small two_set answering-Answers true

-- A chunk of 4 MB at 15 MB/s, and a sleep of 0.3 s.
abbrev one_call : Call
one_call = record { bytes = 4194304; called = 1000; returned = 300000000 }

one_call-AreTimed : AreTimed 0 (one_call ∷ []) (throttle 15)
unfolding account throttle
one_call-AreTimed = (omega arith, omega arith, tt)

within_rate : All (λ (c : Call). c.bytes ≤ (throttle 15).rate) (one_call ∷ [])
unfolding throttle
within_rate = (omega arith, tt)

nothing_yet : IsWithinRate 0 (throttle 15)
unfolding throttle
nothing_yet = omega arith

account_all-IsWithinRate_example :
    IsWithinRate 300000000 (account_all (one_call ∷ []) (throttle 15))
account_all-IsWithinRate_example =
    account_all-IsWithinRate (one_call ∷ []) 0 (throttle 15) nothing_yet within_rate
      one_call-AreTimed

-- Chunks of 4 MB at 1 MB/s.
account_all_overruns_example :
    let calls = each_second 4194304 0 3 in
    AreTimed 0 calls (throttle 1)
    × (last_return 0 calls * (throttle 1).rate < (account_all calls (throttle 1)).done * second)
account_all_overruns_example = account_all_overruns 1 4194304 2 (omega arith) (omega arith)

abbrev fresh_machine : Commands
fresh_machine = record {
  dm_status = none;
  dm_table = none;
  loaded = false;
  modprobe_ok = true;
  sectors = some 2048;
  create_ok = true;
  status_after = some ("0" ∷ "2048" ∷ "cdp" ∷ "cdp0" ∷ []);
  block_device = λ s. s;
}

made_here :
    ensure_target fresh_machine (some "/dev/sdb")
    ≡ (modprobe ∷ create 2048 "/dev/sdb" ∷ [], attached "/dev/cdp0" "/dev/sdb")
unfolding ensure_target attach create_mapping checked_status status_field
made_here = refl

ensure_target_attached_example :
    IsAdopted fresh_machine (modprobe ∷ create 2048 "/dev/sdb" ∷ []) "/dev/cdp0" "/dev/sdb"
    ⊎ IsMade fresh_machine
        (some "/dev/sdb")
        (modprobe ∷ create 2048 "/dev/sdb" ∷ [])
        "/dev/cdp0"
        "/dev/sdb"
ensure_target_attached_example =
    ensure_target_attached fresh_machine (some "/dev/sdb") (modprobe ∷ create 2048 "/dev/sdb" ∷ [])
      "/dev/cdp0" "/dev/sdb" made_here

abbrev reporter : Reporter
reporter = record { node = "n1"; boot_id = none; time = 90; last_time = some 89; gap_seq = none }

abbrev entry : String → Entry
entry name = record {
  name = name;
  is_dir = true;
  manifest = some (record { has_base = true; base_time = some 10; device = none });
  status = some (read_back (write_status reporter small idle_daemon));
  node_json = none;
  seed = none;
  replica = some (1048576, 16);
  seed_raw = false;
  prog = none;
}

not_seeding : seed_running none ≡ false
unfolding seed_running
not_seeding = refl

row-write_status_example :
    let shown = row 100 (entry "n1") in
    (shown.state ≡ shown_as true 0 idle_daemon)
    × (shown.last_seq ≡ none)
    × (shown.pending_bytes ≡ 0)
    × (shown.base_copy ≡ none)
    × (shown.seq_next ≡ some 7)
    × (shown.overflows ≡ some 1)
row-write_status_example =
    row-write_status 100 (entry "n1") reporter small idle_daemon refl (omega arith) not_seeding

abbrev journal : List Entry
journal = entry "n2" ∷ entry "rebuild" ∷ entry "n1" ∷ []

abbrev empty_cache : Cache
empty_cache = record { cached = []; as_of = 0 }

rkcdp_nodes-refresh_loop_example :
    let listed : Option (List Row) × ℕ = (some (nodes 100 (some journal)), 101) in
    let (shown, as_of) =
      rkcdp_nodes (refresh_loop (listed ∷ failed_rounds (104 ∷ [])) empty_cache) in
    Perm shown (row 100 (entry "n2") ∷ row 100 (entry "n1") ∷ [])
    × AreShownInOrder shown
    × (as_of ≡ 101)
rkcdp_nodes-refresh_loop_example =
    rkcdp_nodes-refresh_loop [] 100 journal 101 (104 ∷ []) empty_cache

-- A driver with one chunk of a sector, which is dirty.
abbrev one_chunked : DriverStatus
one_chunked = record small { dev_sectors = 1; chunk_sectors = 1; bitmap_bits = 1; bitmap_set = 1 }

abbrev one_set : List ℕ
one_set = 1 ∷ 0 ∷ 0 ∷ 0 ∷ 0 ∷ 0 ∷ 0 ∷ 0 ∷ []

abbrev overflowed : Ioctls
overflowed = record {
  ioc_status = λ buf. some (status_bytes one_chunked (replicate 32 0));
  ioc_bitmap = λ len flags buf. some one_set;
}

overflowed-Answers : Answers overflowed one_chunked one_set
overflowed-Answers = record {
  reserved = replicate 32 0;
  struct_fits = record {
    abi_version_fits = small-FitsStruct.abi_version_fits;
    flags_fits = small-FitsStruct.flags_fits;
    minor_fits = small-FitsStruct.minor_fits;
    bitmap_bytes_fits = small-FitsStruct.bitmap_bytes_fits;
    ring_size_fits = small-FitsStruct.ring_size_fits;
    ring_used_fits = small-FitsStruct.ring_used_fits;
    seq_next_fits = small-FitsStruct.seq_next_fits;
    records_fits = small-FitsStruct.records_fits;
    bytes_logged_fits = small-FitsStruct.bytes_logged_fits;
    overflows_fits = small-FitsStruct.overflows_fits;
    dev_sectors_fits = omega arith;
    chunk_sectors_fits = omega arith;
    bitmap_bits_fits = omega arith;
    bitmap_set_fits = omega arith;
  };
  answers_status = refl;
  bytes_enough = omega arith;
  bytes_given = refl;
  answers_bitmap = λ flags. refl;
}

one_extent : recovery_extents overflowed ≡ some (extents_of one_sector)
unfolding recovery_extents read_bitmap status unpack_status bitmap_extents extents_loop bit_at
    bitmap_bit next_start yield_run
one_extent = refl

dirty_here : dirty one_set 1 (3 / 512 / 1) ≡ true
dirty_here = refl

start_driver_recovery-recover_example :
    (d' : Daemon) × (start_driver_recovery overflowed idle_daemon ≡ some d')
    × (d'.recovery_json ≡ some (extents_of one_sector))
    × (let ended = recover punching (extents_of one_sector) (rounds_of one_sector) false d' in
        (ended.recovery_json ≡ none)
        × ((apply_all punching [] ended).replica.fd 3
            ≡ effects (log_of_plan one_sector ++ []) sevens 3))
start_driver_recovery-recover_example =
    start_driver_recovery-recover punching overflowed one_chunked one_set one_sector [] sevens
      idle_daemon 3 punching-PunchesZeros overflowed-Answers (omega arith) one_extent refl
      one_sector-RereadsAll (inl dirty_here)
