-- ===== src/Lib.antt =====
-- The userspace of the dm-cdp I/O filter: continuous replication of a node's disk, rebuilds from
-- the replica, and what the manager API shows of a node.
--
-- The kernel driver (drivers/md/dm-cdp.c) logs every write, discard and zeroing of a disk as a
-- record in a ring. The daemon rkcdp/rkcdpd.py reads the ring, splits it into records with
-- rkcdp/dmcdp.py and applies them to replica.raw. A copy thread brings over the disk chunk by
-- chunk beside it (the base copy, and after a ring overflow the dirty extents of the driver's
-- bitmap). Since seeding, seed.raw keeps what every changed chunk held at the seed point.
-- rkcdp/rkcdp-rebuild.py copies replica.raw (and lays seed.raw over it, if asked to) while a lock
-- file makes the daemon park its records in pending.bin. rkcdp/rkcdp-seed.py fills replica.raw from
-- the host. rkcdp/api_rkcdp.py shows the state of each node and starts rebuilds, and
-- rkcdp/rkcdp-setup.py installs all this on a node.
--
-- Files, by the code that they model:
--   Base, Base/*: shared names, list lemmas, little-endian bytes, integers.
--   Image: a file or a device as the bytes that os.pread and os.pwrite see.
--   Dmcdp: rkcdp/dmcdp.py, Rec, pack_rec, iter_records. A generator is the list of what it yields
--     with how it ends (Outcome). Dmcdp/Scan, Stream, Loop, Records and Cut are on scanning,
--     RoundTrip on packing and scanning; Dmcdp/Extents is bitmap_extents, with Extents/Covered.
--     Dmcdp/Driver is status and read_bitmap, with Driver/Answers on a driver that answers as its
--     header (uapi/linux/dm-cdp.h) says.
--   Rkcdpd/SeedLayer: data_regions and class SeedLayer of rkcdp/rkcdpd.py; SeedLayer/Bitmap has the
--     bits of `saved`, SeedLayer/Preserve the soundness of the layer.
--   Rkcdpd/Replica: class Replica; Replica/Effect has what a record does to a disk.
--   Rkcdpd/Daemon: class Daemon, apply_one, consume, apply_pending; Daemon/Park, Reads and Order are
--     on parking. The record Daemon holds the fields of the object and the files of the node's
--     directory that its methods read and write (pending.bin, .rebuild.lock, manifest, recovery).
--   Rkcdpd/Daemon/Copy: copy_chunk, base_copy and recover, with Copy/Loop, Chunk, Converge and
--     Straddle on copy_chunk, Copy/BaseCopy and WholeCopy on base_copy and Copy/Recover on recover;
--     Copy/Settle has what makes a round fair: the device shows the disk after a part of the log.
--     The thread's steps (flag_chunk, land_chunk, release_chunk) are functions on the daemon; the
--     records that the apply loop handles between two of them are arguments.
--   Rkcdpd/Threads: the two threads in any order, as a step relation on a System (the daemon, where
--     the copy thread is, the disk and what is still to come). A step is one section under the lock,
--     one read or one write. Threads/Handled has the calm orders and what one record keeps,
--     Threads/Invariant what every step keeps, Threads/Runs a run that loses a write, Threads/Seeded the
--     seed layer.
--   Rkcdpd/Status: write_status's state, check_seed, start_recovery and the turns of main;
--     Status/Cycle is on one turn and the state, Status/MainLoop on many turns, Status/Parked on
--     many turns under the rebuild lock, Status/Alone on turns beside which no recovery begins, and
--     Status/Unlocked and Status/Rebuilt on turns before, under and after the lock;
--     Status/Document is status.json as write_status writes it.
--   Rkcdpd/Recovery: start_recovery from what the driver answers; Recovery/Reread follows it to the
--     replica.
--   Rkcdpd/Timers: the loop of main with its timers (the cycle, the consistent points, node.json);
--     Timers/Spaced is on it. Rkcdpd/Conf: load_conf and what __init__ makes of it. Rkcdpd/Throttle:
--     class Throttle, with Throttle/Rate. Rkcdpd/Target: table_device and ensure_target, with
--     Target/Named and Adopted.
--   Rkcdpd/Consistent: mark_consistent, with what fsfreeze does and the reads that follow as an
--     argument (Freeze); Consistent/Point is on it.
--   Rkcdpd/Restart: __init__ and the start of main, over the files of an earlier daemon;
--     Restart/Resumed is on them.
--   ApiRkcdp: the state ladder of _nodes and the endpoint rkcdp_rebuild; ApiRkcdp/Shown is on them.
--     ApiRkcdp/Nodes is the rest of _nodes, the cache and the other endpoints; Nodes/Listed is on the
--     list, Nodes/Fresh on what is shown of a live daemon.
--   RkcdpRebuild: class Progress, overlay_seed, _copy_with_progress, main; RkcdpRebuild/Overlay, Lock
--     and Succeeds are on them.
--     RkcdpRebuild/Quiesce is step 2 of main, the wait for the daemon to park.
--   RkcdpSeed: progress and the resumable copy of main; RkcdpSeed/Resumed and Retried are on a copy
--     that is resumed once and often. RkcdpSeed/Main: find_vm, disk_size and the steps of main over
--     the files that it writes; Main/Waiting is on its wait, Main/Exits on how a run ends.
--   RkcdpSetup: rkcdp/rkcdp-setup.py, on a file system that is a function from paths; RkcdpSetup/Paths
--     is on copying and removing, RkcdpSetup/Installed on install, remove and check. Steps, Order and
--     Upgrade take an installation as a list of steps, each on its own path, to do it twice.
--   WriteJson: write_json and load_json of the daemon and of the seeding, and Progress.flush, as calls
--     of which a power failure may stop any; WriteJson/Survived is on what is left then.
--   Tests, Tests/*: the theorems at concrete inputs.
--
-- Conventions. Bytes, offsets, sequence numbers and times are natural numbers (seconds in the
-- manager and the rebuild, milliseconds in the main loop, nanoseconds in the throttle). An exception is a
-- constructor or `none`. iter_loop runs on fuel: the length of the buffer and one, since a round
-- that goes on takes at least a byte; a record that claims the length 0 makes the generator spin,
-- which is the outcome `spins`. pending_loop has one round for each byte of pending.bin and one
-- more, overlay_region one for each byte of the region and one more: both take a byte a round. The
-- loops that end with what they read (the base copy, the recovery, the drain of a freeze, the main
-- loop, the wait of the seeding, the polls of a copy) go over the list of those reads.
--
-- Parameters: libc.fallocate (PunchesZeros is what fallocate(2) documents), the driver's ioctls
-- (Answers is what its header documents), dd (DdCopies), time.sleep (AreTimed: it sleeps as long as it is told
-- to, or longer), str.strip, str.lower and str of a number, what the device and a raw read return, and
-- what commands, ssh and the file system answer (Facts, Turn, Tick, Freeze, Look, Found, Host,
-- Commands).
--
-- Replica/Effect.effect takes a record for its request: of a record with F_ERROR the driver says that the
-- device returned an error, which the code does not look at. Every statement here on what the disk is
-- after some records takes their requests to have succeeded. The functions of Rkcdpd/Status have the
-- recovery thread as a flag and run no copy; in Rkcdpd/Daemon/Copy no record is handled between the
-- release of a chunk and its deferred records, in Rkcdpd/Threads any may be. The lock file changes
-- between two turns of the main loop.
--
-- Not modelled: the driver itself (C), the result of fsfreeze -u, which the code does not look at, fsync but in WriteJson, two threads within one write to the
-- replica or the seed layer, the progress that a copy reports beside its bytes (rate and remaining
-- time), node_json, boot_id and root_disk (facts of the host), the text of the host's script and
-- mark_standby (not called) in a rebuild, who may call an endpoint, and the C tools, patches, units
-- and scripts.
pub mod Base
pub mod Image
pub mod Dmcdp
pub mod Rkcdpd
pub mod ApiRkcdp
pub mod RkcdpRebuild
pub mod RkcdpSeed
pub mod RkcdpSetup
pub mod WriteJson
pub mod Tests
