-- ===== src/ApiRkcdp/Nodes/Fresh.antt =====
-- What the manager API shows of a daemon (row and node_state of rkcdp/api_rkcdp.py over what
-- Daemon.write_status of rkcdp/rkcdpd.py wrote).
use Prim.Native.String.{String}
use io_filter_driver_for_lin.Base.{
  ℕ, ◌-◌, ◌≤◌, ◌≡◌, refl, Bool, le→leb, true, false, ◌||◌, not, Option, some, leb, if◌then◌else◌,
  ◌==◌, bit_and, length,
}
use io_filter_driver_for_lin.Dmcdp.Driver.{DriverStatus}
use io_filter_driver_for_lin.Rkcdpd.Daemon.{Daemon, recovery_active}
use io_filter_driver_for_lin.Rkcdpd.Daemon.Reads.{bytes_of}
use io_filter_driver_for_lin.Rkcdpd.Status.{
  s_overflowed, present, nonempty, status_state, state_ladder,
}
use io_filter_driver_for_lin.Rkcdpd.Status.Document.{StatusDoc, Reporter, write_status}
use io_filter_driver_for_lin.ApiRkcdp.{
  stale_sec, NodeState, waiting, syncing, unprotected, bitmap, paused, cdp, fresh, seed_running,
  node_state,
}
use io_filter_driver_for_lin.ApiRkcdp.Nodes.{NodeStatus, SeedShown, Entry, row, get, base_of}

-- The document as the manager reads it back: a null is a missing key.
abbrev pub read_back : StatusDoc → NodeStatus
read_back doc = record {
  time = some doc.time;
  state = some doc.state;
  last_seq = doc.last_seq;
  last_time = doc.last_time;
  seq_next = some doc.seq_next;
  overflows = some doc.overflows;
  pending_bytes = some doc.pending_bytes;
  base_copy = doc.base_copy;
}

-- What a node is shown as, by what its daemon is doing.
abbrev pub shown_as : Bool → ℕ → Daemon → NodeState
shown_as has_base flags d =
    if d.seed_required
    then waiting
    else if present d.base_progress
    then syncing
    else if not has_base
    then unprotected
    else if recovery_active d || nonempty d.recovery_queue
    then bitmap
    else if d.rebuild_lock
    then paused
    else if not (bit_and flags s_overflowed == 0)
    then bitmap
    else cdp

ladder_shown :
    (now time : ℕ) (phase : Option String) (has_base w c r p o : Bool)
    → leb (now - time) stale_sec ≡ true
    → seed_running phase ≡ false
    → node_state now
        (some (record { time = time; state = some (state_ladder w c r p o) }))
        phase
        has_base
      ≡ (if w
          then waiting
          else if c
          then syncing
          else if not has_base
          then unprotected
          else if r
          then bitmap
          else if p
          then paused
          else if o
          then bitmap
          else cdp)
unfolding node_state state_ladder fresh
ladder_shown now time phase has_base true c r p o h k = rw (k, h)
ladder_shown now time phase has_base false true r p o h k = rw (k, h)
ladder_shown now time phase has_base false false true p o h k = rw (k, h)
ladder_shown now time phase has_base false false false true o h k = rw (k, h)
ladder_shown now time phase has_base false false false false true h k = rw (k, h)
ladder_shown now time phase has_base false false false false false h k = rw (k, h)

-- Where status.json was written by the daemon in the last minute, and no seeding runs: the row of the
-- node shows what the daemon was doing, its last record, the bytes that it has parked in pending.bin
-- and those that its base copy has done, and the driver's next sequence number and overflows.
pub row-write_status :
    (now : ℕ) (e : Entry) (r : Reporter) (st : DriverStatus) (d : Daemon)
    → e.status ≡ some (read_back (write_status r st d))
    → now - r.time ≤ stale_sec
    → seed_running (get (λ (s : SeedShown). s.phase) e.seed) ≡ false
    → let shown = row now e in
      (shown.state ≡ shown_as (base_of e.manifest) st.flags d)
      × (shown.last_seq ≡ d.last_seq)
      × (shown.pending_bytes ≡ length (bytes_of d.pending_bin))
      × (shown.base_copy ≡ d.base_progress)
      × (shown.seq_next ≡ some st.seq_next)
      × (shown.overflows ≡ some st.overflows)
unfolding row write_status status_state
row-write_status now e r st d wrote recent idle =
    let stated =
      ladder_shown now r.time (get (λ (s : SeedShown). s.phase) e.seed) (base_of e.manifest)
        d.seed_required (present d.base_progress) (recovery_active d || nonempty d.recovery_queue)
        d.rebuild_lock (not (bit_and st.flags s_overflowed == 0))
        (le→leb (now - r.time) stale_sec recent) idle in
    rw wrote (stated, refl, refl, refl, refl, refl)
