-- ===== src/Rkcdpd/Recovery/Reread.antt =====
-- A recovery from the driver's bitmap to the replica (start_recovery and recover of rkcdp/rkcdpd.py,
-- read_bitmap and bitmap_extents of rkcdp/dmcdp.py).
use io_filter_driver_for_lin.Base.{
  ℕ, ◌/◌, ◌<◌, ◌≡◌, ◌⊎◌, refl, sym, ◌∙◌, true, false, Option, none, some, List, ◌++◌, arith,
}
use io_filter_driver_for_lin.Image.{Image}
use io_filter_driver_for_lin.Dmcdp.{Item}
use io_filter_driver_for_lin.Dmcdp.Extents.{bitmap_extents}
use io_filter_driver_for_lin.Dmcdp.Extents.Covered.{dirty}
use io_filter_driver_for_lin.Dmcdp.Driver.{DriverStatus, Ioctls}
use io_filter_driver_for_lin.Dmcdp.Driver.Answers.{Answers, read_bitmap-bitmap_extents}
use io_filter_driver_for_lin.Rkcdpd.Replica.Effect.{PunchesZeros}
use io_filter_driver_for_lin.Rkcdpd.Daemon.{Daemon, apply_all}
use io_filter_driver_for_lin.Rkcdpd.Daemon.Copy.{recover}
use io_filter_driver_for_lin.Rkcdpd.Daemon.Copy.Loop.{effects}
use io_filter_driver_for_lin.Rkcdpd.Daemon.Copy.Settle.{Settles}
use io_filter_driver_for_lin.Rkcdpd.Daemon.Copy.Recover.{
  Plan, RereadsAll, extents_of, rounds_of, log_of_plan, recover-bitmap_extents,
}
use io_filter_driver_for_lin.Rkcdpd.Status.{start_recovery}
use io_filter_driver_for_lin.Rkcdpd.Recovery.{recovery_extents, start_driver_recovery}

recovery_extents-Answers :
    (fd : Ioctls) (s : DriverStatus) (bm : List ℕ)
    → Answers fd s bm
    → recovery_extents fd ≡ bitmap_extents bm s.chunk_sectors s.bitmap_bits
unfolding recovery_extents
recovery_extents-Answers fd s bm answers =
    let read = (read_bitmap-bitmap_extents fd s bm answers true).1 in
    rw (recovery_extents, read) refl

-- From a driver that answers as its header says, a recovery is started with the extents of its bitmap in
-- recovery.json; and where each of them is re-read whole by fair rounds (IsFair), the recovery ends
-- without recovery.json and brings the replica up to date: once the records that follow are applied,
-- each byte of a chunk that the driver's bitmap has as dirty, or that the records alone would have
-- brought up to date, is that of the disk after all those records. No chunk is in flight at the start.
pub start_driver_recovery-recover :
    (fallocate : ℕ → ℕ → Image → Option Image) (fd : Ioctls) (s : DriverStatus) (bm : List ℕ)
    (plan : Plan) (rest : List Item) (disk : Image) (d : Daemon) (i : ℕ)
    → PunchesZeros fallocate
    → Answers fd s bm
    → 0 < s.chunk_sectors
    → recovery_extents fd ≡ some (extents_of plan)
    → d.copying ≡ none
    → RereadsAll disk plan rest
    → (dirty bm s.bitmap_bits (i / 512 / s.chunk_sectors) ≡ true)
      ⊎ Settles (log_of_plan plan ++ rest) disk d.replica.fd i
    → (d' : Daemon) × (start_driver_recovery fd d ≡ some d')
      × (d'.recovery_json ≡ some (extents_of plan))
      × (let ended = recover fallocate (extents_of plan) (rounds_of plan) false d' in
          (ended.recovery_json ≡ none)
          × ((apply_all fallocate rest ended).replica.fd i
              ≡ effects (log_of_plan plan ++ rest) disk i))
unfolding start_driver_recovery start_recovery recover
start_driver_recovery-recover fallocate fd s bm plan rest disk d i zeros answers wide found free
      fair h =
    let same = recovery_extents-Answers fd s bm answers in
    let d' = start_recovery (extents_of plan) d in
    (
      d',
      rw (start_driver_recovery, found) refl,
      refl,
      (
        refl,
        recover-bitmap_extents fallocate zeros bm s.chunk_sectors s.bitmap_bits plan rest disk d' i
            (omega (arith, answers.bytes_enough, answers.bytes_given)) wide (sym same ∙ found) free
            fair h,
      ),
    )
