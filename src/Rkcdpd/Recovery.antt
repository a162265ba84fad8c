-- ===== src/Rkcdpd/Recovery.antt =====
-- start_recovery of rkcdp/rkcdpd.py from the driver's bitmap, which read_bitmap of rkcdp/dmcdp.py reads
-- and clears.
pub mod Reread
use io_filter_driver_for_lin.Base.{ℕ, true, Option, none, some, List}
use io_filter_driver_for_lin.Dmcdp.Extents.{bitmap_extents}
use io_filter_driver_for_lin.Dmcdp.Driver.{Ioctls, read_bitmap}
use io_filter_driver_for_lin.Rkcdpd.Daemon.{Daemon}
use io_filter_driver_for_lin.Rkcdpd.Status.{start_recovery}

-- bm, chunk, nbits = dmcdp.read_bitmap(self.cdp_fd, clear=True); extents = list(bitmap_extents(…))
unfoldable pub recovery_extents : Ioctls → Option (List (ℕ × ℕ))
recovery_extents fd = elim (read_bitmap fd true) [
  | none ↦ none
  | some (bm, chunk, nbits) ↦ bitmap_extents bm chunk nbits
]

-- start_recovery, with what the driver answers.
unfoldable pub start_driver_recovery : Ioctls → Daemon → Option Daemon
start_driver_recovery fd d = elim (recovery_extents fd) [
  | none ↦ none
  | some extents ↦ some (start_recovery extents d)
]
