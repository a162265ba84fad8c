-- ===== src/Tests/Restarting.antt =====
-- A daemon that is started again, at concrete inputs.
use io_filter_driver_for_lin.Base.{
  ◌≡◌, refl, true, false, none, some, [], ◌∷◌, ◌++◌, pos, inl, if◌then◌else◌,
}
use io_filter_driver_for_lin.Rkcdpd.Daemon.{Daemon, apply_all, value, recovery_active}
use io_filter_driver_for_lin.Rkcdpd.Daemon.Copy.{Round, recover}
use io_filter_driver_for_lin.Rkcdpd.Daemon.Copy.Loop.{effects}
use io_filter_driver_for_lin.Rkcdpd.Daemon.Copy.Recover.{extents_of, rounds_of, log_of_plan}
use io_filter_driver_for_lin.Rkcdpd.Status.{Turn, main_loop, status_state, s_overflowed}
use io_filter_driver_for_lin.Rkcdpd.Restart.{restart}
use io_filter_driver_for_lin.Rkcdpd.Restart.Resumed.{recover-restart, restart_forgets_gap}
use io_filter_driver_for_lin.Tests.{
  sevens, punching, punching-PunchesZeros, idle_daemon, plain_replica,
}
use io_filter_driver_for_lin.Tests.Copying.{one_sector, one_sector-RereadsAll}

-- Half of the sector has been re-read when the signal comes.
abbrev half_read : Round
half_read = record { idle = []; dev = sevens; got = 256; early = []; late = [] }

abbrev recovering : Daemon
recovering = record idle_daemon {
  recovery_alive = true;
  recovery_json = some (extents_of one_sector);
}

recover-restart_example :
    let d1 =
      restart true 1048576 plain_replica
        (recover punching (extents_of one_sector) (half_read ∷ []) true recovering) in
    let d2 = recover punching (extents_of one_sector) (rounds_of one_sector) false d1 in
    (recovery_active d1 ≡ true)
    × (d1.recovery_json ≡ some (extents_of one_sector))
    × (d2.recovery_json ≡ none)
    × ((apply_all punching [] d2).replica.fd 3 ≡ effects (log_of_plan one_sector ++ []) sevens 3)
recover-restart_example =
    recover-restart punching punching-PunchesZeros (half_read ∷ []) one_sector [] sevens true
      1048576 plain_replica recovering 3 refl one_sector-RereadsAll (inl refl)

-- A gap before record 7 waits.
abbrev queued : Daemon
queued = record idle_daemon { recovery_queue = pos 7 ∷ [] }

abbrev quiet_turn : Turn
quiet_turn = record { read = []; seeded = none; seed_file = none; boot_id = "boot"; extents = [] }

restart_forgets_gap_example :
    let d' = restart true 1048576 plain_replica queued in
    (main_loop punching (quiet_turn ∷ quiet_turn ∷ []) (value [], d') ≡ (value [], d'))
    × (recovery_active d' ≡ false)
    × (d'.recovery_queue ≡ [])
    × (status_state s_overflowed d' ≡ (if queued.rebuild_lock then "PAUSED" else "BITMAP"))
restart_forgets_gap_example =
    restart_forgets_gap punching (quiet_turn ∷ quiet_turn ∷ []) 0 true 1048576 plain_replica queued
      refl refl refl (refl, (refl, tt))
