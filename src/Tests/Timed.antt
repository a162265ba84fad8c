-- ===== src/Tests/Timed.antt =====
-- The theorems on the timers of the main loop, applied to two turns of a live daemon.
use io_filter_driver_for_lin.Base.{ℕ, refl, false, none, [], ◌∷◌, List, arith}
use io_filter_driver_for_lin.Rkcdpd.Consistent.{froze}
use io_filter_driver_for_lin.Rkcdpd.Timers.{Periods, Main, Tick, going, timed_loop}
use io_filter_driver_for_lin.Rkcdpd.Timers.Spaced.{IsSpaced, timed_loop-IsSpaced}
use io_filter_driver_for_lin.Tests.{punching, idle_daemon}
use io_filter_driver_for_lin.Tests.Streams.{turn_of, cut_read, next_read}

abbrev hourly : Periods
hourly = record { cycle_period = 1000; consistent_period = 3600000 }

abbrev begun : Main
begun = record {
  running = going [];
  daemon = idle_daemon;
  clock = record { last_cycle = 0; last_time = none; last_consistent = 0; last_node = 0 };
  owes_thaw = false;
  points = [];
  node_json = [];
}

abbrev tick_at : ℕ → List ℕ → Tick
tick_at t bytes = record { turn = turn_of bytes; now = t; freeze = froze []; marked_at = t }

abbrev two_ticks : List Tick
two_ticks = tick_at 3600000 cut_read ∷ tick_at 9000000 next_read ∷ []

timed_loop-IsSpaced_example :
    let m' = timed_loop punching hourly two_ticks begun in
    IsSpaced 3600000 m'.clock.last_consistent m'.points
timed_loop-IsSpaced_example =
    timed_loop-IsSpaced punching hourly two_ticks begun (omega arith, (omega arith, tt)) refl
