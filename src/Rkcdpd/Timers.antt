-- ===== src/Rkcdpd/Timers.antt =====
-- The loop of Daemon.main of rkcdp/rkcdpd.py with its timers: the cycle, the consistent points and
-- node.json. A time is a natural number of milliseconds.
pub mod Spaced
use io_filter_driver_for_lin.Base.{
  ℕ, ◌+◌, Bool, true, false, ◌&&◌, Option, none, some, List, [], ◌∷◌, ltb, leb, if◌then◌else◌,
}
use io_filter_driver_for_lin.Image.{Image}
use io_filter_driver_for_lin.Rkcdpd.Daemon.{Daemon, Returned, value, value_error, never}
use io_filter_driver_for_lin.Rkcdpd.Status.{Turn, present, cycle}
use io_filter_driver_for_lin.Rkcdpd.Consistent.{
  Freeze, Attempt, unsettled, freeze_refused, abandoned, marked, timeout_expired, bad_record, hangs,
  Ended, mark_consistent,
}

-- last_time is what status.json says of the last cycle.
pub record Clock : Type 0 where
  pub last_cycle : ℕ
  pub last_time : Option ℕ
  pub last_consistent : ℕ
  pub last_node : ℕ

-- self.cycle_sec and self.consistent_sec
pub record Periods : Type 0 where
  pub cycle_period : ℕ
  pub consistent_period : ℕ

abbrev pub node_period : ℕ
node_period = 3600000

-- The loop goes on with `pending`, has been left by one of two exceptions, or hangs in a scan.
pub data Running : Type 0 where
  going : List ℕ → Running
  raised_value_error raised_timeout hung : Running

-- `owes_thaw`: see Ended; `points`: when each consistent point was marked, the last
-- one first; `node_json`: when node.json was written, the last time first.
pub record Main : Type 0 where
  pub running : Running
  pub daemon : Daemon
  pub clock : Clock
  pub owes_thaw : Bool
  pub points : List ℕ
  pub node_json : List ℕ

-- A turn with the time that it reads after its work, what a freeze in it does, and the time when
-- mark_consistent reads the clock at its end. A turn whose read fails goes back to the loop's head at
-- once and is left out.
pub record Tick : Type 0 where
  pub turn : Turn
  pub now : ℕ
  pub freeze : Freeze
  pub marked_at : ℕ

abbrev pub running_of : Returned (List ℕ) → Running
running_of (value pending) = going pending
running_of value_error = raised_value_error
running_of never = hung

-- What comes next happens unless the loop has been left.
abbrev pub if_going : Running → Main → Main → Main
if_going (going pending) next m = next
if_going raised_value_error next m = m
if_going raised_timeout next m = m
if_going hung next m = m

-- if now - last_cycle >= self.cycle_sec: self.replica.fsync(); self.last_time = now; last_cycle = now
unfoldable pub cycle_timer : Periods → ℕ → Main → Main
cycle_timer p now m =
    if leb (m.clock.last_cycle + p.cycle_period) now
    then record m { clock = record m.clock { last_cycle = now; last_time = some now } }
    else m

-- What comes of the loop, of the clock and of the points once mark_consistent has ended.
abbrev pub run_on : Attempt → Running → Running
run_on timeout_expired r = raised_timeout
run_on bad_record r = raised_value_error
run_on hangs r = hung
run_on unsettled r = r
run_on freeze_refused r = r
run_on abandoned r = r
run_on marked r = r

-- self.last_consistent = time.time(), reached only by a point that is marked
unfoldable pub note_point : Attempt → ℕ → Main → Main
note_point marked t m = record m {
  clock = record m.clock { last_consistent = t };
  points = t ∷ m.points;
}
note_point unsettled t m = m
note_point freeze_refused t m = m
note_point abandoned t m = m
note_point timeout_expired t m = m
note_point bad_record t m = m
note_point hangs t m = m

unfoldable pub take_point : ℕ → Ended → Main → Main
take_point t e m =
    note_point e.attempt t (record m {
      running = run_on e.attempt m.running;
      daemon = e.daemon;
      owes_thaw = e.owes_thaw;
    })

-- self.consistent_sec > 0 and now - self.last_consistent >= self.consistent_sec
--     and "base_end_seq" in self.manifest
abbrev pub point_due : Periods → ℕ → Main → Bool
point_due p now m =
    ltb 0 p.consistent_period
    && leb (m.clock.last_consistent + p.consistent_period) now
    && present m.daemon.base_end_seq

-- if now - last_node > 3600: write_json(…/node.json); last_node = now
unfoldable pub node_timer : ℕ → Main → Main
node_timer now m =
    if ltb (m.clock.last_node + node_period) now
    then record m { clock = record m.clock { last_node = now }; node_json = now ∷ m.node_json }
    else m

module _ (fallocate : ℕ → ℕ → Image → Option Image) (p : Periods) where
  unfoldable pub point_timer : Tick → Main → Main
  point_timer k m =
      if point_due p k.now m
      then take_point k.marked_at (mark_consistent fallocate k.freeze m.daemon) m
      else m

  -- The timers of a turn, after its work.
  unfoldable pub timers : Tick → Main → Main
  timers k m =
      let m' = point_timer k (cycle_timer p k.now m) in
      if_going m.running (if_going m'.running (node_timer k.now m') m') m

  unfoldable pub timed_turn : Tick → Main → Main
  timed_turn k m = elim m.running [
    | going pending ↦
        let (result, d) = cycle fallocate pending k.turn m.daemon in
        timers k (record m { running = running_of result; daemon = d })
    | raised_value_error ↦ m
    | raised_timeout ↦ m
    | hung ↦ m
  ]

  unfoldable pub timed_loop : List Tick → Main → Main
  timed_loop [] m = m
  timed_loop (k ∷ ticks) m = timed_loop ticks (timed_turn k m)
