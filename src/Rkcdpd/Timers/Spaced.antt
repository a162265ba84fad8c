-- ===== src/Rkcdpd/Timers/Spaced.antt =====
-- On the consistent points that the main loop takes (Daemon.main of rkcdp/rkcdpd.py).
use io_filter_driver_for_lin.Base.{
  ℕ, ◌+◌, ◌≤◌, ◌≡◌, ◌≢◌, inl, inr, refl, ap, ◌∙◌, Option, List, [], ◌∷◌, map, arith, All,
  Bool-cases,
}
use io_filter_driver_for_lin.Image.{Image}
use io_filter_driver_for_lin.Rkcdpd.Daemon.{Daemon, Returned, value, value_error, never}
use io_filter_driver_for_lin.Rkcdpd.Status.{cycle, main_loop}
use io_filter_driver_for_lin.Rkcdpd.Consistent.{
  Attempt, unsettled, freeze_refused, abandoned, marked, timeout_expired, bad_record, hangs,
  mark_consistent,
}
use io_filter_driver_for_lin.Rkcdpd.Timers.{
  Periods, Running, going, raised_value_error, raised_timeout, hung, Main, Tick, running_of,
  if_going, cycle_timer, run_on, note_point, take_point, point_due, node_timer, point_timer, timers,
  timed_turn, timed_loop,
}

-- The first of the times, the last one being first, is no later than `t`, and one is at least
-- `period` after the next.
abbrev pub IsSpaced : ℕ → ℕ → List ℕ → Type 0
IsSpaced period t [] = Unit
IsSpaced period t (u ∷ []) = u ≤ t
IsSpaced period t (u ∷ v ∷ times) = (u ≤ t) × (v + period ≤ u) × IsSpaced period v (v ∷ times)

-- mark_consistent ends no earlier than the turn began it.
abbrev pub IsForward : Tick → Type 0
IsForward k = k.now ≤ k.marked_at

IsSpaced-∷ :
    (period t u : ℕ) (times : List ℕ)
    → IsSpaced period t times
    → t + period ≤ u
    → IsSpaced period u (u ∷ times)
IsSpaced-∷ period t u [] h k = omega arith
IsSpaced-∷ period t u (v ∷ []) h k = (omega arith, omega arith, omega arith)
IsSpaced-∷ period t u (v ∷ w ∷ times) (le, apart, rest) k =
    (omega arith, omega arith, (omega arith, apart, rest))

-- What the points and their timer are, apart from the rest.
abbrev points_of : Main → List ℕ × ℕ
points_of m = (m.points, m.clock.last_consistent)

abbrev Spaced : ℕ → List ℕ × ℕ → Type 0
Spaced period (points, last) = IsSpaced period last points

Spaced-same : (period : ℕ) {x y : List ℕ × ℕ} → x ≡ y → Spaced period y → Spaced period x
Spaced-same period e h = rw e h

cycle_timer-points_of :
    (p : Periods) (now : ℕ) (m : Main) → points_of (cycle_timer p now m) ≡ points_of m
unfolding cycle_timer
cycle_timer-points_of p now m = ground arith

node_timer-points_of : (now : ℕ) (m : Main) → points_of (node_timer now m) ≡ points_of m
unfolding node_timer
node_timer-points_of now m = ground arith

node_if_going :
    (now : ℕ) (m : Main) (r : Running) → points_of (if_going r (node_timer now m) m) ≡ points_of m
node_if_going now m (going pending) = node_timer-points_of now m
node_if_going now m raised_value_error = refl
node_if_going now m raised_timeout = refl
node_if_going now m hung = refl

note_point-Spaced :
    (period t : ℕ) (a : Attempt) (m : Main)
    → Spaced period (points_of m)
    → m.clock.last_consistent + period ≤ t
    → Spaced period (points_of (note_point a t m))
unfolding note_point
note_point-Spaced period t unsettled m h k = h
note_point-Spaced period t freeze_refused m h k = h
note_point-Spaced period t abandoned m h k = h
note_point-Spaced period t marked m h k = IsSpaced-∷ period m.clock.last_consistent t m.points h k
note_point-Spaced period t timeout_expired m h k = h
note_point-Spaced period t bad_record m h k = h
note_point-Spaced period t hangs m h k = h

module _ (fallocate : ℕ → ℕ → Image → Option Image) (p : Periods) where
  point_timer-Spaced :
      (k : Tick) (m : Main)
      → IsForward k
      → Spaced p.consistent_period (points_of m)
      → Spaced p.consistent_period (points_of (point_timer fallocate p k m))
  unfolding point_timer take_point
  point_timer-Spaced k m forward h = elim (Bool-cases (point_due p k.now m)) [
    | inl due ↦
        let e = mark_consistent fallocate k.freeze m.daemon in
        rw due (
          note_point-Spaced p.consistent_period k.marked_at e.attempt
            (record m {
              running = run_on e.attempt m.running;
              daemon = e.daemon;
              owes_thaw = e.owes_thaw;
            })
            h (ground arith))
    | inr not_due ↦ rw not_due h
  ]

  timers-Spaced :
      (k : Tick) (m : Main) (r : Running)
      → m.running ≡ r
      → IsForward k
      → Spaced p.consistent_period (points_of m)
      → Spaced p.consistent_period (points_of (timers fallocate p k m))
  unfolding timers
  timers-Spaced k m (going pending) e forward h =
      let m1 = cycle_timer p k.now m in
      let m2 = point_timer fallocate p k m1 in
      let cycled : Spaced p.consistent_period (points_of m1) =
        Spaced-same p.consistent_period (cycle_timer-points_of p k.now m) h in
      let opened =
        ap (λ r. points_of (if_going r (if_going m2.running (node_timer k.now m2) m2) m)) e in
      Spaced-same p.consistent_period (opened ∙ node_if_going k.now m2 m2.running)
        (point_timer-Spaced k m1 forward cycled)
  timers-Spaced k m raised_value_error e forward h = rw e h
  timers-Spaced k m raised_timeout e forward h = rw e h
  timers-Spaced k m hung e forward h = rw e h

  timed_turn-Spaced :
      (k : Tick) (m : Main) (r : Running)
      → m.running ≡ r
      → IsForward k
      → Spaced p.consistent_period (points_of m)
      → Spaced p.consistent_period (points_of (timed_turn fallocate p k m))
  unfolding timed_turn
  timed_turn-Spaced k m (going pending) e forward h =
      let (result, d) = cycle fallocate pending k.turn m.daemon in
      rw e (
        timers-Spaced k (record m { running = running_of result; daemon = d }) (running_of result)
          refl forward h)
  timed_turn-Spaced k m raised_value_error e forward h = rw e h
  timed_turn-Spaced k m raised_timeout e forward h = rw e h
  timed_turn-Spaced k m hung e forward h = rw e h

  timed_loop_lem :
      (ticks : List Tick) (m : Main)
      → All IsForward ticks
      → Spaced p.consistent_period (points_of m)
      → Spaced p.consistent_period (points_of (timed_loop fallocate p ticks m))
  unfolding timed_loop
  timed_loop_lem [] m forward h = h
  timed_loop_lem (k ∷ ticks) m (forward, rest) h =
      timed_loop_lem ticks (timed_turn fallocate p k m) rest
        (timed_turn-Spaced k m m.running refl forward h)

  -- However long the main loop runs, with whatever reads, freezes and times, any two consistent points
  -- that follow one another are at least consistent_sec apart, and the last is no later than
  -- last_consistent; the clock is not set back while mark_consistent runs.
  pub timed_loop-IsSpaced :
      (ticks : List Tick) (m : Main)
      → All IsForward ticks
      → m.points ≡ []
      → let m' = timed_loop fallocate p ticks m in
        IsSpaced p.consistent_period m'.clock.last_consistent m'.points
  timed_loop-IsSpaced ticks m forward none_yet = timed_loop_lem ticks m forward (rw none_yet tt)

  no_points :
      (k : Tick) (m : Main) (r : Running)
      → p.consistent_period ≡ 0
      → m.running ≡ r
      → ((timers fallocate p k m).running ≡ r) × ((timers fallocate p k m).daemon ≡ m.daemon)
  unfolding timers point_timer cycle_timer node_timer
  no_points k m (going pending) off e = ground arith
  no_points k m raised_value_error off e = ground arith
  no_points k m raised_timeout off e = ground arith
  no_points k m hung off e = ground arith

  timed_turn_left :
      (k : Tick) (m : Main) (r : Running)
      → m.running ≡ r
      → ((pending : List ℕ) → r ≢ going pending)
      → timed_turn fallocate p k m ≡ m
  unfolding timed_turn
  timed_turn_left k m (going pending) e left = absurd (left pending refl)
  timed_turn_left k m raised_value_error e left = rw e refl
  timed_turn_left k m raised_timeout e left = rw e refl
  timed_turn_left k m hung e left = rw e refl

  timed_loop_left :
      (ticks : List Tick) (m : Main)
      → ((pending : List ℕ) → m.running ≢ going pending)
      → timed_loop fallocate p ticks m ≡ m
  unfolding timed_loop
  timed_loop_left [] m left = refl
  timed_loop_left (k ∷ ticks) m left =
      rw (timed_turn_left k m m.running refl left) (timed_loop_left ticks m left)

  -- With consistent points switched off, the loop with its timers goes the way of the loop without
  -- them: it goes on with the same bytes or is left by the same exception, and the daemon is the same.
  pub timed_loop-main_loop :
      (ticks : List Tick) (m : Main) (result : Returned (List ℕ))
      → p.consistent_period ≡ 0
      → m.running ≡ running_of result
      → let (result', d) =
          main_loop fallocate (map (λ (k : Tick). k.turn) ticks) (result, m.daemon) in
        let m' = timed_loop fallocate p ticks m in
        (m'.running ≡ running_of result') × (m'.daemon ≡ d)
  unfolding timed_loop main_loop
  timed_loop-main_loop [] m result off e = (e, refl)
  timed_loop-main_loop (k ∷ ticks) m (value pending) off e =
      let (result, d) = cycle fallocate pending k.turn m.daemon in
      let m1 = record m { running = running_of result; daemon = d } in
      let (same_running, same_daemon) = no_points k m1 (running_of result) off refl in
      let turned : timed_turn fallocate p k m ≡ timers fallocate p k m1 =
        unfold timed_turn in rw e refl in
      let more = timed_loop-main_loop ticks (timers fallocate p k m1) result off same_running in
      let stepped = ap (λ (n : Main). timed_loop fallocate p ticks n) turned in
      let looped =
        ap (λ (d' : Daemon). main_loop fallocate (map (λ (k' : Tick). k'.turn) ticks) (result, d'))
          same_daemon in
      (
        ap (λ (n : Main). n.running) stepped
            ∙ more.0
            ∙ ap (λ (r : Returned (List ℕ) × Daemon). running_of r.0) looped,
        ap (λ (n : Main). n.daemon) stepped
            ∙ more.1
            ∙ ap (λ (r : Returned (List ℕ) × Daemon). r.1) looped,
      )
  timed_loop-main_loop (k ∷ ticks) m value_error off e =
      let same = timed_loop_left (k ∷ ticks) m (λ pending h. cc) in
      (ap (λ (n : Main). n.running) same ∙ e, ap (λ (n : Main). n.daemon) same)
  timed_loop-main_loop (k ∷ ticks) m never off e =
      let same = timed_loop_left (k ∷ ticks) m (λ pending h. cc) in
      (ap (λ (n : Main). n.running) same ∙ e, ap (λ (n : Main). n.daemon) same)
