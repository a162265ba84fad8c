-- ===== src/Rkcdpd/Status/Rebuilt.antt =====
-- What a rebuild copies while the daemon goes on (Daemon.main of rkcdp/rkcdpd.py beside step 2 and 3 of
-- rkcdp/rkcdp-rebuild.py).
use io_filter_driver_for_lin.Base.{
  ℕ, ◌-◌, ◌≡◌, refl, sym, ap, ◌∙◌, true, false, Option, List, [], ◌∷◌, ◌++◌, All, drop,
}
use io_filter_driver_for_lin.Image.{Image}
use io_filter_driver_for_lin.Dmcdp.{Item, Outcome, done, iter_records, iter_loop}
use io_filter_driver_for_lin.Dmcdp.Stream.{Fits}
use io_filter_driver_for_lin.Dmcdp.Records.{iter_records-rest}
use io_filter_driver_for_lin.Dmcdp.Cut.{iter_records-Cut}
use io_filter_driver_for_lin.Rkcdpd.Replica.{Replica}
use io_filter_driver_for_lin.Rkcdpd.Replica.Effect.{PunchesZeros}
use io_filter_driver_for_lin.Rkcdpd.Daemon.{Daemon, value}
use io_filter_driver_for_lin.Rkcdpd.Daemon.Copy.Loop.{effects, effects_local, effects-append}
use io_filter_driver_for_lin.Rkcdpd.Status.{Turn, main_loop}
use io_filter_driver_for_lin.Rkcdpd.Status.Alone.{IsAlone, HasNoGap, HasNoGap-append}
use io_filter_driver_for_lin.Rkcdpd.Status.MainLoop.{IsLive, stream_of, main_loop-iter_records}
use io_filter_driver_for_lin.Rkcdpd.Status.Unlocked.{main_loop-IsAlone, locked_run}

module _ (fallocate : ℕ → ℕ → Image → Option Image) where
  -- A live daemon runs, a rebuild takes the lock, the daemon runs on, the lock goes, and a turn that
  -- reads nothing finds it gone. As long as the lock is held, replica.raw is the disk with just the
  -- whole records that were read before it, in order, so the copy of the rebuild is that moment's
  -- disk, even if the last read before the lock ended within a record; and in the end the replica has
  -- each record of the whole stream, once and in order, nothing is parked, and what is kept of the
  -- bytes is what the scan of the whole stream leaves over. The lock changes between turns. No
  -- recovery and no base copy is under way at first, and no record tells of a gap, so none begins:
  -- nothing but these turns writes the replica. The stream is one that scans without an error, each
  -- record being no shorter than its payload.
  pub main_loop_rebuilt :
      PunchesZeros fallocate
      → (before during : List Turn) (last : Turn) (e : ℕ) (d : Daemon) (i : ℕ) → IsLive d
      → IsAlone d
      → last.read ≡ []
      → (iter_records (stream_of before ++ stream_of during)).1 ≡ done e
      → All Fits (iter_records (stream_of before ++ stream_of during)).0
      → HasNoGap (iter_records (stream_of before ++ stream_of during)).0
      → let (tail, d1) = main_loop fallocate before (value [], d) in
        let (rest, d2) = main_loop fallocate during (tail, record d1 { rebuild_lock = true }) in
        let (left, d3) =
          main_loop fallocate (last ∷ []) (rest, record d2 { rebuild_lock = false }) in
        let stream = stream_of before ++ stream_of during in
        (d2.replica.fd i ≡ effects (iter_records (stream_of before)).0 d.replica.fd i)
        × IsAlone d2
        × (left ≡ value (drop e stream))
        × IsLive d3
        × IsAlone d3
        × (d3.replica.fd i ≡ effects (iter_records stream).0 d.replica.fd i)
  main_loop_rebuilt zeros before during last e d i live alone r h f gapless =
      let c = iter_records-Cut (stream_of before) (stream_of during) e h f in
      let xs = (iter_records (stream_of before)).0 in
      let tail = drop c.ends (stream_of before) in
      let ys = (iter_records (tail ++ stream_of during)).0 in
      let (early, late) = HasNoGap-append xs ys (rw c.joined at gapless) in
      let (left, live', applied) =
        main_loop-iter_records fallocate zeros before c.ends d i live c.first c.first_fits in
      let alone' =
        main_loop-IsAlone fallocate zeros before [] c.ends d live c.first c.first_fits
          (unfold iter_records iter_loop in refl) early alone in
      let d1 = (main_loop fallocate before (value [], d)).1 in
      let (still, alone2, kept, live3, alone3, replayed) =
        locked_run fallocate zeros during last tail (e - c.ends) (record d1 { rebuild_lock = true })
          i (record { seeded = live'.seeded; locked = refl }) live'.nothing_parked live'.no_chunk r
          c.second c.second_fits
          (ap (λ (s : List Item × Outcome). s.0)
            (iter_records-rest (stream_of before) c.ends c.first))
          late
          (record {
            none_queued = alone'.none_queued;
            none_running = alone'.none_running;
            no_base = alone'.no_base;
          }) in
      rw left (
        ap (λ (r : Replica). r.fd i) still ∙ applied,
        alone2,
        kept ∙ ap value c.left_over,
        live3,
        alone3,
        replayed
            ∙ effects_local ys d1.replica.fd (effects xs d.replica.fd) i applied
            ∙ ap (λ (a : Image). a i) (sym (effects-append xs ys d.replica.fd))
            ∙ ap (λ zs. effects zs d.replica.fd i) (sym c.joined),
      )
