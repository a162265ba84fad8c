-- ===== src/Tests/Interleaved.antt =====
-- The theorems on the copy thread beside the apply loop and on a rebuild beside it, applied to runs.
use io_filter_driver_for_lin.Base.{
  drop, ◌≡◌, refl, ap, inr, true, false, some, [], ◌∷◌, ◌++◌, arith, All,
}
use io_filter_driver_for_lin.Image.{pread, pwrite}
use io_filter_driver_for_lin.Dmcdp.{Item, done, iter_records, iter_loop, rec_init}
use io_filter_driver_for_lin.Dmcdp.Stream.{Fits}
use io_filter_driver_for_lin.Rkcdpd.SeedLayer.{is_saved, preserve, preserve_loop, preserve_chunk}
use io_filter_driver_for_lin.Rkcdpd.SeedLayer.Bitmap.{bit_set}
use io_filter_driver_for_lin.Rkcdpd.Replica.{replica_write, replica_pwrite, save_seed}
use io_filter_driver_for_lin.Rkcdpd.Replica.Effect.{effect, IsSeeded}
use io_filter_driver_for_lin.Rkcdpd.Daemon.{Daemon, value, in_flight, apply_one}
use io_filter_driver_for_lin.Rkcdpd.Daemon.Copy.{flag_chunk, land_chunk, release_chunk}
use io_filter_driver_for_lin.Rkcdpd.Daemon.Copy.Loop.{effects}
use io_filter_driver_for_lin.Rkcdpd.Daemon.Copy.Converge.{Overwrites}
use io_filter_driver_for_lin.Rkcdpd.Status.{main_loop}
use io_filter_driver_for_lin.Rkcdpd.Status.MainLoop.{IsLive, stream_of}
use io_filter_driver_for_lin.Rkcdpd.Status.Alone.{IsAlone, HasNoGap}
use io_filter_driver_for_lin.Rkcdpd.Status.Rebuilt.{main_loop_rebuilt}
use io_filter_driver_for_lin.Rkcdpd.Threads.{
  resting, catching_up, System, handle, flag, read, land, release, catch_up, finish, Reach, here,
  after,
}
use io_filter_driver_for_lin.Rkcdpd.Threads.Handled.{IsCalm}
use io_filter_driver_for_lin.Rkcdpd.Threads.Invariant.{Reach-Settles}
use io_filter_driver_for_lin.Rkcdpd.Threads.Runs.{Anything, system, copy_chunk_races}
use io_filter_driver_for_lin.Rkcdpd.Threads.Seeded.{Reach-overlay_seed}
use io_filter_driver_for_lin.RkcdpRebuild.{overlay_seed}
use io_filter_driver_for_lin.Tests.{
  punching, punching-PunchesZeros, sevens, blank, record_of, two_bytes, idle_daemon,
}
use io_filter_driver_for_lin.Tests.Streams.{cut_read, next_read, turn_of, idle-IsLive}
use io_filter_driver_for_lin.Tests.Seeds.{one_chunk, is_saved_one}
use io_filter_driver_for_lin.Tests.Manager.{saved-IsSeedOf}

-- A chunk of four bytes is read and lands, a write of two of them is put off, and is applied.
abbrev put_off : Daemon
put_off =
    apply_one punching two_bytes
      (land_chunk false (pread 4 0 sevens) 0 (flag_chunk 0 4 idle_daemon))

put_off_deferred : put_off.deferred ≡ two_bytes ∷ []
unfolding apply_one land_chunk flag_chunk in_flight pread
put_off_deferred = refl

abbrev begun : System
begun = system idle_daemon resting sevens (two_bytes ∷ []) []

abbrev ended : System
ended =
    system (apply_one punching two_bytes (release_chunk put_off)) resting (effect two_bytes sevens)
      [] ((0, 4) ∷ [])

one_copy : Reach punching IsCalm begun ended
one_copy =
    let landed =
      after
        (after (after here (flag 0 4 refl))
          (read 0 4 4 [] (two_bytes ∷ []) refl (omega arith) refl))
        (land false 0 4 4 sevens refl) in
    let released =
      after (after landed (handle two_bytes [] refl (omega arith, λ h. (omega arith, omega arith))))
        (release 0 4 refl) in
    after (after released (catch_up two_bytes [] (ap catching_up put_off_deferred))) (finish refl)

Reach-Settles_example :
    effects [] ended.daemon.replica.fd 3 ≡ effects [] (effect two_bytes sevens) 3
Reach-Settles_example =
    Reach-Settles punching begun ended 3 punching-PunchesZeros refl refl refl one_copy refl
      (inr refl)

-- A newer write to the first byte.
abbrev one_byte : Item
one_byte = (record_of 1 2 0 1, 5 ∷ [])

meets : in_flight (some (0, 4)) two_bytes.0 ≡ true
unfolding in_flight
meets = refl

two_bytes-Overwrites : Overwrites (effect two_bytes) 0
unfolding effect pwrite
two_bytes-Overwrites a b = refl

copy_chunk_races_example :
    (t : System) × Reach punching Anything
      (system idle_daemon resting sevens (two_bytes ∷ one_byte ∷ []) [])
      t
    × (t.copier ≡ resting)
    × (t.to_come ≡ [])
    × (t.disk 0 ≡ effect one_byte (effect two_bytes sevens) 0)
    × (t.daemon.replica.fd 0 ≡ effect two_bytes sevens 0)
copy_chunk_races_example =
    copy_chunk_races punching punching-PunchesZeros 0 4 0 two_bytes one_byte idle_daemon sevens
      meets two_bytes-Overwrites

-- The chunk is saved already when a copy begins.
abbrev saved_daemon : Daemon
saved_daemon = record idle_daemon {
  replica = record { fd = blank; seed = some (one_chunk sevens 1); punch_ok = true };
}

saved_daemon-IsSeeded : IsSeeded sevens saved_daemon.replica
saved_daemon-IsSeeded l e =
    let same : one_chunk sevens 1 ≡ l = ground arith in rw (← same) (saved-IsSeedOf blank)

abbrev seeded_begun : System
seeded_begun = system saved_daemon resting sevens (two_bytes ∷ []) []

abbrev seeded_written : System
seeded_written =
    system (apply_one punching two_bytes saved_daemon) resting (effect two_bytes sevens) [] []

one_write : Reach punching Anything seeded_begun seeded_written
one_write = after here (handle two_bytes [] refl tt)

layer_kept : (apply_one punching two_bytes saved_daemon).replica.seed ≡ some (one_chunk sevens 1)
unfolding apply_one in_flight replica_write replica_pwrite save_seed preserve preserve_loop
    preserve_chunk is_saved bit_set
layer_kept = refl

Reach-overlay_seed_example :
    overlay_seed sevens ((0, 65536) ∷ []) seeded_written.daemon.replica.fd 1 ≡ sevens 1
Reach-overlay_seed_example =
    Reach-overlay_seed punching sevens seeded_begun seeded_written (one_chunk sevens 1)
      ((0, 65536) ∷ []) 1 punching-PunchesZeros saved_daemon-IsSeeded one_write layer_kept
      (λ i h c. is_saved_one sevens i h) (omega arith) refl

scan_whole :
    (iter_records (stream_of (turn_of cut_read ∷ []) ++ stream_of (turn_of next_read ∷ []))).1
    ≡ done 128
unfolding iter_records iter_loop rec_init
scan_whole = refl

whole-Fits :
    All Fits
      (iter_records (stream_of (turn_of cut_read ∷ []) ++ stream_of (turn_of next_read ∷ []))).0
unfolding iter_records iter_loop rec_init
whole-Fits = (omega arith, (omega arith, tt))

whole_gapless :
    HasNoGap
      (iter_records (stream_of (turn_of cut_read ∷ []) ++ stream_of (turn_of next_read ∷ []))).0
unfolding iter_records iter_loop rec_init
whole_gapless = (refl, (refl, tt))

idle-IsAlone : IsAlone idle_daemon
idle-IsAlone = record { none_queued = refl; none_running = refl; no_base = refl }

main_loop_rebuilt_example :
    let before = turn_of cut_read ∷ [] in
    let during = turn_of next_read ∷ [] in
    let (tail, d1) = main_loop punching before (value [], idle_daemon) in
    let (rest, d2) = main_loop punching during (tail, record d1 { rebuild_lock = true }) in
    let (left, d3) =
      main_loop punching (turn_of [] ∷ []) (rest, record d2 { rebuild_lock = false }) in
    let stream = stream_of before ++ stream_of during in
    (d2.replica.fd 0 ≡ effects (iter_records (stream_of before)).0 blank 0)
    × IsAlone d2
    × (left ≡ value (drop 128 stream))
    × IsLive d3
    × IsAlone d3
    × (d3.replica.fd 0 ≡ effects (iter_records stream).0 blank 0)
main_loop_rebuilt_example =
    main_loop_rebuilt punching punching-PunchesZeros (turn_of cut_read ∷ [])
      (turn_of next_read ∷ []) (turn_of []) 128 idle_daemon 0 idle-IsLive idle-IsAlone refl
      scan_whole whole-Fits whole_gapless
