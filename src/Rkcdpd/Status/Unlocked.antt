-- ===== src/Rkcdpd/Status/Unlocked.antt =====
-- On the main loop over a lock that comes and goes, where nothing runs beside it (Daemon.main and
-- apply_pending of rkcdp/rkcdpd.py).
use io_filter_driver_for_lin.Base.{
  ℕ, ◌≡◌, refl, sym, ap, ◌∙◌, false, Option, Option-cases, inl, inr, none, List, [], ◌∷◌, ◌++◌,
  take, arith, All, drop,
}
use io_filter_driver_for_lin.Image.{Image}
use io_filter_driver_for_lin.Dmcdp.{Item, Outcome, done, iter_records}
use io_filter_driver_for_lin.Dmcdp.Stream.{Fits}
use io_filter_driver_for_lin.Dmcdp.Records.{iter_records-take}
use io_filter_driver_for_lin.Rkcdpd.Replica.{Replica}
use io_filter_driver_for_lin.Rkcdpd.Replica.Effect.{PunchesZeros}
use io_filter_driver_for_lin.Rkcdpd.Daemon.{
  Daemon, Returned, value, apply_pending, apply_pending_file, apply_all,
}
use io_filter_driver_for_lin.Rkcdpd.Daemon.Reads.{with_files, bytes_of}
use io_filter_driver_for_lin.Rkcdpd.Daemon.Order.{apply_pending-with_files}
use io_filter_driver_for_lin.Rkcdpd.Daemon.Copy.Loop.{effects, fd-apply_all, copying-apply_all}
use io_filter_driver_for_lin.Rkcdpd.Status.Cycle.{apply_all-files, after_consume_lem}
use io_filter_driver_for_lin.Rkcdpd.Status.{
  Turn, seed_turn, then_applied, after_consume, consume_read, cycle, main_loop,
}
use io_filter_driver_for_lin.Rkcdpd.Status.Alone.{
  IsAlone, HasNoGap, next_recovery-none, apply_all-IsAlone,
}
use io_filter_driver_for_lin.Rkcdpd.Status.MainLoop.{IsLive, stream_of, turn_step as live_turn}
use io_filter_driver_for_lin.Rkcdpd.Status.Parked.{
  IsLocked, main_loop-Parks, turn_step as locked_turn,
}

module _ (fallocate : ℕ → ℕ → Image → Option Image) where
  pub main_loop-IsAlone :
      (zeros : PunchesZeros fallocate) (turns : List Turn) (pending : List ℕ) (e : ℕ) (d : Daemon)
      → IsLive d
      → (iter_records (pending ++ stream_of turns)).1 ≡ done e
      → All Fits (iter_records (pending ++ stream_of turns)).0
      → (iter_records pending).0 ≡ []
      → HasNoGap (iter_records (pending ++ stream_of turns)).0
      → IsAlone d
      → IsAlone (main_loop fallocate turns (value pending, d)).1
  unfolding main_loop
  main_loop-IsAlone zeros [] pending e d live h f q gapless alone = alone
  main_loop-IsAlone zeros (t ∷ turns) pending e d live h f q gapless alone =
      let s = live_turn fallocate zeros pending t.read (stream_of turns) t e d refl live h f q in
      let (later, after) = s.still_alone gapless alone in
      let from = ap (main_loop fallocate turns) s.turned in
      rw from (
        main_loop-IsAlone zeros turns s.tail s.rest s.after s.live s.to_come s.to_come_fits
          s.no_record later after)

  locked-IsAlone :
      (turns : List Turn) (pending : List ℕ) (e : ℕ) (d : Daemon)
      → IsLocked d
      → (iter_records (pending ++ stream_of turns)).1 ≡ done e
      → All Fits (iter_records (pending ++ stream_of turns)).0
      → (iter_records pending).0 ≡ []
      → HasNoGap (iter_records (pending ++ stream_of turns)).0
      → IsAlone d
      → IsAlone (main_loop fallocate turns (value pending, d)).1
  unfolding main_loop
  locked-IsAlone [] pending e d lock h f q gapless alone = alone
  locked-IsAlone (t ∷ turns) pending e d lock h f q gapless alone =
      let s = locked_turn fallocate pending t.read (stream_of turns) t e d refl lock h f q in
      let (later, after) = s.still_alone gapless alone in
      let from = ap (main_loop fallocate turns) s.turned in
      rw from (
        locked-IsAlone turns s.tail s.rest s.after s.parks.still_locked s.to_come s.to_come_fits
          s.no_record later after)

  after_consume-unparked :
      (t : Turn) (tail : List ℕ) (d : Daemon)
      → d.seed_required ≡ false
      → d.pending_bin ≡ none
      → IsAlone d
      → after_consume fallocate t (value tail, d) ≡ (value tail, d)
  unfolding after_consume
  after_consume-unparked t tail d s p alone =
      let same : (seed_turn t d).0 ≡ d = unfold seed_turn in rw s in
      let quiet = next_recovery-none t.extents d alone in ground (arith, same, quiet, p)

  -- The turn that finds the lock gone and reads nothing applies what is parked.
  unlocked_turn :
      (t : Turn) (tail : List ℕ) (d : Daemon)
      → t.read ≡ []
      → d.seed_required ≡ false
      → d.rebuild_lock ≡ false
      → IsAlone d
      → main_loop fallocate (t ∷ []) (value tail, d) ≡ then_applied tail (apply_pending fallocate d)
  unfolding main_loop cycle consume_read
  unlocked_turn t tail d r s l alone =
      let quiet = next_recovery-none t.extents d alone in
      ap (λ bs. after_consume fallocate t (consume_read fallocate tail bs d)) r
      ∙ elim (Option-cases d.pending_bin) [
        | inl nothing ↦
            let idle : apply_pending fallocate d ≡ (value tt, d) =
              unfold apply_pending apply_pending_file in rw nothing refl in
            after_consume-unparked t tail d s nothing alone
            ∙ sym (ap (then_applied tail) idle ∙ unfold then_applied in refl)
        | inr (file, there) ↦
            after_consume_lem fallocate t tail file d s
              (ap (λ (q : Daemon). q.rebuild_lock) quiet ∙ l)
              (ap (λ (q : Daemon). q.pending_bin) quiet ∙ there)
            ∙ ap (λ (q : Daemon). then_applied tail (apply_pending fallocate q)) quiet
      ]

  -- From the lock on: the turns that park, and the one that finds the lock gone.
  pub locked_run :
      (zeros : PunchesZeros fallocate) (during : List Turn) (last : Turn) (pending : List ℕ) (e : ℕ)
      (d : Daemon) (i : ℕ)
      → IsLocked d
      → d.pending_bin ≡ none
      → d.copying ≡ none
      → last.read ≡ []
      → (iter_records (pending ++ stream_of during)).1 ≡ done e
      → All Fits (iter_records (pending ++ stream_of during)).0
      → (iter_records pending).0 ≡ []
      → HasNoGap (iter_records (pending ++ stream_of during)).0
      → IsAlone d
      → let (rest, d') = main_loop fallocate during (value pending, d) in
        let (left, after) =
          main_loop fallocate (last ∷ []) (rest, record d' { rebuild_lock = false }) in
        let stream = pending ++ stream_of during in
        (d'.replica ≡ d.replica)
        × IsAlone d'
        × (left ≡ value (drop e stream))
        × IsLive after
        × IsAlone after
        × (after.replica.fd i ≡ effects (iter_records stream).0 d.replica.fd i)
  unfolding then_applied
  locked_run zeros during last pending e d i lock p c r h f q gapless alone =
      let stream = pending ++ stream_of during in
      let (rest, parks) = main_loop-Parks fallocate during pending e d lock h f q in
      let alone' = locked-IsAlone during pending e d lock h f q gapless alone in
      let d' = (main_loop fallocate during (value pending, d)).1 in
      let file : bytes_of d'.pending_bin ≡ take e stream =
        parks.in_file ∙ ap (λ b. bytes_of b ++ take e stream) p in
      let scan : iter_records (bytes_of d'.pending_bin) ≡ iter_records stream =
        ap iter_records file ∙ iter_records-take stream e h f in
      let xs = (iter_records (bytes_of d'.pending_bin)).0 in
      let all = apply_all fallocate xs d' in
      let free = with_files d'.pending_bin false d' in
      let free_alone : IsAlone free = record {
        none_queued = alone'.none_queued;
        none_running = alone'.none_running;
        no_base = alone'.no_base;
      } in
      let all_alone = apply_all-IsAlone fallocate xs d' alone' in
      let idle : d'.copying ≡ none = parks.same_copying ∙ c in
      let ended : main_loop fallocate (last ∷ [])
            ((main_loop fallocate during (value pending, d)).0, free)
          ≡ (value (drop e stream), with_files none false all) =
        ap (λ (t : Returned (List ℕ)). main_loop fallocate (last ∷ []) (t, free)) rest
        ∙ unlocked_turn last (drop e stream) free r parks.still_locked.seeded refl free_alone
        ∙ ap (then_applied (drop e stream)) (
            apply_pending-with_files fallocate d'.pending_bin e d'
              (ap (λ (s : List Item × Outcome). s.1) scan ∙ h) (rw scan f)) in
      rw ended (
        parks.same_replica,
        alone',
        refl,
        record {
          seeded = (apply_all-files fallocate xs d').2 ∙ parks.still_locked.seeded;
          unlocked = refl;
          nothing_parked = refl;
          no_chunk = copying-apply_all fallocate zeros xs d' ∙ idle;
        },
        record {
          none_queued = all_alone.none_queued;
          none_running = all_alone.none_running;
          no_base = all_alone.no_base;
        },
        fd-apply_all fallocate zeros xs d' i idle
            ∙ ap (λ (s : List Item × Outcome). effects s.0 d'.replica.fd i) scan
            ∙ ap (λ (t : Replica). effects (iter_records stream).0 t.fd i) parks.same_replica,
      )
