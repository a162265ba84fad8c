-- ===== src/Rkcdpd/Status/Parked.antt =====
-- On the main loop while a rebuild holds the lock (Daemon.main, consume and apply_pending of
-- rkcdp/rkcdpd.py).
use io_filter_driver_for_lin.Base.{
  ℕ, ◌-◌, ◌≡◌, refl, sym, ap, ◌∙◌, true, false, Option, none, some, List, [], ◌∷◌, ◌++◌, arith, All,
  take, drop, append_assoc, append-nil,
}
use io_filter_driver_for_lin.Image.{Image}
use io_filter_driver_for_lin.Dmcdp.{Item, Outcome, done, iter_records}
use io_filter_driver_for_lin.Dmcdp.Stream.{Fits}
use io_filter_driver_for_lin.Dmcdp.Records.{iter_records-rest}
use io_filter_driver_for_lin.Dmcdp.Cut.{iter_records-Cut}
use io_filter_driver_for_lin.Rkcdpd.Daemon.{Daemon, Returned, value, consumed, append_pending}
use io_filter_driver_for_lin.Rkcdpd.Daemon.Park.{note_gaps, consumed_all}
use io_filter_driver_for_lin.Rkcdpd.Daemon.Reads.{bytes_of, consume-parks}
use io_filter_driver_for_lin.Rkcdpd.Status.{
  Turn, seed_turn, next_recovery, after_consume, consume_read, cycle, main_loop,
}
use io_filter_driver_for_lin.Rkcdpd.Status.Alone.{
  IsAlone, HasNoGap, HasNoGap-append, note_gaps-none, next_recovery-IsAlone, append_pending-IsAlone,
}
use io_filter_driver_for_lin.Rkcdpd.Status.Cycle.{
  SameFiles, next_recovery-SameFiles, note_gaps-SameFiles,
}
use io_filter_driver_for_lin.Rkcdpd.Status.MainLoop.{stream_of}

-- A rebuild holds the lock of a seeded daemon.
pub record IsLocked (d : Daemon) : Type 0 where
  pub seeded : d.seed_required ≡ false
  pub locked : d.rebuild_lock ≡ true

-- The daemon `d'` comes from `d` by parking `parked`.
pub record Parks (parked : List ℕ) (d d' : Daemon) : Type 0 where
  pub still_locked : IsLocked d'
  pub same_replica : d'.replica ≡ d.replica
  pub same_copying : d'.copying ≡ d.copying
  pub in_file : bytes_of d'.pending_bin ≡ bytes_of d.pending_bin ++ parked

SameFiles-Parks : (d d' : Daemon) → IsLocked d → SameFiles d d' → Parks [] d d'
SameFiles-Parks d d' lock same = record {
  still_locked = record {
    seeded = same.same_seed ∙ lock.seeded;
    locked = same.same_lock ∙ lock.locked;
  };
  same_replica = same.same_replica;
  same_copying = same.same_copying;
  in_file = ap bytes_of same.same_pending ∙ sym (append-nil (bytes_of d.pending_bin));
}

append_pending-Parks :
    (parked : List ℕ) (d : Daemon) → IsLocked d → Parks parked d (append_pending parked d)
unfolding append_pending
append_pending-Parks [] d lock = record {
  still_locked = lock;
  same_replica = refl;
  same_copying = refl;
  in_file = sym (append-nil (bytes_of d.pending_bin));
}
append_pending-Parks (b ∷ parked) d lock = record {
  still_locked = record { seeded = lock.seeded; locked = lock.locked };
  same_replica = refl;
  same_copying = refl;
  in_file = written d.pending_bin;
}
  where
    written :
        (p : Option (List ℕ))
        → bytes_of (elim p [ none ↦ some (b ∷ parked) | some old ↦ some (old ++ b ∷ parked) ])
          ≡ bytes_of p ++ b ∷ parked
    written none = refl
    written (some old) = refl

Parks-trans :
    (xs ys : List ℕ) (d d' d'' : Daemon) → Parks xs d d' → Parks ys d' d'' → Parks (xs ++ ys) d d''
Parks-trans xs ys d d' d'' p q = record {
  still_locked = q.still_locked;
  same_replica = q.same_replica ∙ p.same_replica;
  same_copying = q.same_copying ∙ p.same_copying;
  in_file = q.in_file ∙ ap (λ t. t ++ ys) p.in_file ∙ append_assoc (bytes_of d.pending_bin) xs ys;
}

module _ (fallocate : ℕ → ℕ → Image → Option Image) where
  after_consume-locked :
      (t : Turn) (tail : List ℕ) (d : Daemon)
      → IsLocked d
      → after_consume fallocate t (value tail, d)
        ≡ (value tail, next_recovery d.recovery_queue t.extents d)
  unfolding after_consume
  after_consume-locked t tail d lock =
      let same : (seed_turn t d).0 ≡ d = unfold seed_turn in rw lock.seeded in
      let files = next_recovery-SameFiles d.recovery_queue t.extents d in
      ground (arith, same, files.same_lock, lock.locked)

  -- A turn, with what it leaves of the stream.
  pub record Turned (pending : List ℕ) (t : Turn) (more : List ℕ) (e : ℕ) (d : Daemon)
      : Type 0 where
    pub after : Daemon
    pub tail : List ℕ
    pub parked : List ℕ
    pub rest : ℕ
    pub turned : cycle fallocate pending t d ≡ (value tail, after)
    pub parks : Parks parked d after
    pub to_come : (iter_records (tail ++ more)).1 ≡ done rest
    pub to_come_fits : All Fits (iter_records (tail ++ more)).0
    pub left_over : drop rest (tail ++ more) ≡ drop e (pending ++ (t.read ++ more))
    pub all_parked : take e (pending ++ (t.read ++ more)) ≡ parked ++ take rest (tail ++ more)
    pub no_record : (iter_records tail).0 ≡ []
    pub still_alone :
        HasNoGap (iter_records (pending ++ (t.read ++ more))).0
        → IsAlone d
        → HasNoGap (iter_records (tail ++ more)).0 × IsAlone after

  pub turn_step :
      (pending bytes more : List ℕ) (t : Turn) (e : ℕ) (d : Daemon)
      → t.read ≡ bytes
      → IsLocked d
      → (iter_records (pending ++ (t.read ++ more))).1 ≡ done e
      → All Fits (iter_records (pending ++ (t.read ++ more))).0
      → (iter_records pending).0 ≡ []
      → Turned pending t more e d
  unfolding cycle consume_read
  turn_step pending [] more t e d r lock h f q =
      let after = next_recovery d.recovery_queue t.extents d in
      record {
        after = after;
        tail = pending;
        parked = [];
        rest = e;
        turned =
            ap (λ bs. after_consume fallocate t (consume_read fallocate pending bs d)) r
            ∙ after_consume-locked t pending d lock;
        parks = SameFiles-Parks d after lock (next_recovery-SameFiles d.recovery_queue t.extents d);
        to_come = rw r at h;
        to_come_fits = rw r at f;
        left_over = rw r;
        all_parked = rw r;
        no_record = q;
        still_alone = λ gapless alone. (rw r at gapless, next_recovery-IsAlone t.extents d alone);
      }
  turn_step pending (b ∷ bytes) more t e d r lock h f q =
      let buf = pending ++ b ∷ bytes in
      let assoc : pending ++ (t.read ++ more) ≡ buf ++ more =
        ap (λ bs. pending ++ (bs ++ more)) r ∙ sym (append_assoc pending (b ∷ bytes) more) in
      let c = iter_records-Cut buf more e (rw assoc at h) (rw assoc at f) in
      let parked = take c.ends buf in
      let noted = note_gaps (iter_records buf).0 d in
      let now = append_pending parked noted in
      let after = next_recovery now.recovery_queue t.extents now in
      let noting = SameFiles-Parks d noted lock (note_gaps-SameFiles (iter_records buf).0 d) in
      let parking = append_pending-Parks parked noted noting.still_locked in
      let begun =
        SameFiles-Parks now after parking.still_locked
          (next_recovery-SameFiles now.recovery_queue t.extents now) in
      record {
        after = after;
        tail = drop c.ends buf;
        parked = parked;
        rest = e - c.ends;
        turned =
            ap (λ bs. after_consume fallocate t (consume_read fallocate pending bs d)) r
            ∙ ap (after_consume fallocate t)
                (consume-parks fallocate buf c.ends d c.first lock.locked)
            ∙ after_consume-locked t (drop c.ends buf) now parking.still_locked;
        parks = rw (append-nil parked) at (
            Parks-trans parked [] d now after (Parks-trans [] parked d noted now noting parking)
              begun);
        to_come = c.second;
        to_come_fits = c.second_fits;
        left_over = c.left_over ∙ ap (drop e) (sym assoc);
        all_parked = ap (take e) assoc ∙ c.whole_records;
        no_record = ap (λ (s : List Item × Outcome). s.0) (iter_records-rest buf c.ends c.first);
        still_alone = λ gapless alone.
            let xs = (iter_records buf).0 in
            let joined : (iter_records (pending ++ (t.read ++ more))).0
                ≡ xs ++ (iter_records (drop c.ends buf ++ more)).0 =
              ap (λ s. (iter_records s).0) assoc ∙ c.joined in
            let (here, later) = HasNoGap-append xs _ (rw joined at gapless) in
            (
              later,
              next_recovery-IsAlone t.extents now
                  (append_pending-IsAlone parked noted (rw (note_gaps-none xs d here) alone)),
            );
      }

  pub main_loop-Parks :
      (turns : List Turn) (pending : List ℕ) (e : ℕ) (d : Daemon)
      → IsLocked d
      → (iter_records (pending ++ stream_of turns)).1 ≡ done e
      → All Fits (iter_records (pending ++ stream_of turns)).0
      → (iter_records pending).0 ≡ []
      → let r = main_loop fallocate turns (value pending, d) in
        let whole = pending ++ stream_of turns in
        (r.0 ≡ value (drop e whole)) × Parks (take e whole) d r.1
  unfolding main_loop consumed append_pending
  main_loop-Parks [] pending e d lock h f q =
      let whole = append-nil pending in
      let nothing : 0 ≡ e =
        ap (λ xs. consumed xs 0) (sym q) ∙ consumed_all pending e (rw whole at h) in
      (
        sym (ap value (ap (drop e) whole ∙ ap (λ n. drop n pending) (sym nothing))),
        rw (← nothing) (append_pending-Parks [] d lock),
      )
  main_loop-Parks (t ∷ turns) pending e d lock h f q =
      let s = turn_step pending t.read (stream_of turns) t e d refl lock h f q in
      let (tail, parks) =
        main_loop-Parks turns s.tail s.rest s.after s.parks.still_locked s.to_come s.to_come_fits
          s.no_record in
      let from = ap (main_loop fallocate turns) s.turned in
      (
        ap (λ (r : Returned (List ℕ) × Daemon). r.0) from ∙ tail ∙ ap value s.left_over,
        rw (from, s.all_parked)
            (Parks-trans s.parked (take s.rest (s.tail ++ stream_of turns)) d s.after _ s.parks
              parks),
      )
