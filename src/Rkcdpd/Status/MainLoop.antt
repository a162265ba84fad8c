-- ===== src/Rkcdpd/Status/MainLoop.antt =====
-- On the main loop over many turns (Daemon.main of rkcdp/rkcdpd.py).
use io_filter_driver_for_lin.Base.{
  ℕ, ◌-◌, ◌≡◌, refl, sym, ap, ◌∙◌, false, Option, none, List, [], ◌∷◌, ◌++◌, arith, All, drop,
  append_assoc, append-nil,
}
use io_filter_driver_for_lin.Image.{Image}
use io_filter_driver_for_lin.Dmcdp.{Item, Outcome, done, iter_records, iter_loop}
use io_filter_driver_for_lin.Dmcdp.Stream.{Fits}
use io_filter_driver_for_lin.Dmcdp.Cut.{iter_records-Cut}
use io_filter_driver_for_lin.Dmcdp.Records.{iter_records-rest}
use io_filter_driver_for_lin.Rkcdpd.Replica.{Replica}
use io_filter_driver_for_lin.Rkcdpd.Replica.Effect.{PunchesZeros}
use io_filter_driver_for_lin.Rkcdpd.Daemon.{Daemon, Returned, value, consumed, apply_all}
use io_filter_driver_for_lin.Rkcdpd.Daemon.Park.{note_gaps, consumed_all}
use io_filter_driver_for_lin.Rkcdpd.Daemon.Reads.{consume-live}
use io_filter_driver_for_lin.Rkcdpd.Daemon.Copy.Loop.{
  effects, effects_local, effects-append, fd-apply_all, copying-apply_all,
}
use io_filter_driver_for_lin.Rkcdpd.Status.{
  Turn, seed_turn, next_recovery, after_consume, consume_read, cycle, main_loop,
}
use io_filter_driver_for_lin.Rkcdpd.Status.Alone.{
  IsAlone, HasNoGap, HasNoGap-append, note_gaps-none, next_recovery-IsAlone, apply_all-IsAlone,
}
use io_filter_driver_for_lin.Rkcdpd.Status.Cycle.{
  SameFiles, next_recovery-SameFiles, note_gaps-SameFiles, apply_all-files,
}

-- The daemon applies what it reads: it is seeded, no rebuild holds the lock, nothing is parked and
-- no chunk is in flight.
pub record IsLive (d : Daemon) : Type 0 where
  pub seeded : d.seed_required ≡ false
  pub unlocked : d.rebuild_lock ≡ false
  pub nothing_parked : d.pending_bin ≡ none
  pub no_chunk : d.copying ≡ none

-- All that the turns read.
abbrev pub stream_of : List Turn → List ℕ
stream_of [] = []
stream_of (t ∷ turns) = t.read ++ stream_of turns

module _ (fallocate : ℕ → ℕ → Image → Option Image) (zeros : PunchesZeros fallocate) where
  -- The turn of a live daemon after `consume`: at most a recovery begins.
  after_consume-live :
      (t : Turn) (tail : List ℕ) (d : Daemon)
      → IsLive d
      → after_consume fallocate t (value tail, d)
        ≡ (value tail, next_recovery d.recovery_queue t.extents d)
  unfolding after_consume
  after_consume-live t tail d live =
      let same : (seed_turn t d).0 ≡ d = unfold seed_turn in rw live.seeded in
      let files = next_recovery-SameFiles d.recovery_queue t.extents d in
      ground (arith, same, files.same_pending, live.nothing_parked)

  IsLive-SameFiles : (d d' : Daemon) → SameFiles d d' → IsLive d → IsLive d'
  IsLive-SameFiles d d' same live = record {
    seeded = same.same_seed ∙ live.seeded;
    unlocked = same.same_lock ∙ live.unlocked;
    nothing_parked = same.same_pending ∙ live.nothing_parked;
    no_chunk = same.same_copying ∙ live.no_chunk;
  }

  pub IsLive-apply_all :
      (xs : List Item) (d : Daemon) → IsLive d → IsLive (apply_all fallocate xs d)
  IsLive-apply_all xs d live =
      let files = apply_all-files fallocate xs d in
      record {
        seeded = files.2 ∙ live.seeded;
        unlocked = files.1 ∙ live.unlocked;
        nothing_parked = files.0 ∙ live.nothing_parked;
        no_chunk = copying-apply_all fallocate zeros xs d ∙ live.no_chunk;
      }

  -- What a live daemon is after it has consumed a buffer.
  abbrev pub consumed_by : List Item → Daemon → Daemon
  consumed_by xs d = apply_all fallocate xs (note_gaps xs d)

  pub consumed_by-IsLive : (xs : List Item) (d : Daemon) → IsLive d → IsLive (consumed_by xs d)
  consumed_by-IsLive xs d live =
      IsLive-apply_all xs (note_gaps xs d)
        (IsLive-SameFiles d (note_gaps xs d) (note_gaps-SameFiles xs d) live)

  pub fd-consumed_by :
      (xs : List Item) (d : Daemon) (i : ℕ)
      → IsLive d
      → (consumed_by xs d).replica.fd i ≡ effects xs d.replica.fd i
  fd-consumed_by xs d i live =
      let same = note_gaps-SameFiles xs d in
      fd-apply_all fallocate zeros xs (note_gaps xs d) i (same.same_copying ∙ live.no_chunk)
      ∙ ap (λ (r : Replica). effects xs r.fd i) same.same_replica

  -- A turn, with what it leaves of the stream.
  pub record Turned (pending : List ℕ) (t : Turn) (more : List ℕ) (e : ℕ) (d : Daemon)
      : Type 0 where
    pub after : Daemon
    pub tail : List ℕ
    pub xs : List Item
    pub rest : ℕ
    pub turned : cycle fallocate pending t d ≡ (value tail, after)
    pub live : IsLive after
    pub applied : (i : ℕ) → after.replica.fd i ≡ effects xs d.replica.fd i
    pub to_come : (iter_records (tail ++ more)).1 ≡ done rest
    pub to_come_fits : All Fits (iter_records (tail ++ more)).0
    pub in_order :
        (iter_records (pending ++ (t.read ++ more))).0 ≡ xs ++ (iter_records (tail ++ more)).0
    pub left_over : drop rest (tail ++ more) ≡ drop e (pending ++ (t.read ++ more))
    pub no_record : (iter_records tail).0 ≡ []
    pub still_alone :
        HasNoGap (iter_records (pending ++ (t.read ++ more))).0
        → IsAlone d
        → HasNoGap (iter_records (tail ++ more)).0 × IsAlone after

  pub turn_step :
      (pending bytes more : List ℕ) (t : Turn) (e : ℕ) (d : Daemon)
      → t.read ≡ bytes
      → IsLive d
      → (iter_records (pending ++ (t.read ++ more))).1 ≡ done e
      → All Fits (iter_records (pending ++ (t.read ++ more))).0
      → (iter_records pending).0 ≡ []
      → Turned pending t more e d
  unfolding cycle consume_read
  turn_step pending [] more t e d r live h f q =
      let after = next_recovery d.recovery_queue t.extents d in
      let files = next_recovery-SameFiles d.recovery_queue t.extents d in
      record {
        after = after;
        tail = pending;
        xs = [];
        rest = e;
        turned =
            ap (λ bs. after_consume fallocate t (consume_read fallocate pending bs d)) r
            ∙ after_consume-live t pending d live;
        live = IsLive-SameFiles d after files live;
        applied = λ i. ap (λ (p : Replica). p.fd i) files.same_replica;
        to_come = rw r at h;
        to_come_fits = rw r at f;
        in_order = rw r;
        left_over = rw r;
        no_record = q;
        still_alone = λ gapless alone. (rw r at gapless, next_recovery-IsAlone t.extents d alone);
      }
  turn_step pending (b ∷ bytes) more t e d r live h f q =
      let buf = pending ++ b ∷ bytes in
      let assoc : pending ++ (t.read ++ more) ≡ buf ++ more =
        ap (λ bs. pending ++ (bs ++ more)) r ∙ sym (append_assoc pending (b ∷ bytes) more) in
      let c = iter_records-Cut buf more e (rw assoc at h) (rw assoc at f) in
      let xs = (iter_records buf).0 in
      let now = consumed_by xs d in
      let now_live = consumed_by-IsLive xs d live in
      let after = next_recovery now.recovery_queue t.extents now in
      let files = next_recovery-SameFiles now.recovery_queue t.extents now in
      record {
        after = after;
        tail = drop c.ends buf;
        xs = xs;
        rest = e - c.ends;
        turned =
            ap (λ bs. after_consume fallocate t (consume_read fallocate pending bs d)) r
            ∙ ap (after_consume fallocate t)
                (consume-live fallocate buf c.ends d c.first live.unlocked)
            ∙ after_consume-live t (drop c.ends buf) now now_live;
        live = IsLive-SameFiles now after files now_live;
        applied = λ i. ap (λ (p : Replica). p.fd i) files.same_replica ∙ fd-consumed_by xs d i live;
        to_come = c.second;
        to_come_fits = c.second_fits;
        in_order = ap (λ s. (iter_records s).0) assoc ∙ c.joined;
        left_over = c.left_over ∙ ap (drop e) (sym assoc);
        no_record = ap (λ (s : List Item × Outcome). s.0) (iter_records-rest buf c.ends c.first);
        still_alone = λ gapless alone.
            let joined : (iter_records (pending ++ (t.read ++ more))).0
                ≡ xs ++ (iter_records (drop c.ends buf ++ more)).0 =
              ap (λ s. (iter_records s).0) assoc ∙ c.joined in
            let (here, later) = HasNoGap-append xs _ (rw joined at gapless) in
            (
              later,
              next_recovery-IsAlone t.extents now (
                  apply_all-IsAlone fallocate xs (note_gaps xs d)
                    (rw (note_gaps-none xs d here) alone)),
            );
      }

  main_loop_lem :
      (turns : List Turn) (pending : List ℕ) (e : ℕ) (d : Daemon)
      → IsLive d
      → (iter_records (pending ++ stream_of turns)).1 ≡ done e
      → All Fits (iter_records (pending ++ stream_of turns)).0
      → (iter_records pending).0 ≡ []
      → let r = main_loop fallocate turns (value pending, d) in
        let whole = pending ++ stream_of turns in
        (r.0 ≡ value (drop e whole))
        × IsLive r.1
        × ((i : ℕ) → r.1.replica.fd i ≡ effects (iter_records whole).0 d.replica.fd i)
  unfolding main_loop consumed
  main_loop_lem [] pending e d live h f q =
      let whole = append-nil pending in
      let nothing : 0 ≡ e =
        ap (λ xs. consumed xs 0) (sym q) ∙ consumed_all pending e (rw whole at h) in
      (
        sym (ap value (ap (drop e) whole ∙ ap (λ n. drop n pending) (sym nothing))),
        live,
        λ i. sym (ap (λ xs. effects xs d.replica.fd i) (ap (λ s. (iter_records s).0) whole ∙ q)),
      )
  main_loop_lem (t ∷ turns) pending e d live h f q =
      let s = turn_step pending t.read (stream_of turns) t e d refl live h f q in
      let (tail, live', applied) =
        main_loop_lem turns s.tail s.rest s.after s.live s.to_come s.to_come_fits s.no_record in
      let from = ap (main_loop fallocate turns) s.turned in
      (
        ap (λ (r : Returned (List ℕ) × Daemon). r.0) from ∙ tail ∙ ap value s.left_over,
        rw from live',
        λ i.
            ap (λ (r : Returned (List ℕ) × Daemon). r.1.replica.fd i) from
            ∙ applied i
            ∙ effects_local (iter_records (s.tail ++ stream_of turns)).0 s.after.replica.fd
                (effects s.xs d.replica.fd) i (s.applied i)
            ∙ ap (λ (a : Image). a i)
                (sym
                  (effects-append s.xs (iter_records (s.tail ++ stream_of turns)).0 d.replica.fd))
            ∙ ap (λ xs. effects xs d.replica.fd i) (sym s.in_order),
      )

  -- However the driver's stream is cut into reads, the main loop of a live daemon never raises and
  -- ends live, and has applied the records of the stream to the replica, in order and each once;
  -- what it keeps for the next turn is what the scan of the whole stream leaves over. The stream is
  -- one that scans without an error, each record being no shorter than its payload.
  pub main_loop-iter_records :
      (turns : List Turn) (e : ℕ) (d : Daemon) (i : ℕ)
      → IsLive d
      → (iter_records (stream_of turns)).1 ≡ done e
      → All Fits (iter_records (stream_of turns)).0
      → let r = main_loop fallocate turns (value [], d) in
        (r.0 ≡ value (drop e (stream_of turns)))
        × IsLive r.1
        × (r.1.replica.fd i ≡ effects (iter_records (stream_of turns)).0 d.replica.fd i)
  main_loop-iter_records turns e d i live h f =
      let (tail, live', applied) =
        main_loop_lem turns [] e d live h f (unfold iter_records iter_loop in refl) in
      (tail, live', applied i)
