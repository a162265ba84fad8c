-- ===== src/Rkcdpd/Consistent/Point.antt =====
-- On the consistent point (Daemon.mark_consistent of rkcdp/rkcdpd.py).
use io_filter_driver_for_lin.Base.{
  ℕ, ◌<◌, ◌≡◌, inl, inr, refl, fun_ext, sym, ap, ◌∙◌, false, ◌||◌, Option, none, some, List, [],
  ◌∷◌, ◌++◌, arith, All, length, drop-length, Bool-cases,
}
use io_filter_driver_for_lin.Image.{Image}
use io_filter_driver_for_lin.Dmcdp.{Item, done, iter_records}
use io_filter_driver_for_lin.Dmcdp.Stream.{Fits}
use io_filter_driver_for_lin.Rkcdpd.Replica.Effect.{PunchesZeros}
use io_filter_driver_for_lin.Rkcdpd.Daemon.{
  Daemon, recovery_active, in_flight, apply_one, apply_all, Returned, value, value_error, never,
  consume,
}
use io_filter_driver_for_lin.Rkcdpd.Daemon.Park.{note_gaps, apply_all-append}
use io_filter_driver_for_lin.Rkcdpd.Daemon.Reads.{consume-live}
use io_filter_driver_for_lin.Rkcdpd.Daemon.Copy.Loop.{
  effects, effects-append, copying-apply_one, fd-apply_all,
}
use io_filter_driver_for_lin.Rkcdpd.Status.{present, nonempty}
use io_filter_driver_for_lin.Rkcdpd.Status.Alone.{HasNoGap, note_gaps-none}
use io_filter_driver_for_lin.Rkcdpd.Status.MainLoop.{IsLive, IsLive-apply_all}
use io_filter_driver_for_lin.Rkcdpd.Consistent.{
  Freeze, refused, timed_out, froze, marked, Ended, busy, drain, mark, freeze_and_mark,
  mark_consistent,
}

-- The settled moment of which mark_consistent speaks.
pub record IsPoint (d : Daemon) (e : Ended) : Type 0 where
  pub before_unlocked : d.rebuild_lock ≡ false
  pub before_recovered : d.recovery_alive ≡ false
  pub before_copied : present d.base_progress ≡ false
  pub no_gap : nonempty e.daemon.recovery_queue ≡ false
  pub no_recovery : e.daemon.recovery_alive ≡ false
  pub reached : e.daemon.consistent ≡ some e.daemon.last_seq
  pub thaw_called : e.owes_thaw ≡ false

module _ (fallocate : ℕ → ℕ → Image → Option Image) where
  mark-marked :
      (r : Returned (List ℕ) × Daemon)
      → (mark fallocate r).attempt ≡ marked
      → let e = mark fallocate r in
        (nonempty e.daemon.recovery_queue ≡ false)
        × (e.daemon.recovery_alive ≡ false)
        × (e.daemon.consistent ≡ some e.daemon.last_seq)
        × (e.owes_thaw ≡ false)
  unfolding mark
  mark-marked (value tail, d) h = ground arith
  mark-marked (value_error, d) h = cc
  mark-marked (never, d) h = cc

  -- A point is marked only at a settled moment: no rebuild, recovery or base copy was under way
  -- when it began, no gap is queued and no recovery runs when it ends, the sequence number recorded
  -- is the last one applied, and `fsfreeze -u` was called.
  pub mark_consistent_settled :
      (freeze : Freeze) (d : Daemon)
      → (mark_consistent fallocate freeze d).attempt ≡ marked
      → IsPoint d (mark_consistent fallocate freeze d)
  unfolding mark_consistent freeze_and_mark
  mark_consistent_settled refused d h = absurd (ground arith)
  mark_consistent_settled (timed_out frozen) d h = absurd (ground arith)
  mark_consistent_settled (froze reads) d h = elim (Bool-cases (busy d)) [
    | inl b ↦ absurd (ground arith)
    | inr quiet ↦
        let inner = mark-marked (drain fallocate reads (value [], d)) (rw quiet at h) in
        rw quiet (record {
          before_unlocked = ground arith;
          before_recovered = ground arith;
          before_copied = ground arith;
          no_gap = inner.0;
          no_recovery = inner.1;
          reached = inner.2;
          thaw_called = inner.3;
        })
  ]

-- A read of the driver gives whole records, none of which tells of a gap.
abbrev pub IsWholeRead : List ℕ → Type 0
IsWholeRead read =
    (0 < length read)
    × ((iter_records read).1 ≡ done (length read))
    × All Fits (iter_records read).0
    × HasNoGap (iter_records read).0

abbrev pub items_of : List (List ℕ) → List Item
items_of [] = []
items_of (read ∷ reads) = (iter_records read).0 ++ items_of reads

-- The sequence number of the last of the records, or the one before them.
abbrev pub last_of : List Item → Option ℕ → Option ℕ
last_of [] seq = seq
last_of (x ∷ xs) seq = last_of xs (some x.0.seq)

last_of-append :
    (xs ys : List Item) (seq : Option ℕ) → last_of (xs ++ ys) seq ≡ last_of ys (last_of xs seq)
last_of-append [] ys seq = refl
last_of-append (x ∷ xs) ys seq = last_of-append xs ys (some x.0.seq)

module _ (fallocate : ℕ → ℕ → Image → Option Image) (zeros : PunchesZeros fallocate) where
  last_seq-apply_all :
      (xs : List Item) (d : Daemon)
      → d.copying ≡ none
      → (apply_all fallocate xs d).last_seq ≡ last_of xs d.last_seq
  unfolding apply_all
  last_seq-apply_all [] d c = refl
  last_seq-apply_all (x ∷ xs) d c =
      let first : (apply_one fallocate x d).last_seq ≡ some x.0.seq =
        unfold apply_one in_flight in ground arith in
      last_seq-apply_all xs (apply_one fallocate x d) (copying-apply_one fallocate zeros x d ∙ c)
      ∙ ap (last_of xs) first

  queue-apply_all :
      (xs : List Item) (d : Daemon)
      → ((apply_all fallocate xs d).recovery_queue ≡ d.recovery_queue)
        × ((apply_all fallocate xs d).recovery_alive ≡ d.recovery_alive)
  unfolding apply_all
  queue-apply_all [] d = (refl, refl)
  queue-apply_all (x ∷ xs) d =
      let d' = apply_one fallocate x d in
      let first : (d'.recovery_queue ≡ d.recovery_queue) × (d'.recovery_alive ≡ d.recovery_alive) =
        unfold apply_one in ground arith in
      let rest = queue-apply_all xs d' in (rest.0 ∙ first.0, rest.1 ∙ first.1)

  consume-whole :
      (read : List ℕ) (d : Daemon)
      → IsWholeRead read
      → IsLive d
      → consume fallocate read d ≡ (value [], apply_all fallocate (iter_records read).0 d)
  consume-whole read d (some_bytes, ends, fits, no_gap) live =
      let xs = (iter_records read).0 in
      consume-live fallocate read (length read) d ends live.unlocked
      ∙ ap (λ t. (value t, apply_all fallocate xs (note_gaps xs d))) (drop-length read)
      ∙ ap (λ s. (value [], apply_all fallocate xs s)) (note_gaps-none xs d no_gap)

  drain-whole :
      (reads : List (List ℕ)) (d : Daemon)
      → All IsWholeRead reads
      → IsLive d
      → drain fallocate reads (value [], d) ≡ (value [], apply_all fallocate (items_of reads) d)
  unfolding drain
  drain-whole [] d w live = unfold apply_all in refl
  drain-whole ([] ∷ reads) d w live = absurd (omega (arith, w.0.0))
  drain-whole ((b ∷ bytes) ∷ reads) d (w, later) live =
      let xs = (iter_records (b ∷ bytes)).0 in
      ap (drain fallocate reads) (consume-whole (b ∷ bytes) d w live)
      ∙ drain-whole reads (apply_all fallocate xs d) later
          (IsLive-apply_all fallocate zeros xs d live)
      ∙ ap (λ s. (value [], s)) (sym (apply_all-append fallocate xs (items_of reads) d))

  -- A daemon at a settled moment, whose replica with all the records of the ring applied in order
  -- would be the disk, freezes the file system and reads `reads` out of the ring, in whole records
  -- and with no gap among them; `rest` is what is still in the ring when the deadline ends the loop,
  -- and empty where an empty read ends it. The point is marked either way, and manifest.json has the
  -- sequence number of the last record read; the replica is then the disk but for the effects of
  -- `rest`, so it is the disk wherever the ring was read to its end.
  pub mark_consistent_point :
      (reads : List (List ℕ)) (rest : List Item) (d : Daemon) (disk : Image)
      → ((i : ℕ) → disk i ≡ effects (items_of reads ++ rest) d.replica.fd i)
      → IsLive d
      → busy d ≡ false
      → d.recovery_queue ≡ []
      → All IsWholeRead reads
      → let e = mark_consistent fallocate (froze reads) d in
        (e.attempt ≡ marked)
        × (e.daemon.consistent ≡ some (last_of (items_of reads) d.last_seq))
        × ((i : ℕ) → effects rest e.daemon.replica.fd i ≡ disk i)
        × (rest ≡ [] → (i : ℕ) → e.daemon.replica.fd i ≡ disk i)
  unfolding mark_consistent freeze_and_mark mark
  mark_consistent_point reads rest d disk on_disk live quiet q w =
      let xs = items_of reads in
      let queue = queue-apply_all xs d in
      let drained = apply_all fallocate xs d in
      let settled : (nonempty drained.recovery_queue || recovery_active drained) ≡ false =
        ground (arith, queue.0, queue.1) in
      let same : (i : ℕ) → drained.replica.fd i ≡ effects xs d.replica.fd i =
        λ i. fd-apply_all fallocate zeros xs d i live.no_chunk in
      let whole : (i : ℕ) → effects rest drained.replica.fd i ≡ disk i = λ i.
        ap (λ (image : Image). effects rest image i) (fun_ext same)
        ∙ ap (λ (image : Image). image i) (sym (effects-append xs rest d.replica.fd))
        ∙ sym (on_disk i) in
      rw (quiet, drain-whole reads d w live, settled)
        (
          refl,
          ap some (last_seq-apply_all xs d live.no_chunk),
          whole,
          λ none_left i.
              ap (λ (left : List Item). effects left drained.replica.fd i) (sym none_left)
              ∙ whole i,
        )
