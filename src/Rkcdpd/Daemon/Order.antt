-- ===== src/Rkcdpd/Daemon/Order.antt =====
-- On the order of parked and of live records (consume, apply_pending of rkcdp/rkcdpd.py).
use io_filter_driver_for_lin.Base.{
  ℕ, ◌+◌, ◌≡◌, refl, sym, ap, ◌∙◌, Bool, true, false, Option, none, some, List, [], ◌∷◌, ◌++◌,
  length, take, drop, All, All-append, append-nil, drop-length,
}
use io_filter_driver_for_lin.Image.{Image}
use io_filter_driver_for_lin.Dmcdp.{Item, Outcome, done, iter_records, iter_loop}
use io_filter_driver_for_lin.Dmcdp.Stream.{Fits}
use io_filter_driver_for_lin.Dmcdp.Records.{iter_records-append, iter_records-take}
use io_filter_driver_for_lin.Rkcdpd.Daemon.{
  Daemon, apply_all, Returned, value, append_pending, consume, apply_pending, apply_pending_file,
}
use io_filter_driver_for_lin.Rkcdpd.Daemon.Park.{
  note_gaps, apply_all-append, apply_pending_file_lem,
}
use io_filter_driver_for_lin.Rkcdpd.Daemon.Reads.{
  with_files, bytes_of, note_gaps-with_files, apply_all-with_files, note_gaps-apply_all,
  consume-live, consume-parks,
}

module _ (fallocate : ℕ → ℕ → Image → Option Image) where
  joined : Option (List ℕ) → List ℕ → Option (List ℕ)
  joined p [] = p
  joined none (b ∷ parked) = some (b ∷ parked)
  joined (some old) (b ∷ parked) = some (old ++ b ∷ parked)

  append_pending-with_files :
      (parked : List ℕ) (p : Option (List ℕ)) (b : Bool) (d : Daemon)
      → append_pending parked (with_files p b d) ≡ with_files (joined p parked) b d
  unfolding append_pending joined
  append_pending-with_files [] p b d = refl
  append_pending-with_files (x ∷ parked) none b d = refl
  append_pending-with_files (x ∷ parked) (some old) b d = refl

  bytes_of-joined :
      (p : Option (List ℕ)) (parked : List ℕ) → bytes_of (joined p parked) ≡ bytes_of p ++ parked
  unfolding joined
  bytes_of-joined p [] = sym (append-nil (bytes_of p))
  bytes_of-joined none (b ∷ parked) = refl
  bytes_of-joined (some old) (b ∷ parked) = refl

  -- With the lock gone, every parked record is applied, in order, and pending.bin is removed.
  pub apply_pending-with_files :
      (p : Option (List ℕ)) (e : ℕ) (d : Daemon)
      → (iter_records (bytes_of p)).1 ≡ done e
      → All Fits (iter_records (bytes_of p)).0
      → apply_pending fallocate (with_files p false d)
        ≡ (value tt, with_files none false (apply_all fallocate (iter_records (bytes_of p)).0 d))
  unfolding apply_pending
  apply_pending-with_files none e d h f =
      unfold apply_pending_file iter_records iter_loop apply_all in refl
  apply_pending-with_files (some file) e d h f =
      apply_pending_file_lem fallocate e file (with_files (some file) false d) h f
      ∙ ap (λ (s : Daemon). (value tt, with_files none s.rebuild_lock s))
          (apply_all-with_files fallocate (iter_records file).0 (some file) false d)

  pair_of :
      (buf : List ℕ) (e : ℕ)
      → (iter_records buf).1 ≡ done e
      → iter_records buf ≡ ((iter_records buf).0, done e)
  pair_of buf e h = ap (λ o. ((iter_records buf).0, o)) h

  scan_joined :
      (file more : List ℕ) (ys : List Item) (e : ℕ)
      → (iter_records file).1 ≡ done (length file)
      → All Fits (iter_records file).0
      → iter_records more ≡ (ys, done e)
      → All Fits ys
      → iter_records (file ++ more) ≡ ((iter_records file).0 ++ ys, done (length file + e))
  scan_joined file more ys e h f q g =
      let none_left : drop (length file) file ++ more ≡ more =
        ap (λ t. t ++ more) (drop-length file) in
      iter_records-append file more (length file) h f (rw (none_left, q) (λ s. cc))
        (rw (none_left, q) g)
      ∙ rw (none_left, q)

  -- Let pending.bin hold whole records (or not exist) while a rebuild holds the lock. To park one
  -- more read and apply pending.bin once the lock is gone leaves the daemon exactly as if
  -- pending.bin had been applied first and the read then had been consumed with no lock: the
  -- records are applied in the order in which they arrived, each once, and none is lost.
  pub apply_pending-consume :
      (p : Option (List ℕ)) (buf : List ℕ) (e : ℕ) (d : Daemon)
      → (iter_records (bytes_of p)).1 ≡ done (length (bytes_of p))
      → All Fits (iter_records (bytes_of p)).0
      → (iter_records buf).1 ≡ done e
      → All Fits (iter_records buf).0
      → let parked = (consume fallocate buf (with_files p true d)).1 in
        let applied = (apply_pending fallocate (with_files p false d)).1 in
        apply_pending fallocate (with_files parked.pending_bin false parked)
        ≡ (value tt, (consume fallocate buf applied).1)
  apply_pending-consume p buf e d hp fp hb fb =
      let file = bytes_of p in
      let xs = (iter_records file).0 in
      let ys = (iter_records buf).0 in
      let more = take e buf in
      let scan_more : iter_records more ≡ iter_records buf = iter_records-take buf e hb fb in
      let left : consume fallocate buf (with_files p true d)
          ≡ (value (drop e buf), with_files (joined p more) true (note_gaps ys d)) =
        consume-parks fallocate buf e (with_files p true d) hb refl
        ∙ ap (λ s. (value (drop e buf), append_pending more s)) (note_gaps-with_files ys p true d)
        ∙ ap (λ s. (value (drop e buf), s))
            (append_pending-with_files more p true (note_gaps ys d)) in
      let whole : bytes_of (joined p more) ≡ file ++ more = bytes_of-joined p more in
      let scan : iter_records (bytes_of (joined p more)) ≡ (xs ++ ys, done (length file + e)) =
        ap iter_records whole
        ∙ scan_joined file more ys e hp fp (scan_more ∙ pair_of buf e hb) fb in
      let replayed =
        apply_pending-with_files (joined p more) (length file + e) (note_gaps ys d)
          (ap (λ (t : List Item × Outcome). t.1) scan) (rw scan (All-append Fits xs ys fp fb)) in
      let earlier = apply_pending-with_files p (length file) d hp fp in
      let now = apply_all fallocate xs d in
      let consumed_now : (consume fallocate buf (with_files none false now)).1
          ≡ with_files none false (apply_all fallocate ys (note_gaps ys now)) =
        ap (λ (r : Returned (List ℕ) × Daemon). r.1)
          (consume-live fallocate buf e (with_files none false now) hb refl)
        ∙ ap (apply_all fallocate ys) (note_gaps-with_files ys none false now)
        ∙ apply_all-with_files fallocate ys none false (note_gaps ys now) in
      ap
        (λ (r : Returned (List ℕ) × Daemon).
          apply_pending fallocate (with_files r.1.pending_bin false r.1))
        left
      ∙ replayed
      ∙ ap
          (λ (t : List Item × Outcome).
            (value tt, with_files none false (apply_all fallocate t.0 (note_gaps ys d))))
          scan
      ∙ ap (λ s. (value tt, with_files none false s))
          (apply_all-append fallocate xs ys (note_gaps ys d)
            ∙ ap (apply_all fallocate ys) (sym (note_gaps-apply_all fallocate xs ys d)))
      ∙ ap (λ s. (value tt, s)) (sym consumed_now)
      ∙ ap (λ (r : Returned (Unit {0}) × Daemon). (value tt, (consume fallocate buf r.1).1))
          (sym earlier)
