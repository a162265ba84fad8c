-- ===== src/Rkcdpd/Daemon/Park.antt =====
-- Parking loses nothing (consume and apply_pending of rkcdp/rkcdpd.py): records parked in
-- pending.bin while a rebuild holds the lock are applied in order once it is gone.
use io_filter_driver_for_lin.Base.{
  ℕ, zero, suc, ◌+◌, ◌-◌, ◌<◌, ◌≡◌, refl, sym, ap, ◌∙◌, Option, none, some, List, [], ◌∷◌, ◌++◌,
  arith, length, take, drop, All, append-nil, append_assoc, take-append-drop, length-drop,
}
use io_filter_driver_for_lin.Image.{Image}
use io_filter_driver_for_lin.Dmcdp.{Item, Outcome, done, iter_records, iter_loop}
use io_filter_driver_for_lin.Dmcdp.Scan.{
  short, foreign, cut, full, step_view, iter_loop-short, iter_loop-foreign, iter_loop-cut,
  iter_loop-full,
}
use io_filter_driver_for_lin.Dmcdp.Stream.{Fits}
use io_filter_driver_for_lin.Dmcdp.Loop.{end_of_done}
use io_filter_driver_for_lin.Dmcdp.Records.{iter_records-split, iter_records-rest}
use io_filter_driver_for_lin.Rkcdpd.Daemon.{
  Daemon, read_sz, apply_one, apply_all, note_gap, Returned, value, consumed, pending_loop,
  apply_pending_file, after_scan,
}

abbrev pub emptied : Daemon → Returned (Unit {0}) × Daemon
emptied d = (value tt, record d { pending_bin = none })

abbrev pub note_gaps : List Item → Daemon → Daemon
note_gaps [] d = d
note_gaps (x ∷ items) d = note_gaps items (note_gap x.0 d)

-- `off` after the loop over the records is the number of bytes that the scan consumed.
consumed_loop :
    (fuel off e : ℕ) (rest : List ℕ)
    → (iter_loop fuel off rest).1 ≡ done e
    → consumed (iter_loop fuel off rest).0 off ≡ e
unfolding consumed
consumed_loop zero off e rest d = absurd (unfold iter_loop in cc)
consumed_loop (suc fuel) off e rest d = elim (step_view rest) [
  | short h ↦ let q = iter_loop-short fuel off rest h in rw q (end_of_done off e (rw q at d))
  | foreign h m ↦ cc (iter_loop-foreign fuel off rest h m)
  | cut r h m k ↦
      let q = iter_loop-cut fuel off rest r h m k in rw q (end_of_done off e (rw q at d))
  | full r h m k ↦
      let q = iter_loop-full fuel off rest r h m k in
      rw q (consumed_loop fuel (off + r.rec_len) e (drop r.rec_len rest) (rw q at d))
]

pub consumed_all :
    (buf : List ℕ) (e : ℕ) → (iter_records buf).1 ≡ done e → consumed (iter_records buf).0 0 ≡ e
unfolding iter_records
consumed_all buf e d = consumed_loop (suc (length buf)) 0 e buf d

module _ (fallocate : ℕ → ℕ → Image → Option Image) where
  pub apply_all-append :
      (xs ys : List Item) (d : Daemon)
      → apply_all fallocate (xs ++ ys) d ≡ apply_all fallocate ys (apply_all fallocate xs d)
  unfolding apply_all
  apply_all-append [] ys d = refl
  apply_all-append (x ∷ xs) ys d = apply_all-append xs ys (apply_one fallocate x d)

  -- Reading pending.bin piece by piece applies the records of the whole file, and removes it.
  pending_loop_lem :
      (fuel e : ℕ) (tail file : List ℕ) (d : Daemon)
      → length file < fuel
      → (iter_records tail).0 ≡ []
      → (iter_records (tail ++ file)).1 ≡ done e
      → All Fits (iter_records (tail ++ file)).0
      → pending_loop fallocate fuel tail file d
        ≡ emptied (apply_all fallocate (iter_records (tail ++ file)).0 d)
  unfolding pending_loop apply_all
  pending_loop_lem zero e tail file d l t h f = elim l [ ]
  pending_loop_lem (suc fuel) e tail [] d l t h f = ap emptied (
      sym (
        ap (λ items. apply_all fallocate items d)
          (ap (λ t. (iter_records t).0) (append-nil tail) ∙ t)))
  pending_loop_lem (suc fuel) e tail (b ∷ file) d l t h f =
      let chunk = take read_sz (b ∷ file) in
      let behind = drop read_sz (b ∷ file) in
      let buf = tail ++ chunk in
      let whole : tail ++ b ∷ file ≡ buf ++ behind = sym (
        append_assoc tail chunk behind
        ∙ ap (λ t. tail ++ t) (take-append-drop read_sz (b ∷ file))) in
      let (e', ends, fits, ends', fits', join) =
        iter_records-split buf behind e (rw whole at h) (rw whole at f) in
      let d' = apply_all fallocate (iter_records buf).0 d in
      let ih =
        pending_loop_lem fuel (e - e') (drop e' buf) behind d'
          (omega (arith, length-drop read_sz (b ∷ file)))
          (ap (λ (t : List Item × Outcome). t.0) (iter_records-rest buf e' ends)) ends' fits' in
      let more =
        pending_loop fallocate fuel (drop (consumed (iter_records buf).0 0) buf) behind d' in
      let goes_on : pending_loop fallocate (suc fuel) tail (b ∷ file) d ≡ more =
        ap (λ o. after_scan o more d') ends in
      let same : (iter_records (tail ++ b ∷ file)).0
          ≡ (iter_records buf).0 ++ (iter_records (drop e' buf ++ behind)).0 =
        ap (λ t. (iter_records t).0) whole ∙ join in
      goes_on
      ∙ ap (λ n. pending_loop fallocate fuel (drop n buf) behind d') (consumed_all buf e' ends)
      ∙ ih
      ∙ ap emptied (
          sym (apply_all-append (iter_records buf).0 (iter_records (drop e' buf ++ behind)).0 d)
          ∙ ap (λ items. apply_all fallocate items d) (sym same))

  pub apply_pending_file_lem :
      (e : ℕ) (file : List ℕ) (d : Daemon)
      → (iter_records file).1 ≡ done e
      → All Fits (iter_records file).0
      → apply_pending_file fallocate (some file) d
        ≡ emptied (apply_all fallocate (iter_records file).0 d)
  unfolding apply_pending_file
  apply_pending_file_lem e file d h f =
      pending_loop_lem (suc (length file)) e [] file d (omega arith)
        (unfold iter_records iter_loop in refl) h f
