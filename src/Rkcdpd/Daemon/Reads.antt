-- ===== src/Rkcdpd/Daemon/Reads.antt =====
-- One read of the ring, live or parked (Daemon.consume of rkcdp/rkcdpd.py).
use io_filter_driver_for_lin.Base.{
  ℕ, ◌+◌, ◌-◌, ◌≤◌, ◌≡◌, refl, sym, ap, ◌∙◌, Bool, true, false, Option, none, some, List, [], ◌∷◌,
  ◌++◌, arith, take, drop, append-nil, append_assoc, drop-drop, take-append_take,
}
use io_filter_driver_for_lin.Image.{Image}
use io_filter_driver_for_lin.Dmcdp.{Rec, Item, done, iter_records}
use io_filter_driver_for_lin.Rkcdpd.Daemon.{
  Daemon, apply_one, apply_all, note_gap, value, consume_loop, append_pending, consume_end, consume,
  consumed, paused,
}
use io_filter_driver_for_lin.Rkcdpd.Daemon.Park.{note_gaps, consumed_all}

-- The daemon with other files in the node's directory.
abbrev pub with_files : Option (List ℕ) → Bool → Daemon → Daemon
with_files p b d = record d { pending_bin = p; rebuild_lock = b }

abbrev pub bytes_of : Option (List ℕ) → List ℕ
bytes_of none = []
bytes_of (some file) = file

pub note_gaps-with_files :
    (xs : List Item) (p : Option (List ℕ)) (b : Bool) (d : Daemon)
    → note_gaps xs (with_files p b d) ≡ with_files p b (note_gaps xs d)
note_gaps-with_files [] p b d = refl
note_gaps-with_files (x ∷ xs) p b d =
    ap (note_gaps xs) (one x.0) ∙ note_gaps-with_files xs p b (note_gap x.0 d)
  where
    one : (r : Rec) → note_gap r (with_files p b d) ≡ with_files p b (note_gap r d)
    one r = unfold note_gap in ground arith

le-consumed : (items : List Item) (off : ℕ) → off ≤ consumed items off
unfolding consumed
le-consumed [] off = omega arith
le-consumed (x ∷ items) off = omega (arith, le-consumed items (off + x.0.rec_len))

module _ (fallocate : ℕ → ℕ → Image → Option Image) where
  apply_one-with_files :
      (x : Item) (p : Option (List ℕ)) (b : Bool) (d : Daemon)
      → apply_one fallocate x (with_files p b d) ≡ with_files p b (apply_one fallocate x d)
  unfolding apply_one
  apply_one-with_files x p b d = ground arith

  pub apply_all-with_files :
      (xs : List Item) (p : Option (List ℕ)) (b : Bool) (d : Daemon)
      → apply_all fallocate xs (with_files p b d) ≡ with_files p b (apply_all fallocate xs d)
  unfolding apply_all
  apply_all-with_files [] p b d = refl
  apply_all-with_files (x ∷ xs) p b d =
      ap (apply_all fallocate xs) (apply_one-with_files x p b d)
      ∙ apply_all-with_files xs p b (apply_one fallocate x d)

  note_gap-apply_one :
      (x : Item) (r : Rec) (d : Daemon)
      → apply_one fallocate x (note_gap r d) ≡ note_gap r (apply_one fallocate x d)
  unfolding apply_one note_gap
  note_gap-apply_one x r d = ground arith

  note_gaps-apply_one :
      (xs : List Item) (y : Item) (d : Daemon)
      → note_gaps xs (apply_one fallocate y d) ≡ apply_one fallocate y (note_gaps xs d)
  note_gaps-apply_one [] y d = refl
  note_gaps-apply_one (x ∷ xs) y d =
      ap (note_gaps xs) (sym (note_gap-apply_one y x.0 d))
      ∙ note_gaps-apply_one xs y (note_gap x.0 d)

  pub note_gaps-apply_all :
      (ys xs : List Item) (d : Daemon)
      → note_gaps xs (apply_all fallocate ys d) ≡ apply_all fallocate ys (note_gaps xs d)
  unfolding apply_all
  note_gaps-apply_all [] xs d = refl
  note_gaps-apply_all (y ∷ ys) xs d =
      note_gaps-apply_all ys xs (apply_one fallocate y d)
      ∙ ap (apply_all fallocate ys) (note_gaps-apply_one xs y d)

  -- Not paused, the loop notes the gaps and applies the records.
  consume_loop-live :
      (buf : List ℕ) (items : List Item) (off : ℕ) (parked : List ℕ) (d : Daemon)
      → consume_loop fallocate false buf items off parked d
        ≡ (apply_all fallocate items (note_gaps items d), consumed items off, parked)
  unfolding consume_loop apply_all consumed
  consume_loop-live buf [] off parked d = refl
  consume_loop-live buf (x ∷ items) off parked d =
      consume_loop-live buf items (off + x.0.rec_len) parked
        (apply_one fallocate x (note_gap x.0 d))
      ∙ ap (λ s. (apply_all fallocate items s, consumed items (off + x.0.rec_len), parked))
          (note_gaps-apply_one items x (note_gap x.0 d))

  -- Paused, it notes the gaps and parks the bytes that it goes over.
  consume_loop-parks :
      (buf : List ℕ) (items : List Item) (off : ℕ) (parked : List ℕ) (d : Daemon)
      → consume_loop fallocate true buf items off parked d ≡ (
        note_gaps items d,
        consumed items off,
        parked ++ take (consumed items off - off) (drop off buf),
      )
  unfolding consume_loop consumed
  consume_loop-parks buf [] off parked d =
      let nothing : off - off ≡ 0 = omega arith in rw (nothing, append-nil parked)
  consume_loop-parks buf (x ∷ items) off parked d =
      let n = x.0.rec_len in
      let after = consumed items (off + n) in
      let rest = drop off buf in
      let behind : drop (off + n) buf ≡ drop n rest = sym (drop-drop n off buf) in
      let size : n + (after - (off + n)) ≡ after - off =
        omega (arith, le-consumed items (off + n)) in
      let bytes : (parked ++ take n rest) ++ take (after - (off + n)) (drop (off + n) buf)
          ≡ parked ++ take (after - off) rest =
        append_assoc parked (take n rest) (take (after - (off + n)) (drop (off + n) buf))
        ∙ ap (λ t. parked ++ (take n rest ++ take (after - (off + n)) t)) behind
        ∙ ap (λ t. parked ++ t)
            (take-append_take n (after - (off + n)) rest ∙ ap (λ k. take k rest) size) in
      consume_loop-parks buf items (off + n) (parked ++ take n rest) (note_gap x.0 d)
      ∙ ap (λ t. (note_gaps items (note_gap x.0 d), after, t)) bytes

  -- What one call of `consume` does with a buffer that scans without an error.
  pub consume-live :
      (buf : List ℕ) (e : ℕ) (d : Daemon)
      → (iter_records buf).1 ≡ done e
      → paused d ≡ false
      → consume fallocate buf d ≡ (
        value (drop e buf),
        apply_all fallocate (iter_records buf).0 (note_gaps (iter_records buf).0 d),
      )
  unfolding consume
  consume-live buf e d h q =
      let items = (iter_records buf).0 in
      ap (λ b. consume_end buf (iter_records buf).1 (consume_loop fallocate b buf items 0 [] d)) q
      ∙ ap (λ o. consume_end buf o (consume_loop fallocate false buf items 0 [] d)) h
      ∙ ap (consume_end buf (done e)) (consume_loop-live buf items 0 [] d)
      ∙ ap
          (λ n.
            (value (drop n buf), append_pending [] (apply_all fallocate items (note_gaps items d))))
          (consumed_all buf e h)
      ∙ unfold append_pending in refl

  pub consume-parks :
      (buf : List ℕ) (e : ℕ) (d : Daemon)
      → (iter_records buf).1 ≡ done e
      → paused d ≡ true
      → consume fallocate buf d
        ≡ (value (drop e buf), append_pending (take e buf) (note_gaps (iter_records buf).0 d))
  unfolding consume
  consume-parks buf e d h q =
      let items = (iter_records buf).0 in
      let all : consumed items 0 ≡ e = consumed_all buf e h in
      let bytes : take (consumed items 0 - 0) buf ≡ take e buf =
        ap (λ n. take n buf) (let s : consumed items 0 - 0 ≡ e = omega (arith, all) in s) in
      ap (λ b. consume_end buf (iter_records buf).1 (consume_loop fallocate b buf items 0 [] d)) q
      ∙ ap (λ o. consume_end buf o (consume_loop fallocate true buf items 0 [] d)) h
      ∙ ap (consume_end buf (done e)) (consume_loop-parks buf items 0 [] d)
      ∙ ap
          (λ n. (
            value (drop n buf),
            append_pending (take (consumed items 0 - 0) buf) (note_gaps items d),
          ))
          all
      ∙ ap (λ t. (value (drop e buf), append_pending t (note_gaps items d))) bytes
