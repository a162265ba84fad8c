-- ===== src/Rkcdpd/Daemon/Copy/BaseCopy.antt =====
-- On the loop of the base copy (Daemon.base_copy of rkcdp/rkcdpd.py).
use io_filter_driver_for_lin.Base.{
  ℕ, ◌+◌, ◌-◌, ◌≤◌, ◌<◌, ◌≡◌, refl, ◌∙◌, Bool, true, false, Option, none, some, List, [], ◌∷◌,
  arith, length, All, min,
}
use io_filter_driver_for_lin.Image.{Image, pread, length-pread}
use io_filter_driver_for_lin.Dmcdp.{Item}
use io_filter_driver_for_lin.Rkcdpd.Daemon.{Daemon, apply_one, apply_all}
use io_filter_driver_for_lin.Rkcdpd.Daemon.Copy.{
  flag_chunk, land_chunk, release_chunk, copy_chunk, copy_chunk_bytes, Round, base_copy_loop,
  base_copy,
}

-- Each read returns a byte at least.
abbrev pub AllRead : List Round → Type 0
AllRead rounds = All (λ (r : Round). 0 < r.got) rounds

module _ (fallocate : ℕ → ℕ → Image → Option Image) where
  pub size-apply_all : (xs : List Item) (d : Daemon) → (apply_all fallocate xs d).size ≡ d.size
  unfolding apply_all
  size-apply_all [] d = refl
  size-apply_all (x ∷ xs) d =
      size-apply_all xs (apply_one fallocate x d) ∙ unfold apply_one in ground arith

  pub size-copy_chunk :
      (skip_zero : Bool) (dev : Image) (off n got : ℕ) (early late : List Item) (d : Daemon)
      → (copy_chunk fallocate skip_zero dev off n got early late d).0.size ≡ d.size
  unfolding copy_chunk flag_chunk release_chunk
  size-copy_chunk skip_zero dev off n got early late d =
      let flagged = apply_all fallocate early (flag_chunk off n d) in
      let landed = land_chunk skip_zero (pread got off dev) off flagged in
      let handled = apply_all fallocate late landed in
      size-apply_all handled.deferred (release_chunk handled)
      ∙ size-apply_all late landed
      ∙ (let same : landed.size ≡ flagged.size = unfold land_chunk in ground arith in same)
      ∙ size-apply_all early (flag_chunk off n d)

  pub read-copy_chunk :
      (skip_zero : Bool) (dev : Image) (off n got : ℕ) (early late : List Item) (d : Daemon)
      → (copy_chunk fallocate skip_zero dev off n got early late d).1 ≡ got
  unfolding copy_chunk
  read-copy_chunk skip_zero dev off n got early late d = length-pread got off dev

  base_copy_loop_end :
      (rounds : List Round) (off : ℕ) (d : Daemon)
      → AllRead rounds
      → d.size - off ≤ length rounds
      → d.size ≤ (base_copy_loop fallocate rounds off d).1
  unfolding base_copy_loop
  base_copy_loop_end [] off d a h = omega (arith, h)
  base_copy_loop_end (r ∷ rounds) off d a h =
      let n = min copy_chunk_bytes (d.size - off) in
      let idle = apply_all fallocate r.idle d in
      let copied = copy_chunk fallocate true r.dev off n r.got r.early r.late idle in
      let read : copied.1 ≡ r.got = read-copy_chunk true r.dev off n r.got r.early r.late idle in
      let size : copied.0.size ≡ d.size =
        size-copy_chunk true r.dev off n r.got r.early r.late idle ∙ size-apply_all r.idle d in
      let after = record copied.0 { base_progress = some (off + copied.1) } in
      ground (arith, a.0, base_copy_loop_end rounds (off + copied.1) after a.1)

  -- A base copy that no signal stops and whose reads all return something has gone over the whole
  -- disk after as many rounds as the disk has bytes at most, and then has base_end_seq recorded and
  -- reports no base copy any more.
  pub base_copy_ends :
      (rounds : List Round) (seq_next : ℕ) (d : Daemon)
      → AllRead rounds
      → d.size ≤ length rounds
      → let after = base_copy fallocate rounds false seq_next d in
        (d.size ≤ (base_copy_loop fallocate rounds 0 (record d { base_progress = some 0 })).1)
        × (after.base_end_seq ≡ some seq_next)
        × (after.base_progress ≡ none)
  unfolding base_copy
  base_copy_ends rounds seq_next d a h = (
    base_copy_loop_end rounds 0 (record d { base_progress = some 0 }) a (omega arith),
    refl,
    refl,
  )

  -- A base copy whose first read returns nothing, with no record handled meanwhile, copies nothing
  -- of a disk that is not empty, and is recorded as complete all the same.
  pub base_copy_breaks_off :
      (dev : Image) (rounds : List Round) (seq_next : ℕ) (d : Daemon)
      → 0 < d.size
      → let r : Round = record { idle = []; dev = dev; got = 0; early = []; late = [] } in
        let after = base_copy fallocate (r ∷ rounds) false seq_next d in
        (after.replica ≡ d.replica) × (after.base_end_seq ≡ some seq_next)
  unfolding base_copy base_copy_loop copy_chunk apply_all flag_chunk land_chunk release_chunk pread
  base_copy_breaks_off dev rounds seq_next d h = (ground arith, refl)
