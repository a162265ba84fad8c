-- ===== src/RkcdpSeed/Resumed.antt =====
-- On the copy of rkcdp/rkcdp-seed.py, begun anew and resumed.
use Prim.Native.String.{String}
use text.Mathlib.TextPositions.{eq_refl}
use io_filter_driver_for_lin.Base.{
  ℕ, zero, suc, ◌+◌, ◌-◌, ◌*◌, ◌≤◌, ◌<◌, ◌≡◌, ◌⊎◌, inl, inr, false, ◌&&◌, some, arith, le_cases,
}
use io_filter_driver_for_lin.Image.{Image}
use io_filter_driver_for_lin.RkcdpSeed.{
  Resume, seed_ch, nchunks, opt_text, opt_num, start_chunk, dd_loop, seed_copy,
}

-- dd of one block with conv=notrunc,sparse: nothing outside of the block changes; a byte of the
-- block becomes that of the disk, or stays where the disk has a zero byte (a block of zeros is
-- skipped).
pub record DdCopies (dd : Image → ℕ → Image → Image) : Type 0 where
  pub outside :
      (disk : Image) (i : ℕ) (replica : Image) (j : ℕ)
      → (j < i * seed_ch) ⊎ (suc i * seed_ch ≤ j)
      → dd disk i replica j ≡ replica j
  pub inside :
      (disk : Image) (i : ℕ) (replica : Image) (j : ℕ)
      → i * seed_ch ≤ j
      → j < suc i * seed_ch
      → (dd disk i replica j ≡ disk j) ⊎ ((disk j ≡ 0) × (dd disk i replica j ≡ replica j))

-- Below chunk `i` the replica is the disk, and nowhere does it hold anything else but zeros.
abbrev pub CopiedTo : Image → ℕ → Image → Type 0
CopiedTo disk i replica =
    (j : ℕ) → (j < i * seed_ch → replica j ≡ disk j) × ((replica j ≡ disk j) ⊎ (replica j ≡ 0))

module _ (dd : Image → ℕ → Image → Image) (copies : DdCopies dd) (disk : Image) where
  dd-CopiedTo :
      (i : ℕ) (replica : Image)
      → CopiedTo disk i replica
      → CopiedTo disk (suc i) (dd disk i replica)
  dd-CopiedTo i replica h j = elim (le_cases (i * seed_ch) j) [
    | inr below ↦ ground (arith, h j, copies.outside disk i replica j (inl below))
    | inl above ↦ elim (le_cases (suc i * seed_ch) j) [
      | inl past ↦ ground (arith, h j, copies.outside disk i replica j (inr past))
      | inr within ↦ ground (arith, h j, copies.inside disk i replica j above within)
    ]
  ]

  pub dd_loop-CopiedTo :
      (count i k : ℕ) (replica : Image)
      → i + count ≡ k
      → CopiedTo disk i replica
      → CopiedTo disk k (dd_loop dd disk count i replica)
  unfolding dd_loop
  dd_loop-CopiedTo zero i k replica e h = let same : i ≡ k = omega arith in rw (← same) h
  dd_loop-CopiedTo (suc count) i k replica e h =
      dd_loop-CopiedTo count (suc i) k (dd disk i replica) (omega arith) (dd-CopiedTo i replica h)

  pub CopiedTo-le :
      (i k : ℕ) (replica : Image) → i ≤ k → CopiedTo disk k replica → CopiedTo disk i replica
  CopiedTo-le i k replica e h j = (λ l. (h j).0 (omega arith), (h j).1)

  pub seed_copy_all :
      (total start : ℕ) (replica : Image) (j : ℕ)
      → start ≤ nchunks total
      → CopiedTo disk start replica
      → j < total
      → seed_copy dd disk total start replica j ≡ disk j
  unfolding seed_copy
  seed_copy_all total start replica j e h l =
      (dd_loop-CopiedTo (nchunks total - start) start (nchunks total) replica (omega arith) h j).0
        (omega arith)

  -- A copy into a fresh replica that broke off after `copied` chunks, of which the last one
  -- reported to seed.json was `k`, and was then retried for the same VM and disk from the resume
  -- point, leaves replica.raw with every byte of the disk.
  pub resumed_copy_complete :
      (host : String) (vmid total copied k : ℕ) (fresh : Image) (j : ℕ)
      → ((i : ℕ) → fresh i ≡ 0)
      → k < copied
      → copied ≤ nchunks total
      → j < total
      → let r : Resume = record {
        host = some host;
        vmid = some vmid;
        total = some total;
        chunk = some k;
      } in
        seed_copy dd disk total (start_chunk r host vmid total) (dd_loop dd disk copied 0 fresh) j
        ≡ disk j
  unfolding start_chunk
  resumed_copy_complete host vmid total copied k fresh j z l c h =
      let broken = dd_loop dd disk copied 0 fresh in
      let so_far : CopiedTo disk copied broken =
        dd_loop-CopiedTo copied 0 copied fresh (omega arith)
          (λ i. (λ m. absurd (omega arith), inr (z i))) in
      let r : Resume = record {
        host = some host;
        vmid = some vmid;
        total = some total;
        chunk = some k;
      } in
      let from : start_chunk r host vmid total ≡ k + 1 = ground (arith, eq_refl host) in
      rw from (
        seed_copy_all total (k + 1) broken j (omega arith)
          (CopiedTo-le (k + 1) copied broken (omega arith) so_far) h)

  -- A resume point of another host, VM or disk size is not used: the copy starts over, and is
  -- complete too.
  pub fresh_copy_complete :
      (r : Resume) (host : String) (vmid total : ℕ) (fresh : Image) (j : ℕ)
      → ((i : ℕ) → fresh i ≡ 0)
      → opt_text r.host host && opt_num r.vmid vmid && opt_num r.total total ≡ false
      → j < total
      → seed_copy dd disk total (start_chunk r host vmid total) fresh j ≡ disk j
  unfolding start_chunk
  fresh_copy_complete r host vmid total fresh j z q h =
      rw q (
        seed_copy_all total 0 fresh j (omega arith) (λ i. (λ m. absurd (omega arith), inr (z i))) h)
