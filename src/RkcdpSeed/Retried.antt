-- ===== src/RkcdpSeed/Retried.antt =====
-- On a copy that is retried from its own resume point (rkcdp/rkcdp-seed.py).
use Prim.Native.String.{String}
use io_filter_driver_for_lin.Base.{
  ℕ, suc, ◌+◌, ◌≤◌, ◌<◌, ◌≡◌, refl, Bool, Option, none, List, [], ◌∷◌, arith, length, ◌⊎◌, inl, inr,
  le_cases, take, length-take, ◌-◌, ◌*◌, min,
}
use io_filter_driver_for_lin.Image.{Image}
use io_filter_driver_for_lin.RkcdpSeed.{
  Resume, no_resume, nchunks, start_chunk, report_chunk, seed_progress, chunk_percent, next_pct,
  report_loop, Broken, seed_ch, seed_copy, broken_copy, broken_copies,
}
use io_filter_driver_for_lin.RkcdpSeed.Resumed.{
  DdCopies, CopiedTo, dd_loop-CopiedTo, CopiedTo-le, seed_copy_all,
}

module _ (host : String) (vmid total : ℕ) where
  -- A report moves the resume point behind its chunk, or leaves it.
  start_chunk-report_chunk :
      (last_pct : Option ℕ) (late : Bool) (i : ℕ) (r : Resume)
      → start_chunk r host vmid total ≤ i
      → start_chunk (report_chunk host vmid total last_pct late i r) host vmid total ≤ suc i
  unfolding start_chunk report_chunk seed_progress
  start_chunk-report_chunk last_pct late i r h = ground arith

  start_chunk-report_loop :
      (lines : List Bool) (i : ℕ) (last_pct : Option ℕ) (r : Resume)
      → start_chunk r host vmid total ≤ i
      → start_chunk (report_loop host vmid total lines i last_pct r) host vmid total
        ≤ i + length lines
  unfolding report_loop
  start_chunk-report_loop [] i last_pct r h = omega (arith, h)
  start_chunk-report_loop (late ∷ lines) i last_pct r h =
      let later =
        start_chunk-report_loop lines (suc i) (next_pct last_pct late (chunk_percent total i))
          (report_chunk host vmid total last_pct late i r)
          (start_chunk-report_chunk last_pct late i r h) in
      omega (arith, later)

-- What a broken copy leaves for the next one: all below the resume point is copied, and the point
-- is none behind the last chunk.
abbrev Resumable : Image → String → ℕ → ℕ → Resume × Image → Type 0
Resumable disk host vmid total (r, replica) =
    CopiedTo disk (start_chunk r host vmid total) replica
    × (start_chunk r host vmid total ≤ nchunks total)

module _ (dd : Image → ℕ → Image → Image) (copies : DdCopies dd) (disk : Image) (host : String)
    (vmid total : ℕ) where
  broken_copy-Resumable :
      (b : Broken) (s : Resume × Image)
      → Resumable disk host vmid total s
      → Resumable disk host vmid total (broken_copy dd disk host vmid total b s)
  unfolding broken_copy
  broken_copy-Resumable b (r, replica) (h, within) =
      let start = start_chunk r host vmid total in
      let copied = min b.chunks (nchunks total - start) in
      let behind =
        start_chunk-report_loop host vmid total (take copied b.lines) start none r (omega arith) in
      let few = length-take copied b.lines in
      (
        CopiedTo-le dd copies disk _ (start + copied) _ (omega (arith, behind, few))
            (dd_loop-CopiedTo dd copies disk copied start (start + copied) replica refl h),
        omega (arith, behind, few, within),
      )

  broken_copies-Resumable :
      (runs : List Broken) (s : Resume × Image)
      → Resumable disk host vmid total s
      → Resumable disk host vmid total (broken_copies dd disk host vmid total runs s)
  unfolding broken_copies
  broken_copies-Resumable [] s h = h
  broken_copies-Resumable (b ∷ runs) s h =
      broken_copies-Resumable runs (broken_copy dd disk host vmid total b s)
        (broken_copy-Resumable b s h)

  fresh-Resumable :
      (fresh : Image) → ((i : ℕ) → fresh i ≡ 0) → Resumable disk host vmid total (no_resume, fresh)
  unfolding start_chunk
  fresh-Resumable fresh z = (λ i. (λ m. absurd (omega arith), inr (z i)), omega arith)

  -- However often a copy into a fresh replica breaks off, each run beginning at the resume point
  -- that the earlier ones left, that point lies at most one behind the last chunk, and every byte of
  -- a chunk before it is that of the disk.
  pub start_chunk-broken_copies :
      (runs : List Broken) (fresh : Image) (j : ℕ)
      → ((i : ℕ) → fresh i ≡ 0)
      → let (r, replica) = broken_copies dd disk host vmid total runs (no_resume, fresh) in
        let start = start_chunk r host vmid total in
        (start ≤ nchunks total) × ((start * seed_ch ≤ j) ⊎ (replica j ≡ disk j))
  start_chunk-broken_copies runs fresh j z =
      let (r, replica) = broken_copies dd disk host vmid total runs (no_resume, fresh) in
      let (so_far, within) =
        broken_copies-Resumable runs (no_resume, fresh) (fresh-Resumable fresh z) in
      (
        within,
        elim (le_cases (start_chunk r host vmid total * seed_ch) j) [
          | inl behind ↦ inl behind
          | inr before ↦ inr ((so_far j).0 before)
        ],
      )

  -- A copy into a fresh replica that breaks off any number of times, each run beginning where the
  -- lines read of the earlier ones say, is completed by one more run from the resume point: the
  -- replica then has every byte of the disk.
  pub broken_copies_complete :
      (runs : List Broken) (fresh : Image) (j : ℕ)
      → ((i : ℕ) → fresh i ≡ 0)
      → j < total
      → let (r, replica) = broken_copies dd disk host vmid total runs (no_resume, fresh) in
        seed_copy dd disk total (start_chunk r host vmid total) replica j ≡ disk j
  broken_copies_complete runs fresh j z l =
      let (so_far, within) =
        broken_copies-Resumable runs (no_resume, fresh) (fresh-Resumable fresh z) in
      seed_copy_all dd copies disk total _ _ j within so_far l
