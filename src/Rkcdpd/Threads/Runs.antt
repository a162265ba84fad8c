-- ===== src/Rkcdpd/Threads/Runs.antt =====
-- A run of the copy thread beside the apply loop that loses a write (Daemon.copy_chunk and apply_one
-- of rkcdp/rkcdpd.py).
use io_filter_driver_for_lin.Base.{
  ℕ, ◌+◌, ◌≡◌, refl, ap, ◌∙◌, true, false, Option, none, some, List, [], ◌∷◌, ◌++◌, arith,
}
use io_filter_driver_for_lin.Image.{Image, pread}
use io_filter_driver_for_lin.Dmcdp.{Item}
use io_filter_driver_for_lin.Rkcdpd.Replica.Effect.{effect, PunchesZeros}
use io_filter_driver_for_lin.Rkcdpd.Daemon.{Daemon, in_flight, apply_one}
use io_filter_driver_for_lin.Rkcdpd.Daemon.Copy.{flag_chunk, land_chunk, release_chunk}
use io_filter_driver_for_lin.Rkcdpd.Daemon.Copy.Loop.{
  copying-apply_one, fd-apply_one, deferred-apply_one,
}
use io_filter_driver_for_lin.Rkcdpd.Daemon.Copy.Chunk.{copying-land_chunk}
use io_filter_driver_for_lin.Rkcdpd.Daemon.Copy.Converge.{Overwrites}
use io_filter_driver_for_lin.Rkcdpd.Threads.{
  Copier, resting, catching_up, System, handle, flag, read, land, release, catch_up, finish, Reach,
  here, after,
}

-- Any record in any state of the copy thread.
abbrev pub Anything : Copier → Item → Type 0
Anything c x = Unit

abbrev pub system : Daemon → Copier → Image → List Item → List (ℕ × ℕ) → System
system d c disk to_come copied = record {
  daemon = d;
  copier = c;
  disk = disk;
  to_come = to_come;
  copied = copied;
}

module _ (fallocate : ℕ → ℕ → Image → Option Image) (zeros : PunchesZeros fallocate) where
  -- With no order asked of the records, a write can be lost: for any chunk, any older record that meets
  -- it and overwrites a byte, and any newer record, there is a run of one copy and these two records
  -- that ends with a resting copy thread, nothing owed and nothing to come, in which the disk has the
  -- newer record over the older one, and the replica ends with the older one.
  pub copy_chunk_races :
      (off n i : ℕ) (older newer : Item) (d : Daemon) (disk : Image)
      → in_flight (some (off, off + n)) older.0 ≡ true
      → Overwrites (effect older) i
      → (t : System) × Reach fallocate Anything (system d resting disk (older ∷ newer ∷ []) []) t
        × (t.copier ≡ resting)
        × (t.to_come ≡ [])
        × (t.disk i ≡ effect newer (effect older disk) i)
        × (t.daemon.replica.fd i ≡ effect older disk i)
  unfolding release_chunk
  copy_chunk_races off n i older newer d disk meets over =
      let both = older ∷ newer ∷ [] in
      let d1 = flag_chunk off n d in
      let d2 = land_chunk false (pread n off disk) off d1 in
      let d3 = apply_one fallocate older d2 in
      let d5 = apply_one fallocate newer (release_chunk d3) in
      let d6 = apply_one fallocate older d5 in
      let (same_copying, same) = copying-land_chunk false (pread n off disk) off d1 in
      let held : d3.deferred ≡ older ∷ [] =
        deferred-apply_one fallocate zeros older d2
        ∙ unfold flag_chunk in rw (same_copying, meets) (ap (λ t. t ++ older ∷ []) same) in
      let free : d5.copying ≡ none = copying-apply_one fallocate zeros newer (release_chunk d3) in
      let landing =
        after (after (after here (flag off n refl)) (read off n n [] both refl (omega arith) refl))
          (land false off n n disk refl) in
      let releasing =
        after (after landing (handle older (newer ∷ []) refl tt)) (release off n refl) in
      let racing =
        after (after releasing (handle newer [] refl tt))
          (catch_up older [] (ap catching_up held)) in
      (
        system d6 resting (effect newer (effect older disk)) [] ((off, n) ∷ []),
        after racing (finish refl),
        refl,
        refl,
        refl,
        fd-apply_one fallocate zeros older d5 i
            ∙ unfold in_flight in rw free (over d5.replica.fd disk),
      )
