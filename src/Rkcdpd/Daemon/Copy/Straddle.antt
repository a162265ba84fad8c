-- ===== src/Rkcdpd/Daemon/Copy/Straddle.antt =====
-- A record that crosses the edge of the chunk in flight (Daemon.apply_one and copy_chunk of
-- rkcdp/rkcdpd.py).
use io_filter_driver_for_lin.Base.{
  ℕ, ◌+◌, ◌≤◌, ◌≡◌, refl, ap, ◌∙◌, Bool, true, false, Option, some, [], ◌∷◌, ◌++◌, if◌then◌else◌,
}
use io_filter_driver_for_lin.Image.{Image, within, pread}
use io_filter_driver_for_lin.Dmcdp.{Item}
use io_filter_driver_for_lin.Rkcdpd.Replica.Effect.{effect, PunchesZeros}
use io_filter_driver_for_lin.Rkcdpd.Daemon.{Daemon, in_flight, apply_one, apply_all}
use io_filter_driver_for_lin.Rkcdpd.Daemon.Copy.{flag_chunk, land_chunk, release_chunk, copy_chunk}
use io_filter_driver_for_lin.Rkcdpd.Daemon.Copy.Loop.{
  effects_local, copying-apply_one, fd-apply_one, deferred-apply_one, fd-apply_all,
}
use io_filter_driver_for_lin.Rkcdpd.Daemon.Copy.Chunk.{
  landed_outside, fd-land_chunk, copying-land_chunk,
}

module _ (fallocate : ℕ → ℕ → Image → Option Image) (zeros : PunchesZeros fallocate)
    (skip_zero : Bool) (dev : Image) (off n got : ℕ) (older newer : Item) (d : Daemon) where
  -- While a chunk is in flight, an older record that meets it is put off whole, and a newer one
  -- that does not meet it is applied at once; so at a byte beyond the chunk the older record is
  -- applied over the newer one, and where it writes that byte, the replica ends with stale data.
  pub copy_chunk_reorders :
      (i : ℕ)
      → got ≤ n
      → in_flight (some (off, off + n)) older.0 ≡ true
      → in_flight (some (off, off + n)) newer.0 ≡ false
      → within off n i ≡ false
      → (copy_chunk fallocate skip_zero dev off n got (older ∷ newer ∷ []) [] d).0.replica.fd i
        ≡ effect older (effect newer d.replica.fd) i
  unfolding copy_chunk apply_all flag_chunk release_chunk
  copy_chunk_reorders i g meets apart w =
      let d0 = flag_chunk off n d in
      let d1 = apply_one fallocate older d0 in
      let d2 = apply_one fallocate newer d1 in
      let d3 = land_chunk skip_zero (pread got off dev) off d2 in
      let flagged : d1.copying ≡ some (off, off + n) = copying-apply_one fallocate zeros older d0 in
      let put_off : d1.deferred ≡ older ∷ [] =
        deferred-apply_one fallocate zeros older d0 ∙ rw meets in
      let kept : d3.deferred ≡ older ∷ [] =
        (copying-land_chunk skip_zero (pread got off dev) off d2).1
        ∙ deferred-apply_one fallocate zeros newer d1
        ∙ ap (λ c. if in_flight c newer.0 then d1.deferred ++ newer ∷ [] else d1.deferred) flagged
        ∙ rw apart put_off in
      let older_waits : (j : ℕ) → d1.replica.fd j ≡ d.replica.fd j =
        λ j. fd-apply_one fallocate zeros older d0 j ∙ rw meets in
      let newer_lands : d3.replica.fd i ≡ effect newer d.replica.fd i =
        fd-land_chunk skip_zero dev off got d2 i
        ∙ landed_outside skip_zero dev off n got d2.replica.fd i g w
        ∙ fd-apply_one fallocate zeros newer d1 i
        ∙ ap (λ c. if in_flight c newer.0 then d1.replica.fd i else effect newer d1.replica.fd i)
            flagged
        ∙ rw apart (effects_local (newer ∷ []) d1.replica.fd d.replica.fd i (older_waits i)) in
      ap (λ xs. (apply_all fallocate xs (release_chunk d3)).replica.fd i) kept
      ∙ fd-apply_all fallocate zeros (older ∷ []) (release_chunk d3) i refl
      ∙ effects_local (older ∷ []) d3.replica.fd (effect newer d.replica.fd) i newer_lands
