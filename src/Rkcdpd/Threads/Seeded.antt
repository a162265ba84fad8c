-- ===== src/Rkcdpd/Threads/Seeded.antt =====
-- The seed layer through every interleaving of the copy thread and the apply loop (rkcdp/rkcdpd.py), and
-- a rebuild from the seed at the end of it (overlay_seed of rkcdp/rkcdp-rebuild.py).
use io_filter_driver_for_lin.Base.{
  ℕ, ◌/◌, ◌<◌, ◌≡◌, Bool, true, ◌&&◌, ◌||◌, not, Option, some, List, length, Bool-cases, inl, inr,
  ◌==◌,
}
use io_filter_driver_for_lin.Image.{Image, pread, any}
use io_filter_driver_for_lin.Dmcdp.{Item}
use io_filter_driver_for_lin.Dmcdp.Extents.Covered.{covered}
use io_filter_driver_for_lin.Rkcdpd.SeedLayer.{SeedLayer, seed_chunk, is_saved}
use io_filter_driver_for_lin.Rkcdpd.Replica.Effect.{
  PunchesZeros, IsSeeded, replica_write-IsSeeded, replica_pwrite-IsSeeded,
}
use io_filter_driver_for_lin.Rkcdpd.Daemon.{Daemon, in_flight, apply_one}
use io_filter_driver_for_lin.Rkcdpd.Daemon.Copy.{flag_chunk, land_chunk, release_chunk}
use io_filter_driver_for_lin.Rkcdpd.Threads.{
  System, Step, handle, flag, read, land, release, catch_up, finish, Reach, here, after,
}
use io_filter_driver_for_lin.Rkcdpd.Threads.Runs.{Anything}
use io_filter_driver_for_lin.RkcdpRebuild.{overlay_seed}
use io_filter_driver_for_lin.RkcdpRebuild.Overlay.{DataIsSaved, overlay_seed_restores}

module _ (fallocate : ℕ → ℕ → Image → Option Image) (zeros : PunchesZeros fallocate)
    (seeded : Image) where
  pub apply_one-IsSeeded :
      (x : Item) (d : Daemon)
      → IsSeeded seeded d.replica
      → IsSeeded seeded (apply_one fallocate x d).replica
  unfolding apply_one
  apply_one-IsSeeded x d h = elim (Bool-cases (in_flight d.copying x.0)) [
    | inl meets ↦ rw meets h
    | inr apart ↦ rw apart (replica_write-IsSeeded fallocate zeros seeded x d.replica h)
  ]

  pub land_chunk-IsSeeded :
      (skip_zero : Bool) (buf : List ℕ) (off : ℕ) (d : Daemon)
      → IsSeeded seeded d.replica
      → IsSeeded seeded (land_chunk skip_zero buf off d).replica
  unfolding land_chunk
  land_chunk-IsSeeded skip_zero buf off d h =
      elim (Bool-cases (not (length buf == 0) && not (skip_zero && not (any buf)))) [
        | inl lands ↦ rw lands (replica_pwrite-IsSeeded fallocate zeros seeded buf off d.replica h)
        | inr skips ↦ rw skips h
      ]

  Step-IsSeeded :
      {s t : System}
      → Step fallocate Anything s t
      → IsSeeded seeded s.daemon.replica
      → IsSeeded seeded t.daemon.replica
  unfolding flag_chunk release_chunk
  Step-IsSeeded {s} (handle x rest q calm) h = apply_one-IsSeeded x s.daemon h
  Step-IsSeeded (flag off n e) h = h
  Step-IsSeeded (read off n got ahead behind e g q) h = h
  Step-IsSeeded {s} (land skip_zero off n got dev e) h =
      land_chunk-IsSeeded skip_zero (pread got off dev) off s.daemon h
  Step-IsSeeded (release off n e) h = h
  Step-IsSeeded {s} (catch_up x late e) h = apply_one-IsSeeded x s.daemon h
  Step-IsSeeded (finish e) h = h

  pub Reach-IsSeeded :
      {s t : System}
      → Reach fallocate Anything s t
      → IsSeeded seeded s.daemon.replica
      → IsSeeded seeded t.daemon.replica
  Reach-IsSeeded here h = h
  Reach-IsSeeded (after r st) h = Step-IsSeeded st (Reach-IsSeeded r h)

-- Through any interleaving of copies and live records, with no order asked of them, a rebuild from the
-- seed gives back the disk of the seed point: overlay_seed over a copy of the replica, with the
-- regions of data of seed.raw, has at each byte what the disk held then, if seed.raw has data there or
-- the chunk was never saved. At the start layer and replica determine the disk of the seed point.
pub Reach-overlay_seed :
    (fallocate : ℕ → ℕ → Image → Option Image) (seeded : Image) (s t : System) (l : SeedLayer)
    (regions : List (ℕ × ℕ)) (i : ℕ)
    → PunchesZeros fallocate
    → IsSeeded seeded s.daemon.replica
    → Reach fallocate Anything s t
    → t.daemon.replica.seed ≡ some l
    → DataIsSaved l regions
    → i < l.size
    → (covered regions i || not (is_saved l (i / seed_chunk))) ≡ true
    → overlay_seed l.fd regions t.daemon.replica.fd i ≡ seeded i
Reach-overlay_seed fallocate seeded s t l regions i zeros h r e data_saved k c =
    overlay_seed_restores seeded t.daemon.replica.fd l regions
      (Reach-IsSeeded fallocate zeros seeded r h l e) data_saved i k c
