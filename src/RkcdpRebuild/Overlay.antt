-- ===== src/RkcdpRebuild/Overlay.antt =====
-- A rebuild from the seed: overlay_seed (rkcdp/rkcdp-rebuild.py) over a copy of the replica, against
-- what the seed layer of rkcdp/rkcdpd.py keeps.
use io_filter_driver_for_lin.Base.{
  ℕ, zero, suc, ◌+◌, ◌-◌, ◌/◌, ◌<◌, ◌≡◌, ◌≢◌, refl, true, false, ◌&&◌, ◌||◌, List, [], ◌∷◌, arith,
  min, not, ltb, leb, if◌then◌else◌,
}
use io_filter_driver_for_lin.Image.{Image, pread, pwrite, pwrite-pread}
use io_filter_driver_for_lin.Dmcdp.Extents.Covered.{covered}
use io_filter_driver_for_lin.Rkcdpd.SeedLayer.{SeedLayer, seed_chunk, is_saved}
use io_filter_driver_for_lin.Rkcdpd.SeedLayer.Preserve.{IsSeedOf}
use io_filter_driver_for_lin.RkcdpRebuild.{overlay_region, overlay_seed}

overlay_region_lem :
    (fuel : ℕ) (seed : Image) (pos h : ℕ) (copy : Image) (i : ℕ)
    → h - pos < fuel
    → overlay_region fuel seed pos h copy i ≡ (if leb pos i && ltb i h then seed i else copy i)
unfolding overlay_region
overlay_region_lem zero seed pos h copy i l = elim l [ ]
overlay_region_lem (suc fuel) seed pos h copy i l =
    let n = min 4194304 (h - pos) in
    ground (
      arith,
      overlay_region_lem fuel seed (pos + n) h (pwrite (pread n pos seed) pos copy) i,
      pwrite-pread n pos seed copy i,
    )

-- The overlay takes a byte from seed.raw where that has data, and leaves the copy elsewhere.
pub overlay_seed_lem :
    (seed : Image) (regions : List (ℕ × ℕ)) (copy : Image) (i : ℕ)
    → overlay_seed seed regions copy i ≡ (if covered regions i then seed i else copy i)
unfolding overlay_seed
overlay_seed_lem seed [] copy i = refl
overlay_seed_lem seed ((d, n) ∷ regions) copy i = ground (
  arith,
  overlay_seed_lem seed regions (overlay_region (suc n) seed d (d + n) copy) i,
  overlay_region_lem (suc n) seed d (d + n) copy i,
)

-- What lseek(2) tells of seed.raw: it has data only in chunks that were written, which are saved.
abbrev pub DataIsSaved : SeedLayer → List (ℕ × ℕ) → Type 0
DataIsSaved l regions =
    (i : ℕ) → i < l.size → covered regions i ≡ true → is_saved l (i / seed_chunk) ≡ true

module _ (seeded replica : Image) (l : SeedLayer) (regions : List (ℕ × ℕ))
    (sound : IsSeedOf seeded replica l) (data_saved : DataIsSaved l regions) where
  -- A rebuild from the seed gives back the byte that the disk held at the seed point, where
  -- seed.raw has data there or the chunk was never saved.
  pub overlay_seed_restores :
      (i : ℕ)
      → i < l.size
      → (covered regions i || not (is_saved l (i / seed_chunk))) ≡ true
      → overlay_seed l.fd regions replica i ≡ seeded i
  overlay_seed_restores i h c =
      ground (arith, overlay_seed_lem l.fd regions replica i, sound.holds i h, data_saved i h)

  -- In a chunk that was saved and is a hole in seed.raw, because it held zeros at the seed point,
  -- the rebuild keeps the newer byte of the replica: it is not the disk of the seed point.
  pub overlay_seed_misses :
      (i : ℕ)
      → i < l.size
      → covered regions i ≡ false
      → is_saved l (i / seed_chunk) ≡ true
      → l.fd i ≡ 0
      → replica i ≢ 0
      → (seeded i ≡ 0) × (overlay_seed l.fd regions replica i ≢ seeded i)
  overlay_seed_misses i h c s z r = (
    ground (arith, sound.holds i h),
    λ e. r (ground (arith, overlay_seed_lem l.fd regions replica i, sound.holds i h)),
  )
