-- ===== src/Rkcdpd/Replica/Effect.antt =====
-- What one record does to a disk, beside Replica.write (rkcdp/rkcdpd.py).
use io_filter_driver_for_lin.Base.{
  ℕ, ◌*◌, ◌≡◌, refl, fun_ext, ap, ◌∙◌, bit_and, List, false, Option, some, if◌then◌else◌, ◌==◌,
  ◌||◌, length, arith, Option-cases, Bool-cases, inl, inr,
}
use io_filter_driver_for_lin.Image.{Image, pwrite, within, pwrite-replicate, pwrite-out}
use io_filter_driver_for_lin.Dmcdp.{Item, f_error, rec_write, rec_discard, rec_zero}
use io_filter_driver_for_lin.Rkcdpd.SeedLayer.{SeedLayer, preserve}
use io_filter_driver_for_lin.Rkcdpd.SeedLayer.Preserve.{IsSeedOf, preserve-IsSeedOf}
use io_filter_driver_for_lin.Rkcdpd.Replica.{
  Replica, save_seed, replica_pwrite, punch, replica_write,
}

abbrev pub zero_range : ℕ → ℕ → Image → Image
zero_range off len img i = if within off len i then 0 else img i

-- What the request that the record logs does to a disk. Whether the device did it is not asked: of a
-- record with F_ERROR the driver says that the device returned an error.
unfoldable pub effect : Item → Image → Image
effect (rec, payload) disk =
    if rec.type == rec_write
    then pwrite payload (rec.sector * 512) disk
    else if rec.type == rec_discard || rec.type == rec_zero
    then zero_range (rec.sector * 512) rec.len disk
    else disk

-- fallocate(2), FALLOC_FL_PUNCH_HOLE | FALLOC_FL_KEEP_SIZE: "subsequent reads from this range will
-- return zeros", and nothing else changes.
abbrev pub PunchesZeros : (ℕ → ℕ → Image → Option Image) → Type 0
PunchesZeros fallocate =
    (off len : ℕ) (img img' : Image)
    → fallocate off len img ≡ some img'
    → (i : ℕ) → img' i ≡ zero_range off len img i

-- The layer of the replica, where it has one, still determines the disk of the seed point.
abbrev pub IsSeeded : Image → Replica → Type 0
IsSeeded seeded r = (l : SeedLayer) → r.seed ≡ some l → IsSeedOf seeded r.fd l

module _ (fallocate : ℕ → ℕ → Image → Option Image) (zeros : PunchesZeros fallocate) where
  fd-punch :
      (off len : ℕ) (r : Replica) (i : ℕ)
      → (punch fallocate off len r).fd i ≡ zero_range off len r.fd i
  unfolding punch
  fd-punch off len r i = elim (Option-cases (fallocate off len r.fd)) [
    | inl refused ↦ ground (arith, pwrite-replicate len off r.fd i)
    | inr (img, q) ↦ ground (arith, pwrite-replicate len off r.fd i, zeros off len r.fd img q i)
  ]

  seed-punch : (off len : ℕ) (r : Replica) → (punch fallocate off len r).seed ≡ r.seed
  unfolding punch
  seed-punch off len r = ground arith

  -- replica_write does to every byte of replica.raw what the logged request asks for, whether holes
  -- can be punched or not, with or without a seed layer, and with or without F_ERROR.
  pub fd-replica_write :
      (x : Item) (r : Replica) (i : ℕ) → (replica_write fallocate x r).fd i ≡ effect x r.fd i
  unfolding replica_write replica_pwrite effect
  fd-replica_write (rec, payload) r i =
      let saved = save_seed (rec.sector * 512) rec.len r in
      ground (arith, fd-punch (rec.sector * 512) rec.len (record r { seed = saved }) i)

  -- Of a record without F_ERROR, on a replica that is the disk before the request, replica_write
  -- leaves the disk after it, whether holes can be punched or not and with or without a seed layer.
  -- The flags are not looked at: the same record with any others, F_ERROR among them, changes the
  -- replica just the same, though the device then returned an error.
  pub replica_write_logged :
      (x : Item) (r : Replica) (disk : Image) (i : ℕ)
      → ((j : ℕ) → r.fd j ≡ disk j)
      → bit_and x.0.flags f_error ≡ 0
      → ((replica_write fallocate x r).fd i ≡ effect x disk i)
        × ((flags : ℕ)
            → (replica_write fallocate (record x.0 { flags = flags }, x.1) r).fd i
              ≡ effect x disk i)
  replica_write_logged x r disk i same unflagged =
      let on_disk : r.fd ≡ disk = fun_ext same in
      (
        fd-replica_write x r i ∙ ap (λ (image : Image). effect x image i) on_disk,
        λ flags.
            fd-replica_write (record x.0 { flags = flags }, x.1) r i
            ∙ unfold effect in ap (λ (image : Image). effect x image i) on_disk,
      )

  save_seed-IsSeeded :
      (seeded : Image) (off len : ℕ) (r r' : Replica)
      → IsSeeded seeded r
      → r'.seed ≡ save_seed off len r
      → ((i : ℕ) → within off len i ≡ false → r'.fd i ≡ r.fd i)
      → IsSeeded seeded r'
  unfolding save_seed
  save_seed-IsSeeded seeded off len r r' h q outside l e = elim (Option-cases r.seed) [
    | inl bare ↦ ground arith
    | inr (old, has) ↦
        let same : preserve r.fd off len old ≡ l = ground arith in
        rw (← same) (preserve-IsSeedOf seeded r.fd r'.fd off len old (h old has) outside)
  ]

  pub replica_pwrite-IsSeeded :
      (seeded : Image) (buf : List ℕ) (off : ℕ) (r : Replica)
      → IsSeeded seeded r
      → IsSeeded seeded (replica_pwrite buf off r)
  unfolding replica_pwrite
  replica_pwrite-IsSeeded seeded buf off r h =
      save_seed-IsSeeded seeded off (length buf) r (replica_pwrite buf off r) h refl
        (λ i out. pwrite-out buf off r.fd i out)

  -- A write, discard or zeroing applied to the replica keeps the seed layer sound: layer and
  -- replica together still determine the disk of the seed point.
  pub replica_write-IsSeeded :
      (seeded : Image) (x : Item) (r : Replica)
      → IsSeeded seeded r
      → IsSeeded seeded (replica_write fallocate x r)
  unfolding replica_write replica_pwrite
  replica_write-IsSeeded seeded (rec, payload) r h =
      let off = rec.sector * 512 in
      let saved = save_seed off rec.len r in
      elim (Bool-cases (rec.type == rec_write)) [
        | inl w ↦ rw w (replica_pwrite-IsSeeded seeded payload off r h)
        | inr n ↦ elim (Bool-cases (rec.type == rec_discard || rec.type == rec_zero)) [
          | inl z ↦
              rw (n, z)
                (save_seed-IsSeeded seeded off rec.len r
                  (punch fallocate off rec.len (record r { seed = saved })) h
                  (seed-punch off rec.len (record r { seed = saved }))
                  (λ i out. ground (arith, fd-punch off rec.len (record r { seed = saved }) i)))
          | inr k ↦ rw (n, k) h
        ]
      ]
