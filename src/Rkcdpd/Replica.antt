-- ===== src/Rkcdpd/Replica.antt =====
-- class Replica of rkcdp/rkcdpd.py: replica.raw with punch-hole and its zero-fill fallback, and
-- the optional seed layer. `libc.fallocate` is a parameter: `none` where it refuses.
pub mod Effect
use io_filter_driver_for_lin.Base.{
  ℕ, zero, ◌+◌, ◌*◌, Bool, true, false, Option, none, some, List, if◌then◌else◌, replicate, ◌==◌,
  ◌||◌, length,
}
use io_filter_driver_for_lin.Image.{Image, pwrite}
use io_filter_driver_for_lin.Dmcdp.{Rec, Item, rec_write, rec_discard, rec_zero}
use io_filter_driver_for_lin.Rkcdpd.SeedLayer.{SeedLayer, preserve}

pub record Replica : Type 0 where
  pub fd : Image
  pub seed : Option SeedLayer
  pub punch_ok : Bool

-- if self.seed: self.seed.preserve(self.fd, off, length)
unfoldable pub save_seed : ℕ → ℕ → Replica → Option SeedLayer
save_seed off len r = elim r.seed [ none ↦ none | some l ↦ some (preserve r.fd off len l) ]

unfoldable pub replica_pwrite : List ℕ → ℕ → Replica → Replica
replica_pwrite buf off r = record r {
  seed = save_seed off (length buf) r;
  fd = pwrite buf off r.fd;
}

module _ (fallocate : ℕ → ℕ → Image → Option Image) where
  unfoldable pub punch : ℕ → ℕ → Replica → Replica
  punch off len r =
      let zero_fill = pwrite (replicate len 0) off r.fd in
      if r.punch_ok
      then elim (fallocate off len r.fd) [
        | some img ↦ record r { fd = img }
        | none ↦ record r { punch_ok = false; fd = zero_fill }
      ]
      else record r { fd = zero_fill }

  unfoldable pub replica_write : Item → Replica → Replica
  replica_write (rec, payload) r =
      if rec.type == rec_write
      then replica_pwrite payload (rec.sector * 512) r
      else if rec.type == rec_discard || rec.type == rec_zero
      then punch (rec.sector * 512) rec.len
          (record r { seed = save_seed (rec.sector * 512) rec.len r })
      else r
