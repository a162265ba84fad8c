-- ===== src/Dmcdp/Driver/Answers.antt =====
-- status and read_bitmap of rkcdp/dmcdp.py against a driver that answers as uapi/linux/dm-cdp.h says.
use io_filter_driver_for_lin.Base.{
  ℕ, ◌+◌, ◌*◌, ◌^◌, ◌≤◌, ◌<◌, ◌≡◌, refl, ap, Bool, some, List, ◌++◌, length, replicate,
  if◌then◌else◌, le_bytes, le-le_bytes, arith,
}
use io_filter_driver_for_lin.Dmcdp.Extents.{bitmap_extents}
use io_filter_driver_for_lin.Dmcdp.Extents.Covered.{covered, dirty, bitmap_extents-covered}
use io_filter_driver_for_lin.Dmcdp.Driver.{
  status_size, bm_clear, DriverStatus, unpack_status, Ioctls, status, read_bitmap,
}

-- struct dm_cdp_status, with what stands in `reserved`.
abbrev pub status_bytes : DriverStatus → List ℕ → List ℕ
status_bytes s reserved =
    le_bytes 4 s.abi_version
    ++ (le_bytes 4 s.flags
        ++ (le_bytes 8 s.dev_sectors
            ++ (le_bytes 4 s.chunk_sectors
                ++ (le_bytes 4 s.minor
                    ++ (le_bytes 8 s.bitmap_bits
                        ++ (le_bytes 8 s.bitmap_bytes
                            ++ (le_bytes 8 s.bitmap_set
                                ++ (le_bytes 8 s.ring_size
                                    ++ (le_bytes 8 s.ring_used
                                        ++ (le_bytes 8 s.seq_next
                                            ++ (le_bytes 8 s.records
                                                ++ (le_bytes 8 s.bytes_logged
                                                    ++ (le_bytes 8 s.overflows
                                                        ++ reserved)))))))))))))

-- The types of the struct's fields.
pub record FitsStruct (s : DriverStatus) : Type 0 where
  pub abi_version_fits : s.abi_version < 2 ^ 32
  pub flags_fits : s.flags < 2 ^ 32
  pub dev_sectors_fits : s.dev_sectors < 2 ^ 64
  pub chunk_sectors_fits : s.chunk_sectors < 2 ^ 32
  pub minor_fits : s.minor < 2 ^ 32
  pub bitmap_bits_fits : s.bitmap_bits < 2 ^ 64
  pub bitmap_bytes_fits : s.bitmap_bytes < 2 ^ 64
  pub bitmap_set_fits : s.bitmap_set < 2 ^ 64
  pub ring_size_fits : s.ring_size < 2 ^ 64
  pub ring_used_fits : s.ring_used < 2 ^ 64
  pub seq_next_fits : s.seq_next < 2 ^ 64
  pub records_fits : s.records < 2 ^ 64
  pub bytes_logged_fits : s.bytes_logged < 2 ^ 64
  pub overflows_fits : s.overflows < 2 ^ 64

unpack_status-status_bytes :
    (s : DriverStatus) (reserved : List ℕ)
    → FitsStruct s
    → unpack_status (status_bytes s reserved) ≡ s
unfolding unpack_status
unpack_status-status_bytes s reserved f = λ i. record {
  abi_version = le-le_bytes 4 s.abi_version f.abi_version_fits i;
  flags = le-le_bytes 4 s.flags f.flags_fits i;
  dev_sectors = le-le_bytes 8 s.dev_sectors f.dev_sectors_fits i;
  chunk_sectors = le-le_bytes 4 s.chunk_sectors f.chunk_sectors_fits i;
  minor = le-le_bytes 4 s.minor f.minor_fits i;
  bitmap_bits = le-le_bytes 8 s.bitmap_bits f.bitmap_bits_fits i;
  bitmap_bytes = le-le_bytes 8 s.bitmap_bytes f.bitmap_bytes_fits i;
  bitmap_set = le-le_bytes 8 s.bitmap_set f.bitmap_set_fits i;
  ring_size = le-le_bytes 8 s.ring_size f.ring_size_fits i;
  ring_used = le-le_bytes 8 s.ring_used f.ring_used_fits i;
  seq_next = le-le_bytes 8 s.seq_next f.seq_next_fits i;
  records = le-le_bytes 8 s.records f.records_fits i;
  bytes_logged = le-le_bytes 8 s.bytes_logged f.bytes_logged_fits i;
  overflows = le-le_bytes 8 s.overflows f.overflows_fits i;
}

-- A driver that answers as the header says: DM_CDP_IOC_STATUS fills in the struct, bitmap_bytes is
-- enough for bitmap_bits, and DM_CDP_IOC_BITMAP fills a buffer of bitmap_bytes with the bitmap,
-- whatever the flags.
pub record Answers (fd : Ioctls) (s : DriverStatus) (bm : List ℕ) : Type 0 where
  pub reserved : List ℕ
  pub struct_fits : FitsStruct s
  pub answers_status : fd.ioc_status (replicate status_size 0) ≡ some (status_bytes s reserved)
  pub bytes_enough : s.bitmap_bits ≤ s.bitmap_bytes * 8
  pub bytes_given : length bm ≡ s.bitmap_bytes
  pub answers_bitmap :
      (flags : ℕ) → fd.ioc_bitmap s.bitmap_bytes flags (replicate s.bitmap_bytes 0) ≡ some bm

module _ (fd : Ioctls) (s : DriverStatus) (bm : List ℕ) (answers : Answers fd s bm) where
  status-Answers : status fd ≡ some s
  unfolding status
  status-Answers =
      rw (status, answers.answers_status)
        (ap some (unpack_status-status_bytes s answers.reserved answers.struct_fits))

  -- From a driver that answers as its header says, status has every field of the struct, and
  -- read_bitmap, clearing or not, gives the whole bitmap with its granularity and its number of bits;
  -- bitmap_extents of that does not raise, and its extents cover the sectors of the dirty chunks and no
  -- others.
  pub read_bitmap-bitmap_extents :
      (clear : Bool)
      → (status fd ≡ some s)
        × (read_bitmap fd clear ≡ some (bm, s.chunk_sectors, s.bitmap_bits))
        × ((es : List (ℕ × ℕ)) × (bitmap_extents bm s.chunk_sectors s.bitmap_bits ≡ some es)
            × ((c o : ℕ)
                → o < s.chunk_sectors
                → covered es (c * s.chunk_sectors + o) ≡ dirty bm s.bitmap_bits c))
  unfolding read_bitmap
  read_bitmap-bitmap_extents clear = (
    status-Answers,
    rw (read_bitmap, status-Answers, answers.answers_bitmap (if clear then bm_clear else 0)) refl,
    bitmap_extents-covered bm s.chunk_sectors s.bitmap_bits
        (omega (arith, answers.bytes_enough, answers.bytes_given)),
  )
