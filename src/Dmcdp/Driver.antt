-- ===== src/Dmcdp/Driver.antt =====
-- status and read_bitmap of rkcdp/dmcdp.py: what the driver says of itself, and its dirty bitmap. The
-- two ioctls are parameters.
pub mod Answers
use io_filter_driver_for_lin.Base.{
  ℕ, Bool, Option, none, some, List, [], if◌then◌else◌, take, drop, replicate, le,
}

abbrev pub status_size : ℕ
status_size = 128

abbrev pub bm_clear : ℕ
bm_clear = 1

-- STATUS_FIELDS
pub record DriverStatus : Type 0 where
  pub abi_version : ℕ
  pub flags : ℕ
  pub dev_sectors : ℕ
  pub chunk_sectors : ℕ
  pub minor : ℕ
  pub bitmap_bits : ℕ
  pub bitmap_bytes : ℕ
  pub bitmap_set : ℕ
  pub ring_size : ℕ
  pub ring_used : ℕ
  pub seq_next : ℕ
  pub records : ℕ
  pub bytes_logged : ℕ
  pub overflows : ℕ

abbrev struct_field : ℕ → ℕ → List ℕ → ℕ
struct_field w k buf = le (take w (drop k buf))

-- dict(zip(STATUS_FIELDS, struct.unpack(STATUS_FMT, buf))) for the 128 bytes of "<IIQIIQQQQQQQQQ4Q"
unfoldable pub unpack_status : List ℕ → DriverStatus
unpack_status buf = record {
  abi_version = struct_field 4 0 buf;
  flags = struct_field 4 4 buf;
  dev_sectors = struct_field 8 8 buf;
  chunk_sectors = struct_field 4 16 buf;
  minor = struct_field 4 20 buf;
  bitmap_bits = struct_field 8 24 buf;
  bitmap_bytes = struct_field 8 32 buf;
  bitmap_set = struct_field 8 40 buf;
  ring_size = struct_field 8 48 buf;
  ring_used = struct_field 8 56 buf;
  seq_next = struct_field 8 64 buf;
  records = struct_field 8 72 buf;
  bytes_logged = struct_field 8 80 buf;
  overflows = struct_field 8 88 buf;
}

-- The driver: what its ioctls leave in a buffer. IOC_STATUS has the buffer; IOC_BITMAP has the length,
-- the flags and the buffer. `none` is an OSError.
pub record Ioctls : Type 0 where
  pub ioc_status : List ℕ → Option (List ℕ)
  pub ioc_bitmap : ℕ → ℕ → List ℕ → Option (List ℕ)

unfoldable pub status : Ioctls → Option DriverStatus
status fd = elim (fd.ioc_status (replicate status_size 0)) [
  | none ↦ none
  | some buf ↦ some (unpack_status buf)
]

-- The bitmap's bytes, chunk_sectors and the number of bits.
unfoldable pub read_bitmap : Ioctls → Bool → Option (List ℕ × ℕ × ℕ)
read_bitmap fd clear = elim (status fd) [
  | none ↦ none
  | some st ↦
      let flags = if clear then bm_clear else 0 in
      elim (fd.ioc_bitmap st.bitmap_bytes flags (replicate st.bitmap_bytes 0)) [
        | none ↦ none
        | some bm ↦ some (bm, st.chunk_sectors, st.bitmap_bits)
      ]
]
