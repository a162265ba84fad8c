-- ===== src/Dmcdp.antt =====
-- rkcdp/dmcdp.py: the records of the dm-cdp ring as bytes, and the loop that reads them.
-- `struct` is the Python library's: "<IHHIIQQIIQQ" is little-endian fields with no padding.
pub mod Scan
pub mod Stream
pub mod Loop
pub mod Records
pub mod RoundTrip
pub mod Cut
pub mod Extents
pub mod Driver
use io_filter_driver_for_lin.Base.{
  ℕ, zero, suc, ◌+◌, ◌-◌, ◌*◌, ◌/◌, ◌^◌, Bool, true, false, ◌&&◌, Option, none, some, List, [], ◌∷◌,
  ◌++◌, leb, ltb, ◌==◌, if◌then◌else◌, length, take, drop, replicate, le, le_bytes,
}

abbrev pub rec_magic : ℕ
rec_magic = 0x52504443

abbrev pub abi_version : ℕ
abi_version = 1

abbrev pub rec_write : ℕ
rec_write = 1

abbrev pub rec_flush : ℕ
rec_flush = 2

abbrev pub rec_discard : ℕ
rec_discard = 3

abbrev pub rec_zero : ℕ
rec_zero = 4

abbrev pub f_error : ℕ
f_error = 4

abbrev pub f_gap_before : ℕ
f_gap_before = 8

abbrev pub rec_size : ℕ
rec_size = 56

pub record Rec : Type 0 where
  pub magic : ℕ
  pub version : ℕ
  pub type : ℕ
  pub flags : ℕ
  pub state : ℕ
  pub seq : ℕ
  pub sector : ℕ
  pub len : ℕ
  pub rec_len : ℕ
  pub ts_ns : ℕ
  pub reserved : ℕ

-- A record and its payload, as the generator yields them.
abbrev pub Item : Type 0
Item = Rec × List ℕ

-- The field of `w` bytes at offset `k`.
abbrev field : ℕ → ℕ → List ℕ → ℕ
field w k buf = le (take w (drop k buf))

-- struct.unpack_from(REC_FMT, buf, off), where `rest` is buf from `off` on
pub unpack_rec : List ℕ → Rec
unpack_rec rest = record {
  magic = field 4 0 rest;
  version = field 2 4 rest;
  type = field 2 6 rest;
  flags = field 4 8 rest;
  state = field 4 12 rest;
  seq = field 8 16 rest;
  sector = field 8 24 rest;
  len = field 4 32 rest;
  rec_len = field 4 36 rest;
  ts_ns = field 8 40 rest;
  reserved = field 8 48 rest;
}

-- Rec.__init__: `none` is the ValueError.
unfoldable pub rec_init : List ℕ → Option Rec
unfolding unpack_rec
rec_init rest = let r = unpack_rec rest in if r.magic == rec_magic then some r else none

-- struct.error, where a value does not fit its field
pack_fits : ℕ → ℕ → ℕ → ℕ → ℕ → ℕ → ℕ → Bool
pack_fits rtype flags seq sector length rec_len ts_ns =
    ltb rtype (2 ^ 16)
    && ltb flags (2 ^ 32)
    && ltb seq (2 ^ 64)
    && ltb sector (2 ^ 64)
    && ltb length (2 ^ 32)
    && ltb rec_len (2 ^ 32)
    && ltb ts_ns (2 ^ 64)

-- (REC_SIZE + len(payload) + 7) & ~7
abbrev pub padded_len : ℕ → ℕ
padded_len n = (rec_size + n + 7) / 8 * 8

unfoldable pub pack_rec : ℕ → ℕ → ℕ → ℕ → ℕ → ℕ → List ℕ → Option (List ℕ)
unfolding pack_fits
pack_rec rtype flags seq sector len ts_ns payload =
    let rec_len = padded_len (length payload) in
    if pack_fits rtype flags seq sector len rec_len ts_ns
    then some (
        le_bytes 4 rec_magic
        ++ (le_bytes 2 abi_version
            ++ (le_bytes 2 rtype
                ++ (le_bytes 4 flags
                    ++ (le_bytes 4 2
                        ++ (le_bytes 8 seq
                            ++ (le_bytes 8 sector
                                ++ (le_bytes 4 len
                                    ++ (le_bytes 4 rec_len
                                        ++ (le_bytes 8 ts_ns
                                            ++ (le_bytes 8 0
                                                ++ (payload
                                                    ++ replicate
                                                        (rec_len - rec_size - length payload)
                                                        0))))))))))))
    else none

-- How the generator ends: `return off`, the ValueError of a header at `off`, or, where a record
-- claims no length, not at all.
pub data Outcome : Type 0 where
  done : ℕ → Outcome
  bad_magic : ℕ → Outcome
  spins : Outcome

-- mv[off + REC_SIZE : off + REC_SIZE + (r.len if r.type == REC_WRITE else 0)]
pub payload : Rec → List ℕ → List ℕ
payload r rest = take (if r.type == rec_write then r.len else 0) (drop rec_size rest)

abbrev pub yields : Item → List Item × Outcome → List Item × Outcome
yields x more = (x ∷ more.0, more.1)

-- The loop at `off`, where `rest` is buf from `off` on.
unfoldable pub iter_loop : ℕ → ℕ → List ℕ → List Item × Outcome
iter_loop zero off rest = ([], spins)
iter_loop (suc fuel) off rest = elim (leb rec_size (length rest)) [
  | false ↦ ([], done off)
  | true ↦ elim (rec_init rest) [
    | none ↦ ([], bad_magic off)
    | some r ↦ elim (ltb (length rest) r.rec_len) [
      | true ↦ ([], done off)
      | false ↦ yields (r, payload r rest) (iter_loop fuel (off + r.rec_len) (drop r.rec_len rest))
    ]
  ]
]

-- Each round that goes on takes a byte at least, or the generator never ends.
unfoldable pub iter_records : List ℕ → List Item × Outcome
iter_records buf = iter_loop (suc (length buf)) 0 buf
