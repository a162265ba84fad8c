-- ===== src/Rkcdpd/SeedLayer.antt =====
-- class SeedLayer of rkcdp/rkcdpd.py: seed.raw keeps, for every chunk that changed since the seed
-- point, what that chunk held at the seed point (copy on first write).
pub mod Bitmap
pub mod Preserve
use io_filter_driver_for_lin.Base.{
  ℕ, zero, suc, ◌+◌, ◌-◌, ◌*◌, ◌/◌, List, [], ◌∷◌, Bool, true, false, if◌then◌else◌, min, replicate,
  Option, none, some, leb,
}
use io_filter_driver_for_lin.Image.{Image, pread, pwrite, any}
use io_filter_driver_for_lin.Rkcdpd.SeedLayer.Bitmap.{bit_set, set_bit}

abbrev pub seed_chunk : ℕ
seed_chunk = 65536

pub record SeedLayer : Type 0 where
  pub size : ℕ
  pub fd : Image
  pub nchunks : ℕ
  pub saved : List ℕ

-- (n + SEED_CHUNK - 1) // SEED_CHUNK
abbrev pub chunks_of : ℕ → ℕ
chunks_of n = (n + seed_chunk - 1) / seed_chunk

-- The loop of data_regions over os.lseek(fd, off, SEEK_DATA), `none` for its OSError (no data from
-- `off` on), and os.lseek(fd, d, SEEK_HOLE).
unfoldable pub data_regions : (ℕ → Option ℕ) → (ℕ → ℕ) → ℕ → ℕ → ℕ → List (ℕ × ℕ)
data_regions seek_data seek_hole zero off size = []
data_regions seek_data seek_hole (suc fuel) off size = elim (leb size off) [
  | true ↦ []
  | false ↦ elim (seek_data off) [
    | none ↦ []
    | some d ↦ elim (leb size d) [
      | true ↦ []
      | false ↦ (d, seek_hole d - d) ∷ data_regions seek_data seek_hole fuel (seek_hole d) size
    ]
  ]
]

-- for c in range(c, c + count): self.saved[c >> 3] |= 1 << (c & 7)
unfoldable pub mark_range : ℕ → ℕ → List ℕ → List ℕ
mark_range zero c saved = saved
mark_range (suc count) c saved = mark_range count (suc c) (set_bit saved c)

unfoldable pub mark_regions : List (ℕ × ℕ) → List ℕ → List ℕ
unfolding mark_range
mark_regions [] saved = saved
mark_regions ((off, len) ∷ regions) saved =
    mark_regions regions
      (mark_range (chunks_of (off + len) - off / seed_chunk) (off / seed_chunk) saved)

-- __init__, for a seed.raw with the given regions of data
unfoldable pub open_seed : List (ℕ × ℕ) → Image → ℕ → SeedLayer
unfolding mark_regions
open_seed regions fd size = record {
  size = size;
  fd = fd;
  nchunks = chunks_of size;
  saved = mark_regions regions (replicate ((chunks_of size + 7) / 8) 0);
}

unfoldable pub is_saved : SeedLayer → ℕ → Bool
is_saved l c = bit_set l.saved c

-- The body of the loop of `preserve`; a chunk of zeros is not written.
unfoldable pub preserve_chunk : Image → ℕ → SeedLayer → SeedLayer
preserve_chunk replica c l =
    if is_saved l c
    then l
    else (let o = c * seed_chunk in
        let old = pread (min seed_chunk (l.size - o)) o replica in
        record l { fd = if any old then pwrite old o l.fd else l.fd; saved = set_bit l.saved c })

-- for c in range(c, c + count)
unfoldable pub preserve_loop : Image → ℕ → ℕ → SeedLayer → SeedLayer
preserve_loop replica zero c l = l
preserve_loop replica (suc count) c l =
    preserve_loop replica count (suc c) (preserve_chunk replica c l)

unfoldable pub preserve : Image → ℕ → ℕ → SeedLayer → SeedLayer
preserve replica off length l =
    let c0 = off / seed_chunk in
    let c1 = chunks_of (off + length) in preserve_loop replica (min c1 l.nchunks - c0) c0 l
