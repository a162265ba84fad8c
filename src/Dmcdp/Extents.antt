-- ===== src/Dmcdp/Extents.antt =====
-- bitmap_extents of rkcdp/dmcdp.py: the runs of set bits of the driver's dirty bitmap.
pub mod Covered
use io_filter_driver_for_lin.Base.{
  ℕ, zero, suc, ◌+◌, ◌-◌, ◌*◌, ◌/◌, ◌%◌, ◌^◌, Bool, true, false, Option, none, some, List, [], ◌∷◌,
  ltb, ◌==◌, if◌then◌else◌, get_elem?,
}

-- (bm[i >> 3] >> (i & 7)) & 1; `none` is the IndexError.
unfoldable pub bitmap_bit : List ℕ → ℕ → Option Bool
bitmap_bit bm i = elim (get_elem? bm (i / 8)) [
  | none ↦ none
  | some byte ↦ some (byte / 2 ^ (i % 8) % 2 == 1)
]

-- bit = i < nbits and …
unfoldable pub bit_at : List ℕ → ℕ → ℕ → Option Bool
bit_at bm nbits i = if ltb i nbits then bitmap_bit bm i else some false

-- `start` after the round at `i`
unfoldable pub next_start : Bool → Option ℕ → ℕ → Option ℕ
next_start true none i = some i
next_start true (some start) i = some start
next_start false start i = none

-- What the round at `i` yields, in front of what the later rounds yield.
unfoldable pub yield_run : Bool → Option ℕ → ℕ → ℕ → List (ℕ × ℕ) → List (ℕ × ℕ)
yield_run false (some start) i chunk_sectors runs =
    (start * chunk_sectors, (i - start) * chunk_sectors) ∷ runs
yield_run bit start i chunk_sectors runs = runs

-- The rounds from `i` on; `none` where one of them raises.
unfoldable pub extents_loop : List ℕ → ℕ → ℕ → ℕ → ℕ → Option ℕ → Option (List (ℕ × ℕ))
extents_loop bm chunk_sectors nbits zero i start = some []
extents_loop bm chunk_sectors nbits (suc rounds) i start = elim (bit_at bm nbits i) [
  | none ↦ none
  | some bit ↦ elim (extents_loop bm chunk_sectors nbits rounds (suc i) (next_start bit start i)) [
    | none ↦ none
    | some runs ↦ some (yield_run bit start i chunk_sectors runs)
  ]
]

-- list(bitmap_extents(bm, chunk_sectors, nbits))
unfoldable pub bitmap_extents : List ℕ → ℕ → ℕ → Option (List (ℕ × ℕ))
bitmap_extents bm chunk_sectors nbits = extents_loop bm chunk_sectors nbits (suc nbits) 0 none
