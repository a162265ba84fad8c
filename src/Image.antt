-- ===== src/Image.antt =====
-- The bytes of a file or a block device: os.pread and os.pwrite, as rkcdp/*.py use them on
-- replica.raw, seed.raw and the disk. All three have the size of the disk and are accessed below
-- it only; a byte that was never written reads as 0.
use native.Mathlib.Nat.{add-zero, add-suc, suc-add}
use io_filter_driver_for_lin.Base.{
  ℕ, zero, suc, ◌+◌, ◌-◌, ◌<◌, ◌≡◌, refl, List, [], ◌∷◌, arith, leb, ltb, ◌&&◌, if◌then◌else◌,
  length, get_or, get_or-out, replicate, length-replicate, Bool, true, false, ◌||◌, not, ◌==◌,
}

abbrev pub Image : Type 0
Image = ℕ → ℕ

abbrev pub within : ℕ → ℕ → ℕ → Bool
within off n i = leb off i && ltb i (off + n)

unfoldable pub pwrite : List ℕ → ℕ → Image → Image
pwrite buf off img i = if leb off i then get_or buf (i - off) (img i) else img i

unfoldable pub pread : ℕ → ℕ → Image → List ℕ
pread zero off img = []
pread (suc n) off img = img off ∷ pread n (suc off) img

-- Python's `any` over bytes.
unfoldable pub any : List ℕ → Bool
any [] = false
any (b ∷ bs) = let rest = any bs in not (b == 0) || rest

pub length-pread : (n off : ℕ) (img : Image) → length (pread n off img) ≡ n
unfolding pread
length-pread zero off img = refl
length-pread (suc n) off img = omega (arith, length-pread n (suc off) img)

pub pwrite-out :
    (buf : List ℕ) (off : ℕ) (img : Image) (i : ℕ)
    → within off (length buf) i ≡ false
    → pwrite buf off img i ≡ img i
unfolding pwrite
pwrite-out buf off img i h = ground (arith, get_or-out buf (i - off) (img i))

get_or-pread :
    (n off k : ℕ) (img : Image) (d : ℕ) → k < n → get_or (pread n off img) k d ≡ img (off + k)
unfolding pread
get_or-pread zero off k img d h = elim h [ ]
get_or-pread (suc n) off zero img d h = rw add-zero
get_or-pread (suc n) off (suc k) img d h =
    rw (add-suc, ← suc-add) (get_or-pread n (suc off) k img d (omega arith))

-- Writing what was read at an offset copies the range and touches nothing else.
pub pwrite-pread :
    (n off : ℕ) (src img : Image) (i : ℕ)
    → pwrite (pread n off src) off img i ≡ (if within off n i then src i else img i)
unfolding pwrite
pwrite-pread n off src img i = ground (
  arith,
  get_or-pread n off (i - off) src (img i),
  get_or-out (pread n off src) (i - off) (img i),
  length-pread n off src,
)

get_or-replicate : (n k d : ℕ) → k < n → get_or (replicate n 0) k d ≡ 0
get_or-replicate zero k d h = elim h [ ]
get_or-replicate (suc n) zero d h = refl
get_or-replicate (suc n) (suc k) d h = get_or-replicate n k d (omega arith)

pub pwrite-replicate :
    (n off : ℕ) (img : Image) (i : ℕ)
    → pwrite (replicate n 0) off img i ≡ (if within off n i then 0 else img i)
unfolding pwrite
pwrite-replicate n off img i = ground (
  arith,
  get_or-replicate n (i - off) (img i),
  get_or-out (replicate n 0) (i - off) (img i),
  length-replicate n zero,
)

pub pread-zero :
    (n off : ℕ) (img : Image) (i : ℕ)
    → any (pread n off img) ≡ false
    → within off n i ≡ true
    → img i ≡ 0
unfolding pread any
pread-zero zero off img i h w = ground arith
pread-zero (suc n) off img i h w = ground (arith, pread-zero n (suc off) img i)
