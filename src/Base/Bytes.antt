-- ===== src/Base/Bytes.antt =====
-- Little-endian fields, as Python's `struct` reads and writes them under "<", and byte strings.
use Prim.Native.Nat.{ℕ, zero, suc, ◌+◌, ◌*◌, ◌/◌, ◌%◌, ◌^◌, ◌<◌}
use mathlib.Core.Path.{◌≡◌, refl, ap}
use mathlib.Core.List.{List, [], ◌∷◌}
use native.Mathlib.Omega.{arith}
use native.Mathlib.Nat.{pow-suc}
use io_filter_driver_for_lin.Base.Lists.{length}

-- The number that little-endian bytes stand for.
abbrev pub le : List ℕ → ℕ
le [] = 0
le (b ∷ bs) = b + 256 * le bs

-- The `w` little-endian bytes of a number.
abbrev pub le_bytes : ℕ → ℕ → List ℕ
le_bytes zero v = []
le_bytes (suc w) v = (v % 256) ∷ le_bytes w (v / 256)

pub le-le_bytes : (w v : ℕ) → v < 256 ^ w → le (le_bytes w v) ≡ v
le-le_bytes zero v h = omega arith
le-le_bytes (suc w) v h = omega (arith, le-le_bytes w (v / 256) (omega (arith, pow-suc 256 w)))

pub length-le_bytes : (w v : ℕ) → length (le_bytes w v) ≡ w
length-le_bytes zero v = refl
length-le_bytes (suc w) v = ap suc (length-le_bytes w (v / 256))
