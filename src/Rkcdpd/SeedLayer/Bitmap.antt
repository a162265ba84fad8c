-- ===== src/Rkcdpd/SeedLayer/Bitmap.antt =====
-- The bytearray `saved` of SeedLayer (rkcdp/rkcdpd.py), one bit a chunk.
use io_filter_driver_for_lin.Base.{
  ℕ, zero, suc, ◌*◌, ◌/◌, ◌%◌, ◌^◌, ◌≤◌, ◌<◌, ◌≡◌, refl, List, [], ◌∷◌, arith, ltb, ◌&&◌,
  if◌then◌else◌, length, get_or, set, Bool, true, false, not, ◌==◌, bit_and, bit_or, All, ltb→lt,
  length-set,
}

-- saved[c >> 3] & (1 << (c & 7)), as a truth value
unfoldable pub bit_set : List ℕ → ℕ → Bool
bit_set saved c = not (bit_and (get_or saved (c / 8) 0) (2 ^ (c % 8)) == 0)

-- saved[c >> 3] |= 1 << (c & 7)
unfoldable pub set_bit : List ℕ → ℕ → List ℕ
set_bit saved c = set saved (c / 8) (bit_or (get_or saved (c / 8) 0) (2 ^ (c % 8)))

abbrev IsByte : ℕ → Type 0
IsByte b = b < 256

abbrev test : ℕ → ℕ → Bool
test b j = not (bit_and b (2 ^ j) == 0)

abbrev bool_eq : Bool → Bool → Bool
bool_eq true x = x
bool_eq false x = not x

each_below : (ℕ → Bool) → ℕ → Bool
each_below test_of zero = true
each_below test_of (suc bound) = each_below test_of bound && test_of bound

below-each_below :
    (test_of : ℕ → Bool) (bound k : ℕ)
    → k < bound
    → each_below test_of bound ≡ true
    → test_of k ≡ true
unfolding each_below
below-each_below test_of zero k l e = elim l [ ]
below-each_below test_of (suc bound) k l e = ground (arith, below-each_below test_of bound k)

abbrev bit_law : ℕ → ℕ → ℕ → Bool
bit_law b k j =
    ltb (bit_or b (2 ^ k)) 256
    && bool_eq (test (bit_or b (2 ^ k)) j) (if k == j then true else test b j)

bits_table : each_below (λ b. each_below (λ k. each_below (λ j. bit_law b k j) 8) 8) 256 ≡ true
unfolding each_below
bits_table = refl

bits_lem : (b k j : ℕ) → b < 256 → k < 8 → j < 8 → bit_law b k j ≡ true
bits_lem b k j hb hk hj =
    let row =
      below-each_below (λ b. each_below (λ k. each_below (λ j. bit_law b k j) 8) 8) 256 b hb
        bits_table in
    below-each_below (λ j. bit_law b k j) 8 j hj
      (below-each_below (λ k. each_below (λ j. bit_law b k j) 8) 8 k hk row)

and_parts : (x y : Bool) → (x && y) ≡ true → (x ≡ true) × (y ≡ true)
and_parts true y h = (refl, h)
and_parts false y h = cc

bool_eq→eq : (x y : Bool) → bool_eq x y ≡ true → x ≡ y
bool_eq→eq true y h = ground arith
bool_eq→eq false y h = ground arith

or_byte : (b k : ℕ) → b < 256 → k < 8 → bit_or b (2 ^ k) < 256
or_byte b k hb hk =
    ltb→lt (bit_or b (2 ^ k)) 256 (and_parts _ _ (bits_lem b k 0 hb hk (omega arith))).0

test-or :
    (b k j : ℕ)
    → b < 256
    → k < 8
    → j < 8
    → test (bit_or b (2 ^ k)) j ≡ (if k == j then true else test b j)
test-or b k j hb hk hj = bool_eq→eq _ _ (and_parts _ _ (bits_lem b k j hb hk hj)).1

All-get_or : (xs : List ℕ) (i : ℕ) → All IsByte xs → get_or xs i 0 < 256
All-get_or [] i h = omega arith
All-get_or (x ∷ xs) zero h = h.0
All-get_or (x ∷ xs) (suc i) h = All-get_or xs i h.1

All-set : (xs : List ℕ) (i v : ℕ) → v < 256 → All IsByte xs → All IsByte (set xs i v)
All-set [] i v hv h = h
All-set (x ∷ xs) zero v hv h = (hv, h.1)
All-set (x ∷ xs) (suc i) v hv h = (h.0, All-set xs i v hv h.1)

get_or-set :
    (xs : List ℕ) (i j v : ℕ)
    → i < length xs
    → get_or (set xs i v) j 0 ≡ (if i == j then v else get_or xs j 0)
get_or-set [] i j v h = elim h [ ]
get_or-set (x ∷ xs) zero zero v h = refl
get_or-set (x ∷ xs) zero (suc j) v h = ground arith
get_or-set (x ∷ xs) (suc i) zero v h = ground arith
get_or-set (x ∷ xs) (suc i) (suc j) v h = ground (arith, get_or-set xs i j v (omega arith))

-- The bitmap of `n` chunks has room for them, and bytes for entries.
pub record IsBitmap (saved : List ℕ) (n : ℕ) : Type 0 where
  pub bytes : All (λ b. b < 256) saved
  pub room : n ≤ 8 * length saved

module _ (saved : List ℕ) (n c : ℕ) (v : IsBitmap saved n) (h : c < n) where
  pub set_bit-IsBitmap : IsBitmap (set_bit saved c) n
  unfolding set_bit
  set_bit-IsBitmap = record {
    bytes =
        All-set saved (c / 8) _ (or_byte _ (c % 8) (All-get_or saved (c / 8) v.bytes) (omega arith))
          v.bytes;
    room =
        omega
          (arith, v.room, length-set saved (c / 8) (bit_or (get_or saved (c / 8) 0) (2 ^ (c % 8))));
  }

  -- Setting the bit of a chunk sets it, and leaves the bit of every other chunk.
  pub bit_set-set_bit :
      (d : ℕ) → bit_set (set_bit saved c) d ≡ (if c == d then true else bit_set saved d)
  unfolding set_bit bit_set
  bit_set-set_bit d =
      let here : c / 8 < length saved = omega (arith, v.room) in
      let byte = All-get_or saved (c / 8) v.bytes in
      let law = test-or (get_or saved (c / 8) 0) (c % 8) (d % 8) byte (omega arith) (omega arith) in
      let after =
        get_or-set saved (c / 8) (d / 8) (bit_or (get_or saved (c / 8) 0) (2 ^ (c % 8))) here in
      ground (arith, law, after)
