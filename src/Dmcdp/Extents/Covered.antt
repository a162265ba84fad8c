-- ===== src/Dmcdp/Extents/Covered.antt =====
-- On the sectors that the extents cover (bitmap_extents of rkcdp/dmcdp.py).
use io_filter_driver_for_lin.Base.{
  ℕ, zero, suc, ◌+◌, ◌-◌, ◌*◌, ◌/◌, ◌%◌, ◌^◌, ◌==◌, ◌≤◌, ◌<◌, ◌≡◌, refl, ap, ◌∙◌, Bool, true, false,
  Option, none, some, List, [], ◌∷◌, ltb, leb, ◌&&◌, ◌||◌, get_elem?, length, arith, inl, inr,
  le_cases,
}
use io_filter_driver_for_lin.Image.{within}
use io_filter_driver_for_lin.Dmcdp.Extents.{
  bitmap_bit, bit_at, next_start, yield_run, extents_loop, bitmap_extents,
}

-- The sector lies in one of the extents.
abbrev pub covered : List (ℕ × ℕ) → ℕ → Bool
covered [] s = false
covered ((off, n) ∷ runs) s = within off n s || covered runs s

get_elem?-some : (bm : List ℕ) (i : ℕ) → i < length bm → (b : ℕ) × (get_elem? bm i ≡ some b)
get_elem?-some [] i h = elim h [ ]
get_elem?-some (b ∷ bm) zero h = (b, refl)
get_elem?-some (b ∷ bm) (suc i) h = get_elem?-some bm i (omega arith)

-- The bits of the bytes one after the other, those of a byte from the least significant on.
abbrev bits_of : List ℕ → List ℕ
bits_of [] = []
bits_of (b ∷ bm) =
    b % 2
    ∷ b / 2 % 2
    ∷ b / 4 % 2
    ∷ b / 8 % 2
    ∷ b / 16 % 2
    ∷ b / 32 % 2
    ∷ b / 64 % 2
    ∷ b / 128 % 2
    ∷ bits_of bm

-- Chunk `c` is one of the `nbits`, and the driver has set its bit: the bitmap is the list of these
-- bits, packed eight to a byte.
abbrev pub dirty : List ℕ → ℕ → ℕ → Bool
dirty bm nbits c = ltb c nbits && elim (get_elem? (bits_of bm) c) [ none ↦ false | some b ↦ b == 1 ]

bits_of-get_elem? :
    (bm : List ℕ) (i b : ℕ)
    → get_elem? bm (i / 8) ≡ some b
    → get_elem? (bits_of bm) i ≡ some (b / 2 ^ (i % 8) % 2)
bits_of-get_elem? [] i b h = cc
bits_of-get_elem? (a ∷ bm) zero b h = ground arith
bits_of-get_elem? (a ∷ bm) (suc zero) b h = ground arith
bits_of-get_elem? (a ∷ bm) (suc (suc zero)) b h = ground arith
bits_of-get_elem? (a ∷ bm) (suc (suc (suc zero))) b h = ground arith
bits_of-get_elem? (a ∷ bm) (suc (suc (suc (suc zero)))) b h = ground arith
bits_of-get_elem? (a ∷ bm) (suc (suc (suc (suc (suc zero))))) b h = ground arith
bits_of-get_elem? (a ∷ bm) (suc (suc (suc (suc (suc (suc zero)))))) b h = ground arith
bits_of-get_elem? (a ∷ bm) (suc (suc (suc (suc (suc (suc (suc zero))))))) b h = ground arith
bits_of-get_elem? (a ∷ bm) (suc (suc (suc (suc (suc (suc (suc (suc i)))))))) b h =
    let up : suc (suc (suc (suc (suc (suc (suc (suc i))))))) / 8 ≡ suc (i / 8) = omega arith in
    let same : suc (suc (suc (suc (suc (suc (suc (suc i))))))) % 8 ≡ i % 8 = omega arith in
    let next : get_elem? bm (i / 8) ≡ some b = rw up at h in rw same (bits_of-get_elem? bm i b next)

bit_at-dirty :
    (bm : List ℕ) (nbits i : ℕ)
    → nbits ≤ 8 * length bm
    → bit_at bm nbits i ≡ some (dirty bm nbits i)
unfolding bit_at bitmap_bit
bit_at-dirty bm nbits i h = elim (le_cases nbits i) [
  | inl past ↦ ground arith
  | inr inside ↦
      let (b, found) = get_elem?-some bm (i / 8) (omega arith) in
      ground (arith, bits_of-get_elem? bm i b found)
]

dirty-past : (bm : List ℕ) (nbits c : ℕ) → nbits ≤ c → dirty bm nbits c ≡ false
dirty-past bm nbits c h = ground arith

row-le : (a c k o : ℕ) → a ≤ c → a * k ≤ c * k + o
row-le a c k o h = grind arith

row-lt : (a c k o : ℕ) → c < a → o < k → c * k + o < a * k
row-lt a c k o h l = grind arith

row-add : (start i k : ℕ) → start ≤ i → start * k + (i - start) * k ≡ i * k
row-add start i k h = grind arith

-- A run of chunks covers a sector of chunk `c` just if `c` lies in it.
run_covers :
    (start i chunk c o : ℕ)
    → start ≤ i
    → o < chunk
    → within (start * chunk) ((i - start) * chunk) (c * chunk + o) ≡ within start (i - start) c
run_covers start i chunk c o h k = ground (
  arith,
  row-le start c chunk o,
  row-lt start c chunk o,
  row-le i c chunk o,
  row-lt i c chunk o,
  row-add start i chunk h,
)

-- The run that is still open at round `i` holds the chunks from its start up to `i`.
abbrev open_run : Option ℕ → ℕ → ℕ → Bool
open_run none i c = false
open_run (some start) i c = leb start c && ltb c i

abbrev StartsBefore : Option ℕ → ℕ → Type 0
StartsBefore none i = Unit {0}
StartsBefore (some start) i = start ≤ i

module _ (bm : List ℕ) (chunk nbits : ℕ) (whole : nbits ≤ 8 * length bm) where
  Covers : Option ℕ → ℕ → List (ℕ × ℕ) → Type 0
  Covers start i runs =
      (c o : ℕ)
      → o < chunk
      → covered runs (c * chunk + o) ≡ (open_run start i c || (leb i c && dirty bm nbits c))

  round-Covers :
      (bit : Bool) (start : Option ℕ) (i : ℕ) (runs : List (ℕ × ℕ))
      → StartsBefore start i
      → dirty bm nbits i ≡ bit
      → Covers (next_start bit start i) (suc i) runs
      → Covers start i (yield_run bit start i chunk runs)
  unfolding Covers next_start yield_run
  round-Covers true none i runs b e h c o k = ground (arith, h c o k)
  round-Covers true (some start) i runs b e h c o k = ground (arith, h c o k)
  round-Covers false none i runs b e h c o k = ground (arith, h c o k)
  round-Covers false (some start) i runs b e h c o k =
      ground (arith, h c o k, run_covers start i chunk c o b k)

  next_start-StartsBefore :
      (bit : Bool) (start : Option ℕ) (i : ℕ)
      → StartsBefore start i
      → StartsBefore (next_start bit start i) (suc i)
  unfolding next_start
  next_start-StartsBefore true none i b = omega arith
  next_start-StartsBefore true (some start) i b = omega arith
  next_start-StartsBefore false none i b = tt
  next_start-StartsBefore false (some start) i b = tt

  next_start-false : (start : Option ℕ) (i : ℕ) → next_start false start i ≡ none
  unfolding next_start
  next_start-false none i = refl
  next_start-false (some start) i = refl

  nothing-Covers : (start : Option ℕ) (i : ℕ) → start ≡ none → nbits < i → Covers start i []
  unfolding Covers
  nothing-Covers none i e h c o k = ground (arith, dirty-past bm nbits c)
  nothing-Covers (some start) i e h c o k = cc

  extents_loop_lem :
      (rounds i : ℕ) (start : Option ℕ)
      → i + rounds ≡ suc nbits
      → StartsBefore start i
      → (nbits < i → start ≡ none)
      → (runs : List (ℕ × ℕ)) × (extents_loop bm chunk nbits rounds i start ≡ some runs)
        × Covers start i runs
  unfolding extents_loop
  extents_loop_lem zero i start e b n =
      ([], refl, nothing-Covers start i (n (omega arith)) (omega arith))
  extents_loop_lem (suc rounds) i start e b n =
      let bit = dirty bm nbits i in
      let start' = next_start bit start i in
      let closed : nbits < suc i → start' ≡ none = λ h.
        ap (λ t. next_start t start i) (dirty-past bm nbits i (omega arith))
        ∙ next_start-false start i in
      let (runs, found, covers) =
        extents_loop_lem rounds (suc i) start' (omega arith) (next_start-StartsBefore bit start i b)
          closed in
      (
        yield_run bit start i chunk runs,
        ground (arith, bit_at-dirty bm nbits i whole, found),
        round-Covers bit start i runs b refl covers,
      )

  -- Of a bitmap that has a bit for each of the `nbits` chunks the loop raises nothing, and the
  -- extents that it yields cover a sector just if the bit of the sector's chunk is set: recovery
  -- re-reads all that is dirty and nothing else.
  pub bitmap_extents-covered :
      (es : List (ℕ × ℕ)) × (bitmap_extents bm chunk nbits ≡ some es)
      × ((c o : ℕ) → o < chunk → covered es (c * chunk + o) ≡ dirty bm nbits c)
  unfolding bitmap_extents Covers
  bitmap_extents-covered =
      let (es, found, covers) = extents_loop_lem (suc nbits) 0 none (omega arith) tt (λ h. refl) in
      (es, found, λ c o k. ground (arith, covers c o k))
