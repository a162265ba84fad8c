-- ===== src/Rkcdpd/SeedLayer/Preserve.antt =====
-- On SeedLayer.preserve of rkcdp/rkcdpd.py and the content of the seed point.
use io_filter_driver_for_lin.Base.{
  ℕ, zero, suc, ◌+◌, ◌-◌, ◌*◌, ◌/◌, ◌≤◌, ◌<◌, ◌≡◌, inl, inr, refl, true, false, if◌then◌else◌, min,
  arith, Bool-cases, ◌==◌, ◌&&◌, ◌||◌, ◌∙◌, le_cases,
}
use io_filter_driver_for_lin.Image.{Image, pread, any, within, pwrite-pread, pread-zero}
use io_filter_driver_for_lin.Rkcdpd.SeedLayer.{
  SeedLayer, seed_chunk, chunks_of, is_saved, preserve_chunk, preserve_loop, preserve,
}
use io_filter_driver_for_lin.Rkcdpd.SeedLayer.Bitmap.{IsBitmap, set_bit-IsBitmap, bit_set-set_bit}

-- What the layer holds of byte `i`: once its chunk is saved, the seed-time byte; until then the
-- replica itself still has that byte, and seed.raw a hole.
abbrev pub Holds : Image → Image → SeedLayer → ℕ → Type 0
Holds seeded replica l i =
    (is_saved l (i / seed_chunk) ≡ true → l.fd i ≡ seeded i)
    × (is_saved l (i / seed_chunk) ≡ false → (replica i ≡ seeded i) × (l.fd i ≡ 0))

-- Layer and replica together still determine the disk of the seed point.
pub record IsSeedOf (seeded replica : Image) (l : SeedLayer) : Type 0 where
  pub bitmap : IsBitmap l.saved l.nchunks
  pub chunks : l.nchunks ≡ chunks_of l.size
  pub holds : (i : ℕ) → i < l.size → Holds seeded replica l i

is_saved-preserve_chunk :
    (replica : Image) (c d : ℕ) (l : SeedLayer)
    → IsBitmap l.saved l.nchunks
    → c < l.nchunks
    → is_saved (preserve_chunk replica c l) d ≡ (if c == d then true else is_saved l d)
unfolding preserve_chunk is_saved
is_saved-preserve_chunk replica c d l v h =
    ground (arith, bit_set-set_bit l.saved l.nchunks c v h d)

-- A chunk that was not saved is copied to seed.raw, or is all zeros and left a hole there.
fd-preserve_chunk :
    (replica : Image) (c i : ℕ) (l : SeedLayer)
    → is_saved l c ≡ false
    → let o = c * seed_chunk in
      let n = min seed_chunk (l.size - o) in
      (preserve_chunk replica c l).fd i
      ≡ (if within o n i && any (pread n o replica) then replica i else l.fd i)
unfolding preserve_chunk
fd-preserve_chunk replica c i l h =
    let o = c * seed_chunk in
    let n = min seed_chunk (l.size - o) in ground (arith, pwrite-pread n o replica l.fd i)

fd-preserve_chunk_saved :
    (replica : Image) (c : ℕ) (l : SeedLayer) → is_saved l c ≡ true → preserve_chunk replica c l ≡ l
unfolding preserve_chunk
fd-preserve_chunk_saved replica c l h = rw h

module _ (seeded replica : Image) (c : ℕ) (l : SeedLayer) where
  preserve_chunk-Holds_new :
      (i : ℕ)
      → IsBitmap l.saved l.nchunks
      → c < l.nchunks
      → i < l.size
      → is_saved l c ≡ false
      → Holds seeded replica l i
      → Holds seeded replica (preserve_chunk replica c l) i
  preserve_chunk-Holds_new i v h k new p =
      let o = c * seed_chunk in
      let n = min seed_chunk (l.size - o) in
      ground (
        arith,
        is_saved-preserve_chunk replica c (i / seed_chunk) l v h,
        fd-preserve_chunk replica c i l new,
        pread-zero n o replica i,
      )

  preserve_chunk-Holds :
      (i : ℕ)
      → IsBitmap l.saved l.nchunks
      → c < l.nchunks
      → i < l.size
      → Holds seeded replica l i
      → Holds seeded replica (preserve_chunk replica c l) i
  preserve_chunk-Holds i v h k p = elim (Bool-cases (is_saved l c)) [
    | inl old ↦ rw (fd-preserve_chunk_saved replica c l old) p
    | inr new ↦ preserve_chunk-Holds_new i v h k new p
  ]

abbrev Same : SeedLayer → SeedLayer → Type 0
Same l m = (m.size ≡ l.size) × (m.nchunks ≡ l.nchunks)

preserve_chunk-Same :
    (replica : Image) (c : ℕ) (l : SeedLayer) → Same l (preserve_chunk replica c l)
unfolding preserve_chunk
preserve_chunk-Same replica c l = ground arith

preserve_chunk-IsBitmap :
    (replica : Image) (c : ℕ) (l : SeedLayer)
    → c < l.nchunks
    → IsBitmap l.saved l.nchunks
    → IsBitmap (preserve_chunk replica c l).saved l.nchunks
unfolding preserve_chunk
preserve_chunk-IsBitmap replica c l h v = elim (Bool-cases (is_saved l c)) [
  | inl old ↦ rw old v
  | inr new ↦ rw new (set_bit-IsBitmap l.saved l.nchunks c v h)
]

preserve_chunk-IsSeedOf :
    (seeded replica : Image) (c : ℕ) (l : SeedLayer)
    → c < l.nchunks
    → IsSeedOf seeded replica l
    → IsSeedOf seeded replica (preserve_chunk replica c l)
preserve_chunk-IsSeedOf seeded replica c l h p =
    let (size, nchunks) = preserve_chunk-Same replica c l in
    record {
      bitmap = rw nchunks (preserve_chunk-IsBitmap replica c l h p.bitmap);
      chunks = rw (nchunks, size) p.chunks;
      holds = λ i k.
          let k' : i < l.size = rw size at k in
          preserve_chunk-Holds seeded replica c l i p.bitmap h k' (p.holds i k');
    }

-- The loop saves the chunks of its range, keeps what was saved, and keeps the layer sound.
preserve_loop_lem :
    (seeded replica : Image) (count c : ℕ) (l : SeedLayer)
    → c + count ≤ l.nchunks
    → IsSeedOf seeded replica l
    → IsSeedOf seeded replica (preserve_loop replica count c l)
      × Same l (preserve_loop replica count c l)
      × ((d : ℕ)
          → is_saved (preserve_loop replica count c l) d ≡ (within c count d || is_saved l d))
unfolding preserve_loop
preserve_loop_lem seeded replica zero c l h p = (p, (refl, refl), λ d. ground arith)
preserve_loop_lem seeded replica (suc count) c l h p =
    let first = preserve_chunk replica c l in
    let (size, nchunks) = preserve_chunk-Same replica c l in
    let (sound, (size', nchunks'), saved) =
      preserve_loop_lem seeded replica count (suc c) first (omega arith)
        (preserve_chunk-IsSeedOf seeded replica c l (omega arith) p) in
    (
      sound,
      (size' ∙ size, nchunks' ∙ nchunks),
      λ d. ground (arith, saved d, is_saved-preserve_chunk replica c d l p.bitmap (omega arith)),
    )

preserve_lem :
    (seeded replica : Image) (off len : ℕ) (l : SeedLayer)
    → IsSeedOf seeded replica l
    → IsSeedOf seeded replica (preserve replica off len l)
      × Same l (preserve replica off len l)
      × ((i : ℕ)
          → i < l.size
          → within off len i ≡ true
          → is_saved (preserve replica off len l) (i / seed_chunk) ≡ true)
unfolding preserve
preserve_lem seeded replica off len l p =
    let c0 = off / seed_chunk in
    let c1 = chunks_of (off + len) in
    let count = min c1 l.nchunks - c0 in
    elim (le_cases (c0 + count) l.nchunks) [
      | inl fits ↦
          let (sound, same, saved) = preserve_loop_lem seeded replica count c0 l fits p in
          (sound, same, λ i k w. ground (arith, saved (i / seed_chunk), p.chunks))
      | inr past ↦
          let none_left : count ≡ 0 = omega arith in
          rw none_left
            (unfold preserve_loop in (p, (refl, refl), λ i k w. absurd (ground (arith, p.chunks))))
    ]

-- Before bytes of the replica are overwritten, `preserve` saves the seed-time content of their
-- chunks: whatever is then written within [off, off + len), layer and replica together still
-- determine the disk of the seed point.
pub preserve-IsSeedOf :
    (seeded replica replica' : Image) (off len : ℕ) (l : SeedLayer)
    → IsSeedOf seeded replica l
    → ((i : ℕ) → within off len i ≡ false → replica' i ≡ replica i)
    → IsSeedOf seeded replica' (preserve replica off len l)
preserve-IsSeedOf seeded replica replica' off len l p outside =
    let (sound, (size, nchunks), saved) = preserve_lem seeded replica off len l p in
    record {
      bitmap = sound.bitmap;
      chunks = sound.chunks;
      holds = λ i k. ground (
        arith,
        sound.holds i k,
        outside i,
        saved i (rw size at k),
        Bool-cases (within off len i),
      );
    }
