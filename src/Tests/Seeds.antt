-- ===== src/Tests/Seeds.antt =====
-- The theorems on the seed layer and the replica, applied to a disk of one chunk.
use io_filter_driver_for_lin.Base.{
  ℕ, ◌/◌, ◌<◌, ◌≡◌, refl, true, false, some, [], ◌∷◌, arith, if◌then◌else◌, ◌==◌,
}
use io_filter_driver_for_lin.Image.{Image}
use io_filter_driver_for_lin.Rkcdpd.SeedLayer.{SeedLayer, seed_chunk, is_saved, preserve}
use io_filter_driver_for_lin.Rkcdpd.SeedLayer.Bitmap.{bit_set}
use io_filter_driver_for_lin.Rkcdpd.SeedLayer.Preserve.{IsSeedOf, preserve-IsSeedOf}
use io_filter_driver_for_lin.Rkcdpd.Replica.{Replica, replica_write}
use io_filter_driver_for_lin.Rkcdpd.Replica.Effect.{effect, replica_write_logged}
use io_filter_driver_for_lin.Tests.{punching, punching-PunchesZeros, blank, sevens, two_bytes}

abbrev pub one_chunk : Image → ℕ → SeedLayer
one_chunk fd bits = record { size = 65536; fd = fd; nchunks = 1; saved = bits ∷ [] }

unsaved : (fd : Image) (i : ℕ) → i < 65536 → is_saved (one_chunk fd 0) (i / seed_chunk) ≡ false
unfolding is_saved bit_set
unsaved fd i h = let first : i / seed_chunk ≡ 0 = omega arith in rw first

pub is_saved_one :
    (fd : Image) (i : ℕ) → i < 65536 → is_saved (one_chunk fd 1) (i / seed_chunk) ≡ true
unfolding is_saved bit_set
is_saved_one fd i h = let first : i / seed_chunk ≡ 0 = omega arith in rw first

untouched-IsSeedOf : IsSeedOf sevens sevens (one_chunk blank 0)
untouched-IsSeedOf = record {
  bitmap = record { bytes = (omega arith, tt); room = omega arith };
  chunks = refl;
  holds = λ i h. (λ s. cc (unsaved blank i h), λ s. (refl, refl));
}

abbrev overwritten : Image
overwritten i = if i == 0 then 5 else 7

preserve-IsSeedOf_example : IsSeedOf sevens overwritten (preserve sevens 0 1 (one_chunk blank 0))
preserve-IsSeedOf_example =
    preserve-IsSeedOf sevens sevens overwritten 0 1 (one_chunk blank 0) untouched-IsSeedOf
      (λ i out. ground arith)

abbrev seeded_replica : Replica
seeded_replica = record { fd = sevens; seed = some (one_chunk blank 0); punch_ok = true }

replica_write_logged_example :
    ((replica_write punching two_bytes seeded_replica).fd 1 ≡ effect two_bytes sevens 1)
    × ((flags : ℕ)
        → (replica_write punching
              (record two_bytes.0 { flags = flags }, two_bytes.1)
              seeded_replica).fd
            1
          ≡ effect two_bytes sevens 1)
replica_write_logged_example =
    replica_write_logged punching punching-PunchesZeros two_bytes seeded_replica sevens 1
      (λ j. refl) refl
