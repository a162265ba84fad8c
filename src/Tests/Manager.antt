-- ===== src/Tests/Manager.antt =====
-- The theorems on a rebuild, applied to one node.
use io_filter_driver_for_lin.Base.{
  ℕ, suc, ◌*◌, ◌≡◌, ◌⊎◌, inl, refl, true, false, ◌&&◌, none, some, [], ◌∷◌, arith, if◌then◌else◌,
  leb, ltb, ◌≢◌,
}
use io_filter_driver_for_lin.Base.{Bool, ◌<◌}
use io_filter_driver_for_lin.Image.{Image}
use io_filter_driver_for_lin.Rkcdpd.SeedLayer.Preserve.{IsSeedOf}
use io_filter_driver_for_lin.RkcdpRebuild.{
  finished, failed, progress_init, Files, Facts, Args, check, rebuild_main, overlay_seed,
}
use io_filter_driver_for_lin.RkcdpRebuild.{
  copy_with_progress, poll_loop, ping_loop, create_and_boot,
}
use io_filter_driver_for_lin.RkcdpRebuild.Succeeds.{IsChecked, rebuild_main_succeeds}
use io_filter_driver_for_lin.RkcdpRebuild.Lock.{rebuild_main_ends, rebuild_main_steals_lock}
use io_filter_driver_for_lin.RkcdpRebuild.Overlay.{overlay_seed_misses}
use io_filter_driver_for_lin.RkcdpSeed.{seed_ch}
use io_filter_driver_for_lin.RkcdpSeed.Resumed.{DdCopies}
use io_filter_driver_for_lin.Tests.{blank, sevens}
use io_filter_driver_for_lin.Tests.Seeds.{one_chunk, is_saved_one}

-- The chunk is saved, with data in seed.raw.
pub saved-IsSeedOf : (replica : Image) → IsSeedOf sevens replica (one_chunk sevens 1)
saved-IsSeedOf replica = record {
  bitmap = record { bytes = (omega arith, tt); room = omega arith };
  chunks = refl;
  holds = λ i h. (λ s. refl, λ s. cc (is_saved_one sevens i h));
}

-- The chunk held zeros at the seed point: it is saved, and a hole in seed.raw.
hole-IsSeedOf : (replica : Image) → IsSeedOf blank replica (one_chunk blank 1)
hole-IsSeedOf replica = record {
  bitmap = record { bytes = (omega arith, tt); room = omega arith };
  chunks = refl;
  holds = λ i h. (λ s. refl, λ s. cc (is_saved_one blank i h));
}

overlay_seed_misses_example :
    (blank 3 ≡ 0) × (overlay_seed (one_chunk blank 1).fd [] sevens 3 ≢ blank 3)
overlay_seed_misses_example =
    overlay_seed_misses blank sevens (one_chunk blank 1) [] (hole-IsSeedOf sevens) (λ i h c. cc) 3
      (omega arith) refl (is_saved_one blank 3 (omega arith)) refl (λ e. omega (arith, e))

abbrev never : ℕ → Bool
never i = false

abbrev ready : Facts
ready = record {
  manifest = true;
  base_end_seq = true;
  replica = true;
  seed = false;
  status_age = some 600;
  copy_ok = true;
  allocated = some 4096;
  polls = some 0 ∷ none ∷ some 2048 ∷ [];
  host_ok = true;
  has_ip = false;
  pings = never;
  new_vmid = 9100;
}

abbrev no_options : Args
no_options = record { force = false; keep_copy = false; from_seed = false }

abbrev locked : Files
locked = record { lock = true; copy_file = false; progress = progress_init }

rebuild_main_ends_example :
    let (rc, s') = rebuild_main ready no_options locked in
    (s'.lock ≡ false)
    × ((rc ≡ 0) × (s'.progress.state ≡ finished) × (s'.progress.steps ≡ 1 ∷ 2 ∷ 3 ∷ 4 ∷ 5 ∷ 6 ∷ [])
        ⊎ (rc ≡ 1) × (s'.progress.state ≡ failed))
rebuild_main_ends_example = rebuild_main_ends ready no_options locked

ready_succeeds : (rebuild_main ready no_options locked).0 ≡ 0
unfolding rebuild_main check create_and_boot copy_with_progress poll_loop ping_loop
ready_succeeds = refl

rebuild_main_succeeds_example :
    let s' = (rebuild_main ready no_options locked).1 in
    IsChecked ready no_options
    × (true ≡ true)
    × (true ≡ true)
    × (false ≡ true → (j : ℕ) × (j < 150) × (never j ≡ true))
    × (s'.copy_file ≡ false)
    × ((total : ℕ)
        → some 4096 ≡ some total
        → total ≢ 0
        → s'.progress.copy ≡ some (record { done = total; total = some total; percent = some 100 }))
rebuild_main_succeeds_example = rebuild_main_succeeds ready no_options locked ready_succeeds

abbrev no_replica : Facts
no_replica = record ready { replica = false }

replica_missing : check no_replica no_options ≡ some "no replica.raw"
unfolding check
replica_missing = refl

rebuild_main_steals_lock_example :
    ((rebuild_main no_replica no_options locked).0 ≡ 1)
    × ((rebuild_main no_replica no_options locked).1.lock ≡ false)
rebuild_main_steals_lock_example =
    rebuild_main_steals_lock no_replica no_options locked "no replica.raw" replica_missing refl

abbrev pub dd : Image → ℕ → Image → Image
dd disk i replica j = if leb (i * seed_ch) j && ltb j (suc i * seed_ch) then disk j else replica j

pub dd-DdCopies : DdCopies dd
dd-DdCopies = record {
  outside = λ disk i replica j h. ground arith;
  inside = λ disk i replica j l u. inl (ground arith);
}
