-- ===== src/RkcdpRebuild/Lock.antt =====
-- How a run of rkcdp-rebuild.py leaves the node's directory.
use Prim.Native.String.{String}
use io_filter_driver_for_lin.Base.{
  ℕ, ◌≡◌, ◌⊎◌, refl, Bool, true, false, Option, none, some, List, [], ◌∷◌, arith, inl, inr,
  Option-cases,
}
use io_filter_driver_for_lin.RkcdpRebuild.{
  finished, failed, Files, Facts, Args, check, rebuild_main, fail_run, create_and_boot, remove_lock,
  progress_step, progress_fail, progress_done, progress_init, progress_copy, Progress, poll_loop,
  copy_with_progress, copied_then,
}

-- The polls change the report of the copy alone.
poll_loop-keeps :
    (total : Option ℕ) (polls : List (Option ℕ)) (last_done : ℕ) (p : Progress)
    → let p' = (poll_loop total polls last_done p).1 in (p'.state ≡ p.state) × (p'.steps ≡ p.steps)
unfolding poll_loop progress_copy
poll_loop-keeps total [] last_done p = (refl, refl)
poll_loop-keeps total (none ∷ polls) last_done p = poll_loop-keeps total polls last_done p
poll_loop-keeps total (some done ∷ polls) last_done p =
    poll_loop-keeps total polls done (progress_copy done total p)

copy_with_progress-keeps :
    (f : Facts) (p : Progress)
    → let (ok, p') = copy_with_progress f p in
      (ok ≡ f.copy_ok) × (p'.state ≡ p.state) × (p'.steps ≡ p.steps)
unfolding copy_with_progress progress_copy
copy_with_progress-keeps f p = ground (arith, poll_loop-keeps f.allocated f.polls 0 p)

abbrev EndsWell : ℕ × Files → Type 0
EndsWell (rc, s) =
    (s.lock ≡ false)
    × ((rc ≡ 0) × (s.progress.state ≡ finished) × (s.progress.steps ≡ 1 ∷ 2 ∷ 3 ∷ 4 ∷ 5 ∷ 6 ∷ [])
        ⊎ (rc ≡ 1) × (s.progress.state ≡ failed))

create_and_boot-EndsWell :
    (f : Facts) (a : Args) (s : Files)
    → s.lock ≡ false
    → s.progress.steps ≡ 1 ∷ 2 ∷ 3 ∷ []
    → EndsWell (create_and_boot f a s)
unfolding create_and_boot fail_run progress_step progress_fail progress_done
create_and_boot-EndsWell f a s unlocked steps = ground arith

-- The run once every check has passed.
copy_and_boot-EndsWell :
    (f : Facts) (a : Args) (s : Files) (r : Bool × Progress)
    → r.1.steps ≡ 1 ∷ 2 ∷ 3 ∷ []
    → EndsWell (copied_then f a s r)
unfolding remove_lock fail_run progress_fail
copy_and_boot-EndsWell f a s (true, p) steps =
    create_and_boot-EndsWell f a (record s { lock = false; progress = p }) refl steps
copy_and_boot-EndsWell f a s (false, p) steps = (refl, inr (refl, refl))

-- However a run ends, by success or at any of its steps, the rebuild lock is gone, so the daemon
-- goes on; and the progress file says finished just if the exit code is 0, and failed just if it
-- is 1.
pub rebuild_main_ends :
    (f : Facts) (a : Args) (s : Files)
    → let (rc, s') = rebuild_main f a s in
      (s'.lock ≡ false)
      × ((rc ≡ 0)
            × (s'.progress.state ≡ finished)
            × (s'.progress.steps ≡ 1 ∷ 2 ∷ 3 ∷ 4 ∷ 5 ∷ 6 ∷ [])
          ⊎ (rc ≡ 1) × (s'.progress.state ≡ failed))
unfolding rebuild_main remove_lock fail_run progress_step progress_fail progress_init
rebuild_main_ends f a s = elim (Option-cases (check f a)) [
  | inl passed ↦
      let p3 = progress_step 3 (progress_step 2 (progress_step 1 progress_init)) in
      let keeps = copy_with_progress-keeps f p3 in
      rw (rebuild_main, passed)
        (copy_and_boot-EndsWell f a (record { lock = true; copy_file = true; progress = p3 })
          (copy_with_progress f p3) keeps.2)
  | inr (err, e) ↦ ground arith
]

-- A run that fails at its first step removes a lock that it did not create: with the lock of
-- another run present, and a check that fails, the lock is gone afterwards.
pub rebuild_main_steals_lock :
    (f : Facts) (a : Args) (s : Files) (err : String)
    → check f a ≡ some err
    → s.lock ≡ true
    → ((rebuild_main f a s).0 ≡ 1) × ((rebuild_main f a s).1.lock ≡ false)
unfolding rebuild_main remove_lock fail_run
rebuild_main_steals_lock f a s err e h = ground arith
