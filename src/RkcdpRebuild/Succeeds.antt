-- ===== src/RkcdpRebuild/Succeeds.antt =====
-- What a run of rkcdp-rebuild.py that succeeds has found and done.
use io_filter_driver_for_lin.Base.{
  ℕ, zero, suc, ◌+◌, ◌*◌, ◌/◌, ◌≤◌, ◌<◌, ◌≡◌, ◌≢◌, refl, sym, ap, ◌∙◌, Bool, true, false, ◌&&◌,
  Option, none, some, arith, inl, inr, Option-cases, Bool-cases, if◌then◌else◌,
}
use native.Mathlib.Nat.{mul-div_right}
use io_filter_driver_for_lin.RkcdpRebuild.{
  bytes_copied, Progress, CopyProgress, Files, Facts, Args, check, rebuild_main, fail_run,
  create_and_boot, remove_lock, progress_step, progress_done, progress_init, progress_copy,
  percent_of, poll_loop, copy_with_progress, copied_then, ping_loop,
}

-- Every check is passed: manifest.json, replica.raw and a completed base copy are there, and so is
-- seed.raw if it is asked for, and the node is forced or has been silent for a minute.
pub record IsChecked (f : Facts) (a : Args) : Type 0 where
  pub has_manifest : f.manifest ≡ true
  pub has_replica : f.replica ≡ true
  pub has_base : f.base_end_seq ≡ true
  pub has_seed : a.from_seed ≡ true → f.seed ≡ true
  pub is_silent : (age : ℕ) → f.status_age ≡ some age → a.force ≡ false → 60 ≤ age

check-IsChecked : (f : Facts) (a : Args) → check f a ≡ none → IsChecked f a
unfolding check
check-IsChecked f a h = record {
  has_manifest = ground arith;
  has_replica = ground arith;
  has_base = ground arith;
  has_seed = λ g. ground arith;
  is_silent = λ age g k. ground arith;
}

ping_loop_answered :
    (rounds i : ℕ) (pings : ℕ → Bool)
    → ping_loop rounds i pings ≡ true
    → (j : ℕ) × (j < i + rounds) × (pings j ≡ true)
unfolding ping_loop
ping_loop_answered zero i pings h = cc
ping_loop_answered (suc rounds) i pings h = elim (Bool-cases (pings i)) [
  | inl answered ↦ (i, omega arith, answered)
  | inr silent ↦
      let (j, below, answered) = ping_loop_answered rounds (suc i) pings (rw silent at h) in
      (j, omega (arith, below), answered)
]

-- The progress file shows the copy as whole, where stat gave the size of a replica that is not empty.
abbrev IsWhole : Facts → Progress → Type 0
IsWhole f p =
    (total : ℕ)
    → f.allocated ≡ some total
    → total ≢ 0
    → p.copy ≡ some (record { done = total; total = some total; percent = some 100 })

whole_percent : (total : ℕ) → total ≢ 0 → percent_of total (some total) ≡ some 100
unfolding percent_of
whole_percent total h =
    let pos : 0 < total = grind (arith, h) in
    let hundred : total * 100 / total ≡ 100 = mul-div_right 100 pos in ground (arith, hundred)

-- The last report of the copy.
abbrev reported : Option ℕ → ℕ → Option CopyProgress
reported total last_done =
    let done = bytes_copied total last_done in
    some (record { done = done; total = total; percent = percent_of done total })

reported_whole :
    (total last_done : ℕ)
    → total ≢ 0
    → reported (some total) last_done
      ≡ some (record { done = total; total = some total; percent = some 100 })
reported_whole total last_done h =
    let same : bytes_copied (some total) last_done ≡ total = ground (arith, h) in
    rw (same, whole_percent total h) refl

copy_with_progress-IsWhole :
    (f : Facts) (p : Progress)
    → (copy_with_progress f p).0 ≡ true
    → (f.copy_ok ≡ true) × IsWhole f (copy_with_progress f p).1
unfolding copy_with_progress progress_copy
copy_with_progress-IsWhole f p h =
    let (last_done, p') = poll_loop f.allocated f.polls 0 p in
    let ended : Bool → Bool × Progress = λ ok.
      if ok
      then (true, progress_copy (bytes_copied f.allocated last_done) f.allocated p')
      else (false, p') in
    elim (Bool-cases f.copy_ok) [
      | inr failed ↦ absurd (ground arith)
      | inl copied ↦ (
        copied,
        λ total e nonzero.
            ap (λ (ok : Bool). (ended ok).1.copy) copied
            ∙ ap (λ (o : Option ℕ). reported o last_done) e
            ∙ reported_whole total last_done nonzero,
      )
    ]

create_and_boot-copy :
    (f : Facts) (a : Args) (s : Files)
    → (create_and_boot f a s).0 ≡ 0
    → let s' = (create_and_boot f a s).1 in
      (f.host_ok ≡ true)
      × (f.has_ip ≡ true → ping_loop 150 0 f.pings ≡ true)
      × (s'.copy_file ≡ (s.copy_file && a.keep_copy))
      × (s'.progress.copy ≡ s.progress.copy)
unfolding create_and_boot fail_run progress_step progress_done
create_and_boot-copy f a s h = (ground arith, λ k. ground arith, ground arith, ground arith)

abbrev HasFound : Facts → Args → Files → Type 0
HasFound f a s =
    (f.copy_ok ≡ true)
    × (f.host_ok ≡ true)
    × (f.has_ip ≡ true → (j : ℕ) × (j < 150) × (f.pings j ≡ true))
    × (s.copy_file ≡ a.keep_copy)
    × IsWhole f s.progress

copied_then-HasFound :
    (f : Facts) (a : Args) (s : Files) (p : Progress) (r : Bool × Progress)
    → copy_with_progress f p ≡ r
    → s.copy_file ≡ true
    → (copied_then f a s r).0 ≡ 0
    → HasFound f a (copied_then f a s r).1
unfolding remove_lock fail_run
copied_then-HasFound f a s p (false, p') e made h = absurd (omega (arith, h))
copied_then-HasFound f a s p (true, p') e made h =
    let (copied, whole) = copy_with_progress-IsWhole f p (ap (λ (r : Bool × Progress). r.0) e) in
    let (host, answered, kept, same) =
      create_and_boot-copy f a (record s { lock = false; progress = p' }) h in
    (
      copied,
      host,
      λ k. ping_loop_answered 150 0 f.pings (answered k),
      kept ∙ rw made refl,
      λ total g nonzero.
          same ∙ ap (λ (r : Bool × Progress). r.1.copy) (sym e) ∙ whole total g nonzero,
    )

-- A run that succeeds has passed every check; cp and the host's script ended well, and where the node's
-- IP is known, one of 150 pings to it was answered; the copy of the replica is kept just if it was
-- asked for, and the progress file shows it whole, at 100 percent, where stat gave the size of a
-- replica that is not empty.
pub rebuild_main_succeeds :
    (f : Facts) (a : Args) (s : Files)
    → (rebuild_main f a s).0 ≡ 0
    → let s' = (rebuild_main f a s).1 in
      IsChecked f a
      × (f.copy_ok ≡ true)
      × (f.host_ok ≡ true)
      × (f.has_ip ≡ true → (j : ℕ) × (j < 150) × (f.pings j ≡ true))
      × (s'.copy_file ≡ a.keep_copy)
      × ((total : ℕ)
          → f.allocated ≡ some total
          → total ≢ 0
          → s'.progress.copy
            ≡ some (record { done = total; total = some total; percent = some 100 }))
unfolding rebuild_main remove_lock fail_run
rebuild_main_succeeds f a s h = elim (Option-cases (check f a)) [
  | inr (err, e) ↦ absurd (ground arith)
  | inl passed ↦
      let p3 = progress_step 3 (progress_step 2 (progress_step 1 progress_init)) in
      let s3 : Files = record { lock = true; copy_file = true; progress = p3 } in
      let opened : rebuild_main f a s ≡ copied_then f a s3 (copy_with_progress f p3) =
        rw (rebuild_main, passed) refl in
      let (copied, host, answered, kept, whole) =
        copied_then-HasFound f a s3 p3 (copy_with_progress f p3) refl refl (rw opened at h) in
      rw opened (check-IsChecked f a passed, copied, host, answered, kept, whole)
]
