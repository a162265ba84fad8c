-- ===== src/RkcdpSeed/Main/Waiting.antt =====
-- On the wait of rkcdp/rkcdp-seed.py for the state CDP, and what it leaves.
use Prim.Native.String.{String}
use io_filter_driver_for_lin.Base.{
  ◌≡◌, ◌<◌, ◌≤◌, ◌⊎◌, inl, inr, refl, ◌∙◌, true, Option, none, some, List, [], ◌∷◌, ltb, arith,
  Bool-cases, if◌then◌else◌,
}
use io_filter_driver_for_lin.ApiRkcdp.{is_text}
use io_filter_driver_for_lin.RkcdpSeed.{no_resume, seed_progress, update_resume}
use io_filter_driver_for_lin.RkcdpSeed.Main.{
  StatusLook, SeedNode, SeedExit, code, system_exit, report, fail_seed, drain_report, wait_loop,
}

-- One of the looks shows the daemon in CDP.
abbrev pub SawCdp : List (Option StatusLook) → Type 0
SawCdp [] = 1 ≤ 0
SawCdp (none ∷ looks) = SawCdp looks
SawCdp (some look ∷ looks) = (is_text look.state "CDP" ≡ true) ⊎ SawCdp looks

-- One of the looks shows a status that is more than five minutes old.
abbrev pub SawSilence : List (Option StatusLook) → Type 0
SawSilence [] = 1 ≤ 0
SawSilence (none ∷ looks) = SawSilence looks
SawSilence (some look ∷ looks) = (300 < look.age) ⊎ SawSilence looks

-- What a wait leaves, by how it ends.
pub record Waited (looks : List (Option StatusLook)) (s : SeedNode) (e : SeedExit × SeedNode)
    : Type 0 where
  pub done_if : e.0 ≡ code 0 → SawCdp looks × (e.1.json.phase ≡ "done") × (e.1.resume ≡ no_resume)
  pub failed_if :
      e.0 ≡ code 1 → SawSilence looks × (e.1.json.phase ≡ "failed") × (e.1.resume ≡ s.resume)
  pub no_system_exit : e.0 ≡ system_exit → 1 ≤ 0
  pub same_images :
      (e.1.replica ≡ s.replica)
      × (e.1.seed_raw ≡ s.seed_raw)
      × (e.1.seeded ≡ s.seeded)
      × (e.1.size ≡ s.size)

drain_report_lem :
    (state : Option String) (s : SeedNode)
    → let s' = drain_report state s in
      (s'.resume ≡ s.resume)
      × (s'.replica ≡ s.replica)
      × (s'.seed_raw ≡ s.seed_raw)
      × (s'.seeded ≡ s.seeded)
      × (s'.size ≡ s.size)
unfolding drain_report report seed_progress
drain_report_lem none s = (refl, refl, refl, refl, refl)
drain_report_lem (some state) s = ground arith

done-Waited :
    (look : StatusLook) (looks : List (Option StatusLook)) (s : SeedNode)
    → is_text look.state "CDP" ≡ true
    → Waited (some look ∷ looks) s (code 0, report "done" (some 100) s)
unfolding report seed_progress
done-Waited look looks s cdp = record {
  done_if = λ h. (inl cdp, refl, refl);
  failed_if = λ h. absurd (ground arith);
  no_system_exit = λ h. absurd (ground arith);
  same_images = (refl, refl, refl, refl);
}

failed-Waited :
    (look : StatusLook) (looks : List (Option StatusLook)) (s : SeedNode)
    → 300 < look.age
    → Waited (some look ∷ looks) s (fail_seed s)
unfolding fail_seed report seed_progress update_resume
failed-Waited look looks s old = record {
  done_if = λ h. absurd (ground arith);
  failed_if = λ h. (inl old, refl, refl);
  no_system_exit = λ h. absurd (ground arith);
  same_images = (refl, refl, refl, refl);
}

later-Waited :
    (look : StatusLook) (looks : List (Option StatusLook)) (s : SeedNode) (e : SeedExit × SeedNode)
    → Waited looks (drain_report look.state s) e
    → Waited (some look ∷ looks) s e
later-Waited look looks s e rest =
    let (resume, replica, seed_raw, seeded, size) = drain_report_lem look.state s in
    let (replica', seed_raw', seeded', size') = rest.same_images in
    record {
      done_if = λ h. let (saw, phase, cleared) = rest.done_if h in (inr saw, phase, cleared);
      failed_if = λ h. let (saw, phase, kept) = rest.failed_if h in (inr saw, phase, kept ∙ resume);
      no_system_exit = rest.no_system_exit;
      same_images = (replica' ∙ replica, seed_raw' ∙ seed_raw, seeded' ∙ seeded, size' ∙ size);
    }

wait_loop-some :
    (look : StatusLook) (looks : List (Option StatusLook)) (s : SeedNode)
    → wait_loop (some look ∷ looks) s ≡ (
        if is_text look.state "CDP"
        then (code 0, report "done" (some 100) s)
        else if ltb 300 look.age
        then fail_seed s
        else wait_loop looks (drain_report look.state s))
unfolding wait_loop
wait_loop-some look looks s = refl

wait_loop-nil : (s : SeedNode) → Waited [] s (wait_loop [] s)
unfolding wait_loop
wait_loop-nil s = record {
  done_if = λ h. absurd (ground arith);
  failed_if = λ h. absurd (ground arith);
  no_system_exit = λ h. absurd (ground arith);
  same_images = (refl, refl, refl, refl);
}

wait_loop-none :
    (looks : List (Option StatusLook)) (s : SeedNode)
    → wait_loop (none ∷ looks) s ≡ wait_loop looks s
unfolding wait_loop
wait_loop-none looks s = refl

skip-Waited :
    (looks : List (Option StatusLook)) (s : SeedNode) (e : SeedExit × SeedNode)
    → Waited looks s e
    → Waited (none ∷ looks) s e
skip-Waited looks s e rest = record {
  done_if = rest.done_if;
  failed_if = rest.failed_if;
  no_system_exit = rest.no_system_exit;
  same_images = rest.same_images;
}

pub wait_loop-Waited :
    (looks : List (Option StatusLook)) (s : SeedNode) → Waited looks s (wait_loop looks s)
wait_loop-Waited [] s = wait_loop-nil s
wait_loop-Waited (none ∷ looks) s =
    rw (wait_loop-none looks s) (skip-Waited looks s (wait_loop looks s) (wait_loop-Waited looks s))
wait_loop-Waited (some look ∷ looks) s =
    rw (wait_loop-some look looks s) (elim (Bool-cases (is_text look.state "CDP")) [
      | inl cdp ↦ rw cdp (done-Waited look looks s cdp)
      | inr other ↦ rw other (elim (Bool-cases (ltb 300 look.age)) [
        | inl old ↦ rw old (failed-Waited look looks s (ground arith))
        | inr young ↦
            rw young
              (later-Waited look looks s _ (wait_loop-Waited looks (drain_report look.state s)))
      ])
    ])
