-- ===== src/RkcdpRebuild.antt =====
-- rkcdp/rkcdp-rebuild.py: the progress file, the seed overlay, and the run of `main` as far as the
-- files of the node's directory are concerned. What the commands and the host answer is given.
pub mod Overlay
pub mod Lock
pub mod Succeeds
pub mod Quiesce
use Prim.Native.String.{String}
use io_filter_driver_for_lin.Base.{
  ℕ, zero, suc, ◌+◌, ◌-◌, ◌*◌, ◌/◌, ◌≤◌, Bool, true, false, ◌&&◌, ◌||◌, not, Option, none, some,
  List, [], ◌∷◌, ◌++◌, leb, ltb, if◌then◌else◌, ◌==◌, min, length,
}
use io_filter_driver_for_lin.Image.{Image, pread, pwrite}

abbrev pub total_steps : ℕ
total_steps = 6

-- "running", "done" and "failed"
pub data RunState : Type 0 where
  running finished failed : RunState

pub record CopyProgress : Type 0 where
  pub done : ℕ
  pub total : Option ℕ
  pub percent : Option ℕ

-- The dictionary `d` of class Progress; the progress file holds what it held at the last flush.
pub record Progress : Type 0 where
  pub step : ℕ
  pub state : RunState
  pub steps : List ℕ
  pub error : Option String
  pub copy : Option CopyProgress
  pub vmid : Option ℕ

unfoldable pub progress_init : Progress
progress_init = record {
  step = 0;
  state = running;
  steps = [];
  error = none;
  copy = none;
  vmid = none;
}

-- int(done * 100 / total) if total else None
unfoldable pub percent_of : ℕ → Option ℕ → Option ℕ
percent_of done none = none
percent_of done (some total) = if total == 0 then none else some (done * 100 / total)

unfoldable pub progress_copy : ℕ → Option ℕ → Progress → Progress
progress_copy done total p = record p {
  copy = some (record { done = done; total = total; percent = percent_of done total });
}

unfoldable pub progress_step : ℕ → Progress → Progress
progress_step n p = record p { step = n; steps = p.steps ++ n ∷ [] }

unfoldable pub progress_done : Progress → Progress
progress_done p = record p { state = finished }

unfoldable pub progress_fail : String → Progress → Progress
progress_fail err p = record p { state = failed; error = some err }

-- The files that the run creates and removes, and its progress.
pub record Files : Type 0 where
  pub lock : Bool
  pub copy_file : Bool
  pub progress : Progress

-- What the run finds: manifest.json is there and has base_end_seq, replica.raw, seed.raw, the age
-- of status.json, how the copy and the host script answer, whether each ping is answered, the bytes
-- that replica.raw has allocated and those seen copied at each poll (`none` where stat fails).
pub record Facts : Type 0 where
  pub manifest : Bool
  pub base_end_seq : Bool
  pub replica : Bool
  pub seed : Bool
  pub status_age : Option ℕ
  pub copy_ok : Bool
  pub allocated : Option ℕ
  pub polls : List (Option ℕ)
  pub host_ok : Bool
  pub has_ip : Bool
  pub pings : ℕ → Bool
  pub new_vmid : ℕ

-- The command line: --force, --keep-copy, --from seed.
pub record Args : Type 0 where
  pub force : Bool
  pub keep_copy : Bool
  pub from_seed : Bool

-- age < 60 and not a.force
abbrev alive : Option ℕ → Bool → Bool
alive none force = false
alive (some age) force = ltb age 60 && not force

-- Step 1: the exception that is raised, if any.
unfoldable pub check : Facts → Args → Option String
check f a =
    if not f.manifest
    then some "No such file"
    else if not f.replica
    then some "no replica.raw"
    else if a.from_seed && not f.seed
    then some "no seed.raw"
    else if not f.base_end_seq
    then some "base copy never completed"
    else if alive f.status_age a.force
    then some "reported alive"
    else none

-- except Exception as e: pg.fail(e); return 1
unfoldable pub fail_run : String → Files → ℕ × Files
fail_run err s = (1, record s { progress = progress_fail err s.progress })

-- for _ in range(150): whether one of the pings from the `i`-th on is answered
unfoldable pub ping_loop : ℕ → ℕ → (ℕ → Bool) → Bool
ping_loop zero i pings = false
ping_loop (suc rounds) i pings =
    let rest = ping_loop rounds (suc i) pings in if pings i then true else rest

-- Steps 5 and 6; `lock` is None by now.
unfoldable pub create_and_boot : Facts → Args → Files → ℕ × Files
create_and_boot f a s =
    let s5 = record s { progress = progress_step 5 (progress_step 4 s.progress) } in
    if not f.host_ok
    then fail_run "host script failed" s5
    else (let p6 = progress_step 6 (record s5.progress { vmid = some f.new_vmid }) in
        let s6 = record s5 { progress = p6 } in
        if f.has_ip && not (ping_loop 150 0 f.pings) then fail_run "not reachable" s6 else (
          0,
          record s6 { progress = progress_done p6; copy_file = s6.copy_file && a.keep_copy },
        ))

-- finally: if lock and os.path.exists(lock): os.remove(lock)
unfoldable pub remove_lock : ℕ × Files → ℕ × Files
remove_lock (rc, s) = (rc, record s { lock = false })

-- total or last_done
abbrev pub bytes_copied : Option ℕ → ℕ → ℕ
bytes_copied none last_done = last_done
bytes_copied (some total) last_done = if total == 0 then last_done else total

-- while proc.poll() is None: last_done and the progress after it; a poll whose stat fails is passed over.
unfoldable pub poll_loop : Option ℕ → List (Option ℕ) → ℕ → Progress → ℕ × Progress
poll_loop total [] last_done p = (last_done, p)
poll_loop total (none ∷ polls) last_done p = poll_loop total polls last_done p
poll_loop total (some done ∷ polls) last_done p =
    poll_loop total polls done (progress_copy done total p)

-- _copy_with_progress; its exception is that of a cp that failed.
unfoldable pub copy_with_progress : Facts → Progress → Bool × Progress
copy_with_progress f p =
    let (last_done, p') = poll_loop f.allocated f.polls 0 p in
    if f.copy_ok
    then (true, progress_copy (bytes_copied f.allocated last_done) f.allocated p')
    else (false, p')

-- What follows the copy: the lock is removed and the run goes on, or cp has failed.
abbrev pub copied_then : Facts → Args → Files → Bool × Progress → ℕ × Files
copied_then f a s (true, p) = create_and_boot f a (record s { lock = false; progress = p })
copied_then f a s (false, p) = remove_lock (fail_run "cp failed" (record s { progress = p }))

unfoldable pub rebuild_main : Facts → Args → Files → ℕ × Files
rebuild_main f a s =
    let s1 = record s { progress = progress_step 1 progress_init } in
    elim (check f a) [
      | some err ↦ remove_lock (fail_run err s1)
      | none ↦
          let s3 = record s1 {
            lock = true;
            copy_file = true;
            progress = progress_step 3 (progress_step 2 s1.progress);
          } in
          copied_then f a s3 (copy_with_progress f s3.progress)
    ]

-- overlay_seed: the inner loop writes [pos, h) of seed.raw over the copy, at most 4 MB at a time.
unfoldable pub overlay_region : ℕ → Image → ℕ → ℕ → Image → Image
overlay_region zero seed pos h copy = copy
overlay_region (suc fuel) seed pos h copy =
    let n = min 4194304 (h - pos) in
    let rest = overlay_region fuel seed (pos + n) h (pwrite (pread n pos seed) pos copy) in
    if ltb pos h then rest else copy

-- The outer loop over the regions of data of seed.raw, as (start, length).
unfoldable pub overlay_seed : Image → List (ℕ × ℕ) → Image → Image
unfolding overlay_region
overlay_seed seed [] copy = copy
overlay_seed seed ((d, n) ∷ regions) copy =
    overlay_seed seed regions (overlay_region (suc n) seed d (d + n) copy)
