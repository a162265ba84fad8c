-- ===== src/RkcdpSeed/Main.antt =====
-- main of rkcdp/rkcdp-seed.py: finding the VM, the five steps, and the wait for the daemon. What the
-- host and the node's files answer is given.
pub mod Waiting
pub mod Exits
use Prim.Native.String.{String}
use text.Mathlib.Text.{◌==◌ as str_eq}
use io_filter_driver_for_lin.Base.{
  ℕ, Bool, true, false, ◌||◌, not, Option, none, some, List, [], ◌∷◌, ltb, if◌then◌else◌, ◌==◌,
}
use io_filter_driver_for_lin.ApiRkcdp.{is_text, or_empty}
use io_filter_driver_for_lin.RkcdpSeed.{
  Resume, no_resume, SeedJson, ChunkReport, seed_progress, start_chunk, report_loop,
}

-- An entry of hypervisors.json.
pub record HostEntry : Type 0 where
  pub ip : Option String
  pub hostname : Option String

-- h.get("ip") or h.get("hostname")
abbrev pub address : HostEntry → String
address h = if str_eq (or_empty h.ip) "" then or_empty h.hostname else or_empty h.ip

-- The loop of find_vm; `vm_on` is what the regular expression finds in the answer of a host.
unfoldable pub find_vm : (String → Option ℕ) → List HostEntry → Option (String × ℕ)
find_vm vm_on [] = none
find_vm vm_on (h ∷ hosts) =
    let rest = find_vm vm_on hosts in
    if str_eq (address h) ""
    then rest
    else elim (vm_on (address h)) [ some vmid ↦ some (address h, vmid) | none ↦ rest ]

-- if not host or not vmid: raise RuntimeError(…)
abbrev pub checked : Option (String × ℕ) → Option (String × ℕ)
checked none = none
checked (some (host, vmid)) = if vmid == 0 then none else some (host, vmid)

-- if not (host and vmid): …; with --host alone only that host is searched.
unfoldable pub locate : (String → Option ℕ) → List HostEntry → String → ℕ → Option (String × ℕ)
locate vm_on hosts host vmid =
    if str_eq host ""
    then checked (find_vm vm_on hosts)
    else if vmid == 0
    then checked (find_vm vm_on (record { ip = some host; hostname = none } ∷ []))
    else some (host, vmid)

-- disk_size: what blockdev or stat printed, and 0 where that is no number.
abbrev pub disk_size : Option ℕ → ℕ
disk_size none = 0
disk_size (some bytes) = bytes

-- A look at status.json, if it could be read.
pub record StatusLook : Type 0 where
  pub state : Option String
  pub age : ℕ

pub record Found : Type 0 where
  pub vm_on : String → Option ℕ
  pub hosts : List HostEntry
  pub host : String
  pub vmid : ℕ
  pub disk : Bool  -- vm_disk finds the disk, or raises SystemExit
  pub size : Option ℕ
  pub journal_seen : Bool
  pub lines : List Bool
  pub copied : Bool  -- the copy ends with rc 0
  pub boot_id : String
  pub looks : List (Option StatusLook)

-- The files that the run writes, with the sizes of the images.
pub record SeedNode : Type 0 where
  pub json : SeedJson
  pub resume : Resume
  pub replica : Option ℕ
  pub seed_raw : Option ℕ
  pub seeded : Option String  -- manifest.seeded.boot_id
  pub size : Option ℕ  -- manifest.size

pub data SeedExit : Type 0 where
  code : ℕ → SeedExit
  system_exit still_waiting : SeedExit

unfoldable pub report : String → Option ℕ → SeedNode → SeedNode
report phase pct s =
    let (r, json) = seed_progress phase pct none s.resume in record s { resume = r; json = json }

-- except Exception as e: progress("failed", …); return 1
unfoldable pub fail_seed : SeedNode → SeedExit × SeedNode
fail_seed s = (code 1, report "failed" none s)

-- if not os.path.exists(…): f.truncate(total)
abbrev pub sized : Option ℕ → ℕ → Option ℕ
sized none total = some total
sized (some bytes) total = some bytes

-- if state not in ("WAITING", "RECOVERING", "CDP", None): progress("drain", …)
unfoldable pub drain_report : Option String → SeedNode → SeedNode
drain_report none s = s
drain_report (some state) s =
    if str_eq state "WAITING" || str_eq state "RECOVERING" || str_eq state "CDP"
    then s
    else report "drain" none s

-- Step 5, over the looks that there is time for.
unfoldable pub wait_loop : List (Option StatusLook) → SeedNode → SeedExit × SeedNode
wait_loop [] s = (still_waiting, s)
wait_loop (none ∷ looks) s = wait_loop looks s
wait_loop (some look ∷ looks) s =
    let rest = wait_loop looks (drain_report look.state s) in
    if is_text look.state "CDP"
    then (code 0, report "done" (some 100) s)
    else if ltb 300 look.age
    then fail_seed s
    else rest

-- Steps 3 to 5, once replica.raw is written.
unfoldable pub seed_point : Found → SeedNode → SeedExit × SeedNode
seed_point f s =
    let written = report "copy" (some 100) s in
    let total = disk_size f.size in
    wait_loop f.looks (
      report "drain" none (record written {
        seed_raw = sized s.seed_raw total;
        seeded = some f.boot_id;
        size = some total;
      }))

-- Step 2, of the VM that was found.
unfoldable pub copy_disk : Found → String → ℕ → SeedNode → SeedExit × SeedNode
copy_disk f host vmid s =
    let total = disk_size f.size in
    let start = start_chunk s.resume host vmid total in
    let read = record s {
      replica = sized s.replica total;
      resume = report_loop host vmid total f.lines start none s.resume;
    } in
    if f.copied then seed_point f read else fail_seed read

-- From step 1 on, with the VM that was found.
unfoldable pub seed_vm : Found → SeedNode → Option (String × ℕ) → SeedExit × SeedNode
seed_vm f begun none = fail_seed begun
seed_vm f begun (some (host, vmid)) =
    if not f.disk
    then (system_exit, begun)
    else if not f.journal_seen
    then fail_seed begun
    else copy_disk f host vmid (report "locate" (some 0) begun)

unfoldable pub seed_main : Found → SeedNode → SeedExit × SeedNode
seed_main f s = seed_vm f (report "locate" none s) (locate f.vm_on f.hosts f.host f.vmid)
