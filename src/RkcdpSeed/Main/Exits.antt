-- ===== src/RkcdpSeed/Main/Exits.antt =====
-- On how a run of rkcdp/rkcdp-seed.py ends, and what it leaves.
use Prim.Native.String.{String}
use io_filter_driver_for_lin.Base.{ℕ, ◌≡◌, refl, true, false, Option, none, some, List, ◌∷◌}
use io_filter_driver_for_lin.RkcdpSeed.{no_resume, seed_progress}
use io_filter_driver_for_lin.RkcdpSeed.Main.{
  locate, disk_size, StatusLook, Found, SeedNode, SeedExit, code, system_exit, report, sized,
  wait_loop, seed_point, copy_disk, seed_vm, seed_main,
}
use io_filter_driver_for_lin.RkcdpSeed.Main.Waiting.{SawCdp}

-- What a whole run leaves, by its exit.
pub record Leaves (f : Found) (s : SeedNode) (e : SeedExit × SeedNode) : Type 0 where
  pub succeeded :
      e.0 ≡ code 0
      → (e.1.json.phase ≡ "done")
        × (e.1.resume ≡ no_resume)
        × (e.1.seeded ≡ some f.boot_id)
        × (e.1.size ≡ some (disk_size f.size))
        × (e.1.seed_raw ≡ sized s.seed_raw (disk_size f.size))
        × (f.copied ≡ true)
        × (f.disk ≡ true)
        × (f.journal_seen ≡ true)
        × SawCdp f.looks
  pub failed : e.0 ≡ code 1 → e.1.json.phase ≡ "failed"
  pub left_at_locate :
      e.0 ≡ system_exit → (f.disk ≡ false) × (e.1.json.phase ≡ "locate") × (e.1.seeded ≡ s.seeded)

-- Where the VM and its disk are found, the host sees the journal, the copy ends with code 0 and there
-- is no replica.raw yet, a disk whose size can not be read is seeded as an empty one: the run makes
-- replica.raw of no bytes, records the seed point with the size 0, and at a first look that shows CDP
-- ends with code 0.
pub seed_main_unread :
    (f : Found) (s : SeedNode) (vm : String × ℕ) (age : ℕ) (looks : List (Option StatusLook))
    → locate f.vm_on f.hosts f.host f.vmid ≡ some vm
    → f.disk ≡ true
    → f.journal_seen ≡ true
    → f.size ≡ none
    → f.copied ≡ true
    → f.looks ≡ some (record { state = some "CDP"; age = age }) ∷ looks
    → s.replica ≡ none
    → let (exit, s') = seed_main f s in
      (exit ≡ code 0) × (s'.replica ≡ some 0) × (s'.size ≡ some 0) × (s'.seeded ≡ some f.boot_id)
unfolding seed_main seed_vm copy_disk seed_point wait_loop report seed_progress
seed_main_unread f s vm age looks found disk seen unread copied looked bare =
    rw (found, disk, seen, unread, copied, looked, bare) (refl, refl, refl, refl)
