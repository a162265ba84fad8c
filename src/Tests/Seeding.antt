-- ===== src/Tests/Seeding.antt =====
-- The theorems on a rebuild's wait, a seeding and the installer, applied to one node.
use Prim.Native.String.{String}
use text.Mathlib.Text.{◌==◌ as str_eq}
use io_filter_driver_for_lin.Base.{
  ◌↔◌, ◌&&◌, ℕ, ◌≡◌, refl, true, false, Option, none, some, List, [], ◌∷◌, arith, All,
  if◌then◌else◌,
}
use io_filter_driver_for_lin.Rkcdpd.Daemon.{Daemon}
use io_filter_driver_for_lin.Rkcdpd.Status.{status_state}
use io_filter_driver_for_lin.RkcdpRebuild.Quiesce.{Look}
use io_filter_driver_for_lin.RkcdpSeed.{no_resume, start_chunk, Broken, seed_copy, broken_copies}
use io_filter_driver_for_lin.RkcdpSeed.Retried.{broken_copies_complete}
use io_filter_driver_for_lin.RkcdpSeed.Main.{
  HostEntry, StatusLook, Found, SeedNode, code, find_vm, locate, seed_main,
}
use io_filter_driver_for_lin.RkcdpSeed.Main.Exits.{seed_main_unread}
use io_filter_driver_for_lin.RkcdpSetup
use io_filter_driver_for_lin.RkcdpSetup.{
  Files, File, Machine, Host, setup_files, other_files, conf_path, install_file, install_files,
  settle_unit, cap_reads, do_install, do_check, do_remove,
}
use io_filter_driver_for_lin.RkcdpSetup.Paths.{Holds}
use io_filter_driver_for_lin.RkcdpSetup.Upgrade.{do_install_again}
use io_filter_driver_for_lin.RkcdpSetup.Installed.{do_install-do_check, IsLeft, do_remove-do_check}
use io_filter_driver_for_lin.Tests.{blank, sevens, idle_daemon}
use io_filter_driver_for_lin.Tests.Manager.{dd, dd-DdCopies}

abbrev recovering : Daemon
recovering = record idle_daemon { recovery_alive = true; rebuild_lock = true }

abbrev recovering_look : ℕ → Option Look
recovering_look k = some (record { state = some (status_state 0 recovering); age = 1 })

-- Two chunks are copied, and the line of the first is read.
abbrev one_run : List Broken
one_run = record { chunks = 2; lines = false ∷ [] } ∷ []

broken_copies_complete_example :
    let (r, replica) = broken_copies dd sevens "h" 1 200000000 one_run (no_resume, blank) in
    seed_copy dd sevens 200000000 (start_chunk r "h" 1 200000000) replica 5 ≡ sevens 5
broken_copies_complete_example =
    broken_copies_complete dd dd-DdCopies sevens "h" 1 200000000 one_run blank 5 (λ i. refl)
      (omega arith)

abbrev pve : HostEntry
pve = record { ip = some "10.0.0.1"; hostname = none }

abbrev cdp_look : StatusLook
cdp_look = record { state = some "CDP"; age = 1 }

-- A node whose VM runs on the one host, and whose disk's size can not be read.
abbrev found : Found
found = record {
  vm_on = λ h. some 9100;
  hosts = pve ∷ [];
  host = "";
  vmid = 0;
  disk = true;
  size = none;
  journal_seen = true;
  lines = [];
  copied = true;
  boot_id = "b";
  looks = some cdp_look ∷ [];
}

abbrev bare : SeedNode
bare = record {
  json = record { phase = "none"; percent = none; resume = no_resume };
  resume = no_resume;
  replica = none;
  seed_raw = none;
  seeded = none;
  size = none;
}

located : locate found.vm_on found.hosts found.host found.vmid ≡ some ("10.0.0.1", 9100)
unfolding locate find_vm
located = refl

seed_main_unread_example :
    let (exit, s') = seed_main found bare in
    (exit ≡ code 0) × (s'.replica ≡ some 0) × (s'.size ≡ some 0) × (s'.seeded ≡ some "b")
seed_main_unread_example =
    seed_main_unread found bare ("10.0.0.1", 9100) 1 [] located refl refl refl refl refl refl

abbrev manager : Host
manager = record {
  root = true;
  embedded = λ name. true;
  root_disk = some "/dev/sda";
  commands = true;
  restart_ok = true;
  disable_ok = true;
  kver = "6.1";
}

abbrev old_conf : File
old_conf = record { content = RkcdpSetup.conf "/old"; mode = 420 }

abbrev configured_machine : Machine
configured_machine = record {
  fs = λ path. if str_eq path conf_path then some old_conf else none;
  active = true;
  enabled = true;
  restarted = false;
}

installs : (do_install manager "/j" configured_machine).0 ≡ RkcdpSetup.code 0
unfolding do_install install_files cap_reads
installs = refl

do_install-do_check_example :
    let fs = (do_install manager "/j" configured_machine).1.fs in
    All (Holds fs) (setup_files "6.1")
    × (do_check "6.1" "1" fs ≡ RkcdpSetup.code 0)
    × ((f : File) → configured_machine.fs conf_path ≡ some f → fs conf_path ≡ some f)
do_install-do_check_example = do_install-do_check manager "/j" "1" configured_machine installs refl

do_remove-do_check_example :
    let (exit, m') = do_remove manager configured_machine in
    ((exit ≡ RkcdpSetup.code 0) ↔ (true ≡ true))
    × All (λ (e : RkcdpSetup.Entry). m'.fs e.dst ≡ none) other_files
    × (do_check "6.1" "1" m'.fs ≡ RkcdpSetup.code 1)
    × ((q : String) → IsLeft q → m'.fs q ≡ configured_machine.fs q)
    × (m'.active ≡ false)
    × (m'.enabled ≡ false)
do_remove-do_check_example = do_remove-do_check manager "1" configured_machine refl

do_install_again_example :
    let m1 = (do_install manager "/j" configured_machine).1 in
    let (exit, m2) = do_install manager "/k" m1 in
    (exit ≡ RkcdpSetup.code 0)
    × ((path : String) → m2.fs path ≡ m1.fs path)
    × (m2.active ≡ m1.active)
    × (m2.enabled ≡ m1.enabled && true)
do_install_again_example = do_install_again manager "/j" "/k" configured_machine installs
