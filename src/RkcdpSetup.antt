-- ===== src/RkcdpSetup.antt =====
-- rkcdp/rkcdp-setup.py: the files that the installer writes and removes, and its check. What the
-- commands answer is given.
pub mod Paths
pub mod Installed
pub mod Steps
pub mod Order
pub mod Upgrade
use Prim.Native.String.{String, ◌++◌ as ◌<>◌}
use text.Mathlib.Text.{◌==◌ as str_eq, starts_with}
use io_filter_driver_for_lin.Base.{
  ℕ, Bool, true, false, ◌&&◌, ◌||◌, not, Option, none, some, List, [], ◌∷◌, if◌then◌else◌,
}

-- What a file holds: an embedded asset, text, or the configuration with its journal.
pub data Content : Type 0 where
  asset : String → Content
  lines : String → Content
  conf : String → Content

pub record File : Type 0 where
  pub content : Content
  pub mode : ℕ

abbrev pub Files : Type 0
Files = String → Option File

abbrev pub exists : String → Files → Bool
exists path fs = elim (fs path) [ none ↦ false | some f ↦ true ]

unfoldable pub put : String → File → Files → Files
put path f fs q = if str_eq q path then some f else fs q

-- if os.path.exists(p): os.remove(p)
unfoldable pub remove : String → Files → Files
remove path fs q = if str_eq q path then none else fs q

unfoldable pub remove_all : List String → Files → Files
unfolding remove
remove_all [] fs = fs
remove_all (path ∷ paths) fs = remove_all paths (remove path fs)

-- shutil.rmtree(path, ignore_errors=True)
unfoldable pub rmtree : String → Files → Files
rmtree path fs q = if starts_with q (path <> "/") then none else fs q

-- with open(path, "w") as f: f.write(…); a new file has the mode 0o644, an old one keeps its own.
unfoldable pub write_file : String → Content → Files → Files
unfolding put
write_file path content fs =
    put path (record { content = content; mode = elim (fs path) [ none ↦ 420 | some f ↦ f.mode ] })
      fs

-- /lib/modules/{KVER}/extra/dm-cdp.ko
abbrev pub module_path : String → String
module_path kver = "/lib/modules/" <> (kver <> "/extra/dm-cdp.ko")

pub record Entry : Type 0 where
  pub name : String
  pub dst : String
  pub mode : ℕ

-- The entries of FILES behind the first.
abbrev pub other_files : List Entry
other_files =
    record { name = "rkcdpd"; dst = "/opt/rkcdp/rkcdpd"; mode = 493 }
    ∷ record { name = "rkcdp-rebuild"; dst = "/opt/rkcdp/rkcdp-rebuild"; mode = 493 }
    ∷ record { name = "rkcdp-seed"; dst = "/opt/rkcdp/rkcdp-seed"; mode = 493 }
    ∷ record { name = "rkcdpd.service"; dst = "/etc/systemd/system/rkcdpd.service"; mode = 420 }
    ∷ record { name = "hook"; dst = "/etc/initramfs-tools/hooks/rkcdp"; mode = 493 }
    ∷ record {
      name = "local-top";
      dst = "/etc/initramfs-tools/scripts/local-top/rkcdp";
      mode = 493;
    }
    ∷ record { name = "99-rkcdp.rules"; dst = "/etc/udev/rules.d/99-rkcdp.rules"; mode = 420 }
    ∷ []

abbrev pub module_file : String → Entry
module_file kver = record { name = "dm-cdp.ko"; dst = module_path kver; mode = 420 }

-- FILES
abbrev pub setup_files : String → List Entry
setup_files kver = module_file kver ∷ other_files

abbrev pub conf_path : String
conf_path = "/etc/rkcdp/rkcdp.conf"

-- copyfile to dst + ".new", chmod, os.replace
unfoldable pub install_file : Entry → Files → Files
unfolding put remove
install_file e fs =
    put e.dst (record { content = asset e.name; mode = e.mode }) (remove (e.dst <> ".new") fs)

-- for asset, dst, mode in FILES; false where an asset is missing and SystemExit ends the run
unfoldable pub install_files : (String → Bool) → List Entry → Files → Bool × Files
unfolding install_file
install_files embedded [] fs = (true, fs)
install_files embedded (e ∷ entries) fs =
    if embedded e.name then install_files embedded entries (install_file e fs) else (false, fs)

abbrev pub leftovers : List String
leftovers =
    "/etc/systemd/system/rkcdp-applier.service" ∷ "/opt/rkcdp/rkcdp-applier"
    ∷ "/etc/systemd/system/rkcdp-firstboot.service" ∷ "/opt/rkcdp/rkcdp-firstboot.sh"
    ∷ "/opt/rkcdp/rkcdpd.py" ∷ "/opt/rkcdp/rkcdp-rebuild.py" ∷ "/opt/rkcdp/dmcdp.py"
    ∷ "/opt/rkcdp/rkcdp-applier.py" ∷ []

-- The files, and the state of the unit rkcdpd.
pub record Machine : Type 0 where
  pub fs : Files
  pub active : Bool
  pub enabled : Bool
  pub restarted : Bool

-- How a run ends: its exit code, or a SystemExit or another exception on the way.
pub data SetupExit : Type 0 where
  code : ℕ → SetupExit
  stops : SetupExit

-- What the run finds: geteuid, the embedded assets, findmnt's root disk, whether depmod,
-- update-initramfs and systemctl daemon-reload succeed, and whether systemctl restart leaves the unit
-- running and systemctl disable takes effect, whose results the code does not look at.
pub record Host : Type 0 where
  pub root : Bool
  pub embedded : String → Bool
  pub root_disk : Option String
  pub commands : Bool
  pub restart_ok : Bool
  pub disable_ok : Bool
  pub kver : String

-- if not os.path.exists(CONF)
unfoldable pub write_conf : String → Files → Files
unfolding write_file
write_conf journal fs = if exists conf_path fs then fs else write_file conf_path (conf journal) fs

-- The configuration files, from /etc/rkcdp/initramfs.conf on.
unfoldable pub write_confs : String → Files → Files
unfolding write_file write_conf
write_confs journal fs = write_conf journal (
    write_file "/etc/initramfs-tools/conf.d/resume" (lines "RESUME=none\n") (
      write_file "/etc/modprobe.d/dm-cdp.conf" (lines "options dm-cdp ring_mb=1024\n")
        (write_file "/etc/rkcdp/initramfs.conf" (lines "DM_NAME=rkcdp\n") fs)))

abbrev pub io_conf : String → Content
io_conf dev = lines ("[Service]\nIOReadBandwidthMax=" <> (dev <> " 20M\n"))

-- systemctl restart of a running daemon, or disable
unfoldable pub settle_unit : Host → Machine → Machine
settle_unit h m =
    if m.active
    then record m { active = h.restart_ok; restarted = h.restart_ok }
    else record m { enabled = m.enabled && not h.disable_ok }

-- From root_disk() on, where the files so far are `confs`.
unfoldable pub cap_reads : Host → Machine → Files → Option String → SetupExit × Machine
cap_reads h m confs none = (stops, record m { fs = confs })
cap_reads h m confs (some dev) =
    let written = record m {
      fs = write_file "/etc/systemd/system/rkcdpd.service.d/io.conf" (io_conf dev) confs;
    } in
    if h.commands then (code 0, settle_unit h written) else (stops, written)

unfoldable pub do_install : Host → String → Machine → SetupExit × Machine
do_install h journal m =
    let (all, copied) = install_files h.embedded (setup_files h.kver) m.fs in
    let confs = write_confs journal (remove_all leftovers copied) in
    if not h.root
    then (stops, m)
    else if not all
    then (stops, record m { fs = copied })
    else cap_reads h m confs h.root_disk

-- `n`: what lsinitramfs | grep -c printed
unfoldable pub do_check : String → String → Files → SetupExit
do_check kver n fs =
    if exists (module_path kver) fs
      && exists "/etc/initramfs-tools/scripts/local-top/rkcdp" fs
      && not (str_eq n "" || str_eq n "0")
      && exists "/opt/rkcdp/rkcdpd" fs
    then code 0
    else code 1

-- for _, dst, _ in FILES
unfoldable pub remove_files : List Entry → Files → Files
unfolding remove
remove_files [] fs = fs
remove_files (e ∷ entries) fs =
    remove_files entries (if starts_with e.dst "/lib/modules/" then fs else remove e.dst fs)

-- if os.path.exists(dst), for one of the files that are removed
abbrev pub some_there : List String → Files → Bool
some_there [] fs = false
some_there (path ∷ paths) fs = exists path fs || some_there paths fs

abbrev pub removed_paths : List String
removed_paths =
    "/opt/rkcdp/rkcdpd" ∷ "/opt/rkcdp/rkcdp-rebuild" ∷ "/opt/rkcdp/rkcdp-seed"
    ∷ "/etc/systemd/system/rkcdpd.service" ∷ "/etc/initramfs-tools/hooks/rkcdp"
    ∷ "/etc/initramfs-tools/scripts/local-top/rkcdp" ∷ "/etc/udev/rules.d/99-rkcdp.rules"
    ∷ "/etc/rkcdp/initramfs.conf" ∷ []

-- systemctl disable --now
abbrev pub disabled : Host → Machine → Machine
disabled h m = record m {
  active = m.active && not h.disable_ok;
  enabled = m.enabled && not h.disable_ok;
}

-- os.remove raises for a caller who is not root, and rmtree then passes over its errors.
unfoldable pub do_remove : Host → Machine → SetupExit × Machine
do_remove h m =
    let fs =
      remove_all ("/etc/udev/rules.d/99-rkcdp.rules" ∷ "/etc/rkcdp/initramfs.conf" ∷ [])
        (rmtree "/etc/systemd/system/rkcdpd.service.d" (remove_files (setup_files h.kver) m.fs)) in
    let exit = if h.commands then code 0 else stops in
    if h.root
    then (exit, record (disabled h m) { fs = fs })
    else if some_there removed_paths m.fs
    then (stops, disabled h m)
    else (exit, disabled h m)

-- a[a.index("--journal") + 1], or the default; `none` is the IndexError.
unfoldable pub journal_arg : List String → Option String
journal_arg [] = some "/replication/_kvmdr/rkcdp"
journal_arg (arg ∷ []) = if str_eq arg "--journal" then none else some "/replication/_kvmdr/rkcdp"
journal_arg (arg ∷ next ∷ args) =
    let rest = journal_arg (next ∷ args) in if str_eq arg "--journal" then some next else rest

-- flag in a
unfoldable pub has_arg : String → List String → Bool
has_arg flag [] = false
has_arg flag (arg ∷ args) = let rest = has_arg flag args in str_eq arg flag || rest

unfoldable pub setup_main : Host → String → List String → Machine → SetupExit × Machine
setup_main h n args m = elim (journal_arg args) [
  | none ↦ (stops, m)
  | some journal ↦
      if has_arg "--check" args
      then (do_check h.kver n m.fs, m)
      else if has_arg "--remove" args
      then do_remove h m
      else do_install h journal m
]
