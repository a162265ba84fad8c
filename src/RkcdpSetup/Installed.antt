-- ===== src/RkcdpSetup/Installed.antt =====
-- On what an installation and a removal leave (rkcdp/rkcdp-setup.py).
use Prim.Native.String.{String}
use text.Mathlib.Text.{◌==◌ as str_eq, starts_with}
use io_filter_driver_for_lin.Base.{
  ◌≡◌, ◌↔◌, refl, ap, ◌∙◌, Bool, true, false, ◌||◌, not, Option, none, some, List, [], ◌∷◌, arith,
  All, if◌then◌else◌, ◌&&◌,
}
use io_filter_driver_for_lin.RkcdpSetup.{
  File, Files, put, remove, remove_all, rmtree, write_file, module_path, Entry, other_files,
  setup_files, conf_path, install_files, leftovers, Machine, SetupExit, code, stops, Host,
  write_conf, write_confs, io_conf, settle_unit, cap_reads, do_install, do_check, remove_files,
  do_remove, removed_paths,
}
use io_filter_driver_for_lin.RkcdpSetup.Paths.{
  Holds, copy_all, install_files-copy_all, module_path-IsModule, module-other, copy_all-conf,
  copy_all-Holds, write_conf-other,
}

-- What the later steps of an installation write is none of these paths.
abbrev Apart : String → Type 0
Apart q =
    (str_eq q conf_path ≡ false)
    × (str_eq q "/etc/systemd/system/rkcdpd.service.d/io.conf" ≡ false)
    × (str_eq q "/etc/initramfs-tools/conf.d/resume" ≡ false)
    × (str_eq q "/etc/modprobe.d/dm-cdp.conf" ≡ false)
    × (str_eq q "/etc/rkcdp/initramfs.conf" ≡ false)
    × All (λ p. str_eq q p ≡ false) leftovers

remove_all-other :
    (q : String) (paths : List String) (fs : Files)
    → All (λ p. str_eq q p ≡ false) paths
    → remove_all paths fs q ≡ fs q
unfolding remove_all
remove_all-other q [] fs h = refl
remove_all-other q (p ∷ paths) fs (h, later) =
    remove_all-other q paths (remove p fs) later ∙ unfold remove in rw h

abbrev pub configured : String → String → Files → Files
configured journal dev fs =
    write_file "/etc/systemd/system/rkcdpd.service.d/io.conf" (io_conf dev)
      (write_confs journal (remove_all leftovers fs))

configured-other :
    (journal dev q : String) (fs : Files) → Apart q → configured journal dev fs q ≡ fs q
unfolding write_confs write_file put
configured-other journal dev q fs (c, io, r, m, i, left) =
    rw (io, write_conf-other journal q _ c, r, m, i) (remove_all-other q leftovers fs left)

files-Apart : (kver : String) → All (λ (e : Entry). Apart e.dst) (setup_files kver)
files-Apart kver = (
  (
    module-other kver _ refl,
    module-other kver _ refl,
    module-other kver _ refl,
    module-other kver _ refl,
    module-other kver _ refl,
    leftovers-other leftovers (refl, (refl, (refl, (refl, (refl, (refl, (refl, (refl, tt)))))))),
  ),
  ground arith,
)
  where
    leftovers-other :
        (paths : List String)
        → All (λ p. starts_with p "/lib/modules/" ≡ false) paths
        → All (λ p. str_eq (module_path kver) p ≡ false) paths
    leftovers-other [] h = tt
    leftovers-other (p ∷ paths) (h, later) = (module-other kver p h, leftovers-other paths later)

All-Holds :
    (entries : List Entry) (fs fs' : Files)
    → All (λ (e : Entry). fs' e.dst ≡ fs e.dst) entries
    → All (Holds fs) entries
    → All (Holds fs') entries
All-Holds [] fs fs' same h = tt
All-Holds (e ∷ entries) fs fs' (same, later) (here, rest) =
    (same ∙ here, All-Holds entries fs fs' later rest)

All-other :
    (journal dev : String) (entries : List Entry) (fs : Files)
    → All (λ (e : Entry). Apart e.dst) entries
    → All (λ (e : Entry). configured journal dev fs e.dst ≡ fs e.dst) entries
All-other journal dev [] fs h = tt
All-other journal dev (e ∷ entries) fs (h, later) =
    (configured-other journal dev e.dst fs h, All-other journal dev entries fs later)

pub install_if :
    (b : Bool) (x y : SetupExit × Machine) (P : SetupExit × Machine → Type 0)
    → (b ≡ true → P x)
    → (b ≡ false → P y)
    → P (if b then x else y)
install_if true x y P yes_ no_ = yes_ refl
install_if false x y P yes_ no_ = no_ refl

-- What an installation that ends with code 0 has done to the files.
abbrev pub Installs : Host → String → Files → SetupExit × Machine → Type 0
Installs h journal fs r =
    r.0 ≡ code 0
    → (dev : String) × (h.root_disk ≡ some dev)
      × (r.1.fs ≡ configured journal dev (copy_all (setup_files h.kver) fs))

stops-Installs :
    (h : Host) (journal : String) (fs : Files) (m : Machine) → Installs h journal fs (stops, m)
stops-Installs h journal fs m e = absurd (ground arith)

settle_unit-fs : (h : Host) (m : Machine) → (settle_unit h m).fs ≡ m.fs
unfolding settle_unit
settle_unit-fs h m = ground arith

-- The caps of this disk are written over `confs`.
abbrev Capped : Files → String → SetupExit × Machine → Type 0
Capped confs known r =
    r.0 ≡ code 0
    → (dev : String) × (some known ≡ some dev)
      × (r.1.fs ≡ write_file "/etc/systemd/system/rkcdpd.service.d/io.conf" (io_conf dev) confs)

cap_reads-Installs :
    (h : Host) (m : Machine) (confs : Files) (disk : Option String)
    → (cap_reads h m confs disk).0 ≡ code 0
    → (dev : String) × (disk ≡ some dev)
      × ((cap_reads h m confs disk).1.fs
          ≡ write_file "/etc/systemd/system/rkcdpd.service.d/io.conf" (io_conf dev) confs)
unfolding cap_reads
cap_reads-Installs h m confs none = λ e. absurd (ground arith)
cap_reads-Installs h m confs (some dev) =
    install_if h.commands _ _ (Capped confs dev) (λ ran e. (dev, refl, settle_unit-fs h _))
      (λ failed e. absurd (ground arith))

pub do_install-Installs :
    (h : Host) (journal : String) (m : Machine) → Installs h journal m.fs (do_install h journal m)
unfolding do_install
do_install-Installs h journal m =
    let installed = install_files h.embedded (setup_files h.kver) m.fs in
    install_if (not h.root) _ _ (Installs h journal m.fs) (λ e. stops-Installs h journal m.fs m)
      (λ root.
        install_if (not installed.0) _ _ (Installs h journal m.fs)
          (λ e. stops-Installs h journal m.fs (record m { fs = installed.1 }))
          (λ all e.
            let (dev, known, written) =
              cap_reads-Installs h m (write_confs journal (remove_all leftovers installed.1))
                h.root_disk e in
            (
              dev,
              known,
              written
                  ∙ ap (configured journal dev)
                      (install_files-copy_all h.embedded (setup_files h.kver) m.fs (ground arith)),
            )))

configured-conf :
    (journal dev : String) (fs : Files) (f : File)
    → fs conf_path ≡ some f
    → configured journal dev fs conf_path ≡ some f
unfolding write_confs write_conf write_file remove_all remove put
configured-conf journal dev fs f h = rw h h

-- An installation that ends with code 0 has put every embedded file in its place with its mode,
-- passes the check where the initramfs has the module, and has left a configuration that was there
-- as it was.
pub do_install-do_check :
    (h : Host) (journal n : String) (m : Machine)
    → (do_install h journal m).0 ≡ code 0
    → str_eq n "" || str_eq n "0" ≡ false
    → let fs = (do_install h journal m).1.fs in
      All (Holds fs) (setup_files h.kver)
      × (do_check h.kver n fs ≡ code 0)
      × ((f : File) → m.fs conf_path ≡ some f → fs conf_path ≡ some f)
unfolding do_check
do_install-do_check h journal n m e shown =
    let (dev, known, written) = do_install-Installs h journal m e in
    let copied = copy_all (setup_files h.kver) m.fs in
    let held =
      All-Holds (setup_files h.kver) copied (configured journal dev copied)
        (All-other journal dev (setup_files h.kver) copied (files-Apart h.kver))
        (copy_all-Holds h.kver m.fs) in
    rw written (
      held,
      ground (arith, held),
      λ f there. configured-conf journal dev copied f (copy_all-conf h.kver m.fs ∙ there),
    )

removed_files :
    (kver : String) (fs : Files) → remove_files (setup_files kver) fs ≡ remove_files other_files fs
unfolding remove_files
removed_files kver fs = rw (module_path-IsModule kver)

-- The files after a removal, given what the loop over FILES leaves.
abbrev cleared : Files → Files
cleared fs =
    remove_all ("/etc/udev/rules.d/99-rkcdp.rules" ∷ "/etc/rkcdp/initramfs.conf" ∷ [])
      (rmtree "/etc/systemd/system/rkcdpd.service.d" fs)

fs-do_remove :
    (h : Host) (m : Machine)
    → h.root ≡ true
    → (do_remove h m).1.fs ≡ cleared (remove_files other_files m.fs)
unfolding do_remove
fs-do_remove h m root = rw root (ap cleared (removed_files h.kver m.fs))

-- A path that a removal does not name.
abbrev pub IsLeft : String → Type 0
IsLeft q =
    All (λ p. str_eq q p ≡ false) removed_paths
    × (starts_with q "/etc/systemd/system/rkcdpd.service.d/" ≡ false)

cleared-IsLeft :
    (q : String) (fs : Files) → IsLeft q → cleared (remove_files other_files fs) q ≡ fs q
unfolding remove_all remove rmtree remove_files
cleared-IsLeft q fs (apart, outside) = ground (arith, apart, outside)

-- A removal that root runs ends with code 0 just if update-initramfs and the reload succeed. However
-- it ends, none of the embedded files behind the kernel module is there and the check fails, every
-- path that is not one of the removed ones nor in the directory of io.conf holds what it held, and the
-- daemon is stopped and disabled where the
-- command for that took effect, and left as it was where not.
pub do_remove-do_check :
    (h : Host) (n : String) (m : Machine)
    → h.root ≡ true
    → let (exit, m') = do_remove h m in
      ((exit ≡ code 0) ↔ (h.commands ≡ true))
      × All (λ (e : Entry). m'.fs e.dst ≡ none) other_files
      × (do_check h.kver n m'.fs ≡ code 1)
      × ((q : String) → IsLeft q → m'.fs q ≡ m.fs q)
      × (m'.active ≡ m.active && not h.disable_ok)
      × (m'.enabled ≡ m.enabled && not h.disable_ok)
unfolding do_check remove_all remove rmtree remove_files
do_remove-do_check h n m root =
    let left = λ (q : String) (out : IsLeft q).
      ap (λ (fs : Files). fs q) (fs-do_remove h m root) ∙ cleared-IsLeft q m.fs out in
    let cleared_all : All (λ (e : Entry). (do_remove h m).1.fs e.dst ≡ none) other_files =
      rw (fs-do_remove h m root) (refl, (refl, (refl, (refl, (refl, (refl, (refl, tt))))))) in
    (
      unfold do_remove in (λ e. ground (arith, root, e), λ e. ground (arith, root, e)),
      cleared_all,
      ground (arith, cleared_all),
      left,
      unfold do_remove in ground (arith, root),
      unfold do_remove in ground (arith, root),
    )
