-- ===== src/RkcdpSetup/Order.antt =====
-- An installation (do_install of rkcdp/rkcdp-setup.py) as the list of its steps.
use Prim.Native.String.{String, ◌++◌ as ◌<>◌}
use text.Mathlib.Text.{◌==◌ as str_eq}
use text.Mathlib.TextEquality.{eq_iff}
use io_filter_driver_for_lin.Base.{
  ◌≡◌, refl, sym, ap, ◌∙◌, true, false, Option, none, some, List, [], ◌∷◌, ◌++◌, map, Bool-cases,
  inl, inr,
}
use io_filter_driver_for_lin.RkcdpSetup.{
  Content, asset, lines, conf, File, Files, exists, put, remove, remove_all, write_file, Entry,
  module_file, other_files, setup_files, conf_path, install_file, leftovers, write_conf,
  write_confs, io_conf,
}
use io_filter_driver_for_lin.RkcdpSetup.Paths.{copy_all, write_conf-other}
use io_filter_driver_for_lin.RkcdpSetup.Installed.{configured}
use io_filter_driver_for_lin.RkcdpSetup.Steps.{
  Step, deletes, installs, rewrites, creates, path_of, effect_of, touch, after, touch_here,
  touch_elsewhere,
}

after-append :
    (q : String) (steps more : List Step) (x : Option File)
    → after q (steps ++ more) x ≡ after q more (after q steps x)
after-append q [] more x = refl
after-append q (s ∷ steps) more x = after-append q steps more (touch q s x)

-- copyfile to dst + ".new", os.replace
abbrev install_steps : List Entry → List Step
install_steps [] = []
install_steps (e ∷ entries) =
    deletes (e.dst <> ".new")
    ∷ installs e.dst (record { content = asset e.name; mode = e.mode })
    ∷ install_steps entries

after-install_steps :
    (q : String) (entries : List Entry) (fs : Files)
    → copy_all entries fs q ≡ after q (install_steps entries) (fs q)
unfolding install_file put remove touch path_of effect_of
after-install_steps q [] fs = refl
after-install_steps q (e ∷ entries) fs = after-install_steps q entries (install_file e fs)

after-deletes :
    (q : String) (paths : List String) (fs : Files)
    → remove_all paths fs q ≡ after q (map deletes paths) (fs q)
unfolding remove_all remove touch path_of effect_of
after-deletes q [] fs = refl
after-deletes q (p ∷ paths) fs = after-deletes q paths (remove p fs)

written-effect_of :
    (p : String) (c : Content) (x : Option File)
    → some (record { content = c; mode = elim x [ none ↦ 420 | some f ↦ f.mode ] })
      ≡ effect_of (rewrites p c) x
unfolding effect_of
written-effect_of p c none = refl
written-effect_of p c (some f) = refl

touch-write_file :
    (q p : String) (c : Content) (fs : Files) → write_file p c fs q ≡ touch q (rewrites p c) (fs q)
unfolding write_file put touch path_of
touch-write_file q p c fs = elim (Bool-cases (str_eq q p)) [
  | inr other ↦ rw other refl
  | inl here ↦ rw here (
      ap (λ r. some (record { content = c; mode = elim (fs r) [ none ↦ 420 | some f ↦ f.mode ] }))
        (sym ((eq_iff q p).0 here))
      ∙ written-effect_of p c (fs q))
]

write_conf_here :
    (journal : String) (fs : Files) (x : Option File)
    → fs conf_path ≡ x
    → write_conf journal fs conf_path ≡ effect_of (creates conf_path (conf journal)) x
unfolding write_conf write_file put effect_of
write_conf_here journal fs none h =
    let new : exists conf_path fs ≡ false = rw (h, exists) refl in rw (new, h) refl
write_conf_here journal fs (some f) h =
    let there : exists conf_path fs ≡ true = rw (h, exists) refl in rw there h

touch-write_conf :
    (q journal : String) (fs : Files)
    → write_conf journal fs q ≡ touch q (creates conf_path (conf journal)) (fs q)
unfolding path_of
touch-write_conf q journal fs = elim (Bool-cases (str_eq q conf_path)) [
  | inr other ↦ write_conf-other journal q fs other ∙ sym (touch_elsewhere q _ (fs q) other)
  | inl here ↦
      let same = (eq_iff q conf_path).0 here in
      ap (write_conf journal fs) same
      ∙ write_conf_here journal fs (fs conf_path) refl
      ∙ ap (λ r. effect_of (creates conf_path (conf journal)) (fs r)) (sym same)
      ∙ sym (touch_here q _ (fs q) here)
]

-- The steps of an installation behind those of the module, in their order.
abbrev pub later_steps : String → String → List Step
later_steps dev journal =
    install_steps other_files
    ++ map deletes leftovers
    ++ rewrites "/etc/rkcdp/initramfs.conf" (lines "DM_NAME=rkcdp\n")
      ∷ rewrites "/etc/modprobe.d/dm-cdp.conf" (lines "options dm-cdp ring_mb=1024\n")
      ∷ rewrites "/etc/initramfs-tools/conf.d/resume" (lines "RESUME=none\n")
      ∷ creates conf_path (conf journal)
      ∷ rewrites "/etc/systemd/system/rkcdpd.service.d/io.conf" (io_conf dev)
      ∷ []

abbrev pub setup_steps : String → String → String → List Step
setup_steps kver dev journal = install_steps (module_file kver ∷ []) ++ later_steps dev journal

pub after-setup_steps :
    (q kver dev journal : String) (fs : Files)
    → configured journal dev (copy_all (setup_files kver) fs) q
      ≡ after q (setup_steps kver dev journal) (fs q)
unfolding write_confs
after-setup_steps q kver dev journal fs =
    let copied = copy_all (setup_files kver) fs in
    let removed : remove_all leftovers copied q ≡ _ =
      after-deletes q leftovers copied
      ∙ ap (after q (map deletes leftovers)) (after-install_steps q (setup_files kver) fs) in
    let f0 = remove_all leftovers copied in
    let f1 = write_file "/etc/rkcdp/initramfs.conf" (lines "DM_NAME=rkcdp\n") f0 in
    let f2 = write_file "/etc/modprobe.d/dm-cdp.conf" (lines "options dm-cdp ring_mb=1024\n") f1 in
    let f3 = write_file "/etc/initramfs-tools/conf.d/resume" (lines "RESUME=none\n") f2 in
    let written =
      touch-write_file q "/etc/initramfs-tools/conf.d/resume" (lines "RESUME=none\n") f2
      ∙ ap (touch q (rewrites "/etc/initramfs-tools/conf.d/resume" (lines "RESUME=none\n"))) (
          touch-write_file q "/etc/modprobe.d/dm-cdp.conf" (lines "options dm-cdp ring_mb=1024\n")
            f1
          ∙ ap
              (touch q
                (rewrites "/etc/modprobe.d/dm-cdp.conf" (lines "options dm-cdp ring_mb=1024\n")))
              (touch-write_file q "/etc/rkcdp/initramfs.conf" (lines "DM_NAME=rkcdp\n") f0
                ∙ ap (touch q (rewrites "/etc/rkcdp/initramfs.conf" (lines "DM_NAME=rkcdp\n")))
                    removed)) in
    touch-write_file q "/etc/systemd/system/rkcdpd.service.d/io.conf" (io_conf dev)
      (write_confs journal f0)
    ∙ ap (touch q (rewrites "/etc/systemd/system/rkcdpd.service.d/io.conf" (io_conf dev)))
        (touch-write_conf q journal f3 ∙ ap (touch q (creates conf_path (conf journal))) written)
