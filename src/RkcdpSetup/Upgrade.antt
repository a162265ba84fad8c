-- ===== src/RkcdpSetup/Upgrade.antt =====
-- On an installation over an installation (do_install of rkcdp/rkcdp-setup.py).
use Prim.Native.String.{String, ◌++◌ as ◌<>◌}
use text.Mathlib.Text.{◌==◌ as str_eq, starts_with}
use text.Mathlib.TextEquality.{eq_iff}
use text.Mathlib.TextLemmas.{append_cancel_left, append-nil}
use mathlib.Core.Bool.{false≢true}
use io_filter_driver_for_lin.Base.{
  ◌≡◌, refl, sym, ap, ◌∙◌, Bool, true, false, ◌&&◌, ◌||◌, not, Option, none, some, List, [], ◌∷◌,
  arith, All, Bool-cases, inl, inr, if◌then◌else◌,
}
use io_filter_driver_for_lin.RkcdpSetup.{
  conf, File, Files, module_path, Entry, setup_files, install_file, install_files, Machine,
  SetupExit, code, Host, settle_unit, cap_reads, do_install,
}
use io_filter_driver_for_lin.RkcdpSetup.Paths.{
  module_path-IsModule, new_path-IsModule, IsModule, other_path,
}
use io_filter_driver_for_lin.RkcdpSetup.Installed.{install_if, do_install-Installs}
use mathlib.Core.Option.{some-injective}
use io_filter_driver_for_lin.RkcdpSetup.Steps.{
  Step, path_of, after, renew, Elsewhere, AllDistinct, after_again,
}
use io_filter_driver_for_lin.RkcdpSetup.Order.{later_steps, setup_steps, after-setup_steps}

-- The tests that the paths of some steps are apart.
abbrev is_apart : String → List Step → Bool
is_apart p [] = true
is_apart p (s ∷ steps) = not (str_eq p (path_of s)) && is_apart p steps

abbrev are_distinct : List Step → Bool
are_distinct [] = true
are_distinct (s ∷ steps) = is_apart (path_of s) steps && are_distinct steps

abbrev is_outside : List Step → Bool
is_outside [] = true
is_outside (s ∷ steps) = not (starts_with (path_of s) "/lib/modules/") && is_outside steps

apart-Elsewhere :
    (p : String) (steps : List Step) → is_apart p steps ≡ true → All (Elsewhere p) steps
apart-Elsewhere p [] h = tt
apart-Elsewhere p (s ∷ steps) h = (ground arith, apart-Elsewhere p steps (ground arith))

distinct-AllDistinct : (steps : List Step) → are_distinct steps ≡ true → AllDistinct steps
distinct-AllDistinct [] h = tt
distinct-AllDistinct (s ∷ steps) h =
    (apart-Elsewhere (path_of s) steps (ground arith), distinct-AllDistinct steps (ground arith))

outside-Elsewhere :
    (p : String) (steps : List Step)
    → IsModule p
    → is_outside steps ≡ true
    → All (Elsewhere p) steps
outside-Elsewhere p [] m h = tt
outside-Elsewhere p (s ∷ steps) m h =
    ((other_path p (path_of s) m (ground arith)).0, outside-Elsewhere p steps m (ground arith))

new_path_apart : (p : String) → str_eq (p <> ".new") p ≡ false
new_path_apart p = elim (Bool-cases (str_eq (p <> ".new") p)) [
  | inr other ↦ other
  | inl same ↦
      let longer : p <> ".new" ≡ p <> "" = (eq_iff (p <> ".new") p).0 same ∙ sym (append-nil p) in
      absurd (false≢true ((eq_iff ".new" "").1 (append_cancel_left p ".new" "" longer)))
]

setup_steps-AllDistinct : (kver dev journal : String) → AllDistinct (setup_steps kver dev journal)
unfolding path_of
setup_steps-AllDistinct kver dev journal = (
  (
    new_path_apart (module_path kver),
    outside-Elsewhere (module_path kver <> ".new") (later_steps dev journal)
        (new_path-IsModule kver) refl,
  ),
  (
    outside-Elsewhere (module_path kver) (later_steps dev journal) (module_path-IsModule kver) refl,
    distinct-AllDistinct (later_steps dev journal) refl,
  ),
)

-- The second round may be for another journal.
setup_steps_again :
    (q kver dev journal journal' : String) (x : Option File)
    → after q (setup_steps kver dev journal') (after q (setup_steps kver dev journal) x)
      ≡ after q (setup_steps kver dev journal) x
unfolding renew
setup_steps_again q kver dev journal journal' x =
    after_again q (conf journal') (setup_steps kver dev journal) x
      (setup_steps-AllDistinct kver dev journal)

installed-code :
    (embedded : String → Bool) (entries : List Entry) (fs fs' : Files)
    → (install_files embedded entries fs).0 ≡ (install_files embedded entries fs').0
unfolding install_files
installed-code embedded [] fs fs' = refl
installed-code embedded (e ∷ entries) fs fs' =
    ground (arith, installed-code embedded entries (install_file e fs) (install_file e fs'))

-- How an installation ends does not hang on the machine or on the journal.
code-cap_reads :
    (h : Host) (disk : Option String) (m m' : Machine) (confs confs' : Files)
    → (cap_reads h m confs disk).0 ≡ (cap_reads h m' confs' disk).0
unfolding cap_reads
code-cap_reads h none m m' confs confs' = refl
code-cap_reads h (some dev) m m' confs confs' = ground arith

code-if :
    (b b' : Bool) (x x' y y' : SetupExit × Machine)
    → b ≡ b'
    → x.0 ≡ x'.0
    → y.0 ≡ y'.0
    → (if b then x else y).0 ≡ (if b' then x' else y').0
code-if b true x x' y y' e h k = rw e h
code-if b false x x' y y' e h k = rw e k

code-do_install :
    (h : Host) (journal journal' : String) (m m' : Machine)
    → (do_install h journal m).0 ≡ (do_install h journal' m').0
unfolding do_install
code-do_install h journal journal' m m' = code-if (not h.root) (not h.root) _ _ _ _ refl refl (
    code-if _ _ _ _ _ _ (ap not (installed-code h.embedded (setup_files h.kver) m.fs m'.fs)) refl
      (code-cap_reads h h.root_disk m m' _ _))

-- What an installation that ends with code 0 has done to the unit.
abbrev HasUnit : Host → Machine → SetupExit × Machine → Type 0
HasUnit h m r =
    r.0 ≡ code 0
    → (r.1.active ≡ m.active && h.restart_ok)
      × (r.1.enabled ≡ m.enabled && (m.active || not h.disable_ok))

cap_reads-HasUnit :
    (h : Host) (m : Machine) (confs : Files) (disk : Option String)
    → HasUnit h m (cap_reads h m confs disk)
unfolding cap_reads settle_unit
cap_reads-HasUnit h m confs none e = absurd (ground arith)
cap_reads-HasUnit h m confs (some dev) e = ground arith

do_install-HasUnit :
    (h : Host) (journal : String) (m : Machine) → HasUnit h m (do_install h journal m)
unfolding do_install
do_install-HasUnit h journal m =
    install_if (not h.root) _ _ (HasUnit h m) (λ root e. absurd (ground arith))
      (λ root.
        install_if (not (install_files h.embedded (setup_files h.kver) m.fs).0) _ _ (HasUnit h m)
          (λ all e. absurd (ground arith)) (λ all. cap_reads-HasUnit h m _ h.root_disk))

-- An installation over one that ended with code 0 ends with code 0 again and changes no file,
-- whatever journal it is given: the configuration keeps the first one. The unit is as active as
-- before, and as enabled, unless the first one failed to restart a running daemon: the second one
-- then disables it, where that command takes effect.
pub do_install_again :
    (h : Host) (journal journal' : String) (m : Machine)
    → (do_install h journal m).0 ≡ code 0
    → let m1 = (do_install h journal m).1 in
      let (exit, m2) = do_install h journal' m1 in
      (exit ≡ code 0)
      × ((path : String) → m2.fs path ≡ m1.fs path)
      × (m2.active ≡ m1.active)
      × (m2.enabled ≡ m1.enabled && (not m.active || h.restart_ok || not h.disable_ok))
do_install_again h journal journal' m e =
    let m1 = (do_install h journal m).1 in
    let m2 = (do_install h journal' m1).1 in
    let again : (do_install h journal' m1).0 ≡ code 0 =
      code-do_install h journal' journal m1 m ∙ e in
    let (dev, known, written) = do_install-Installs h journal m e in
    let (dev', known', written') = do_install-Installs h journal' m1 again in
    let (active, enabled) = do_install-HasUnit h journal m e in
    let (active', enabled') = do_install-HasUnit h journal' m1 again in
    let same_disk : dev' ≡ dev = some-injective dev' dev (sym known' ∙ known) in
    (
      again,
      λ path.
          let steps = setup_steps h.kver dev journal in
          let first : m1.fs path ≡ after path steps (m.fs path) =
            ap (λ (fs : Files). fs path) written ∙ after-setup_steps path h.kver dev journal m.fs in
          ap (λ (fs : Files). fs path) written'
          ∙ after-setup_steps path h.kver dev' journal' m1.fs
          ∙ ap (λ t. after path (setup_steps h.kver t journal') (m1.fs path)) same_disk
          ∙ ap (after path (setup_steps h.kver dev journal')) first
          ∙ setup_steps_again path h.kver dev journal journal' (m.fs path)
          ∙ sym first,
      ground (arith, active, active'),
      ground (arith, active, enabled, active', enabled'),
    )
