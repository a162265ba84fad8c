-- ===== src/RkcdpSetup/Paths.antt =====
-- What copying and removing files leaves of the other paths (rkcdp/rkcdp-setup.py).
use Prim.Native.String.{String, ◌++◌ as ◌<>◌}
use text.Mathlib.Text.{◌==◌ as str_eq, starts_with}
use text.Mathlib.TextPositions.{eq_refl, starts_with-append}
use text.Mathlib.TextEquality.{eq_iff}
use text.Mathlib.TextLemmas.{append_assoc}
use mathlib.Core.Bool.{false≢true}
use io_filter_driver_for_lin.Base.{
  ◌≡◌, refl, sym, ap, ◌∙◌, Bool, true, false, some, List, [], ◌∷◌, All, Bool-cases, inl, inr,
}
use io_filter_driver_for_lin.RkcdpSetup.{
  asset, Files, exists, put, remove, write_file, module_path, Entry, other_files, module_file,
  setup_files, conf_path, install_file, install_files, write_conf,
}

-- Each embedded file is in its place, with its mode.
abbrev pub Holds : Files → Entry → Type 0
Holds fs e = fs e.dst ≡ some (record { content = asset e.name; mode = e.mode })

-- The files with all entries in place.
abbrev pub copy_all : List Entry → Files → Files
copy_all [] fs = fs
copy_all (e ∷ entries) fs = copy_all entries (install_file e fs)

pub install_files-copy_all :
    (embedded : String → Bool) (entries : List Entry) (fs : Files)
    → (install_files embedded entries fs).0 ≡ true
    → (install_files embedded entries fs).1 ≡ copy_all entries fs
unfolding install_files
install_files-copy_all embedded [] fs h = refl
install_files-copy_all embedded (e ∷ entries) fs h = elim (Bool-cases (embedded e.name)) [
  | inl there ↦
      rw there (install_files-copy_all embedded entries (install_file e fs) (rw there at h))
  | inr missing ↦ absurd (false≢true (rw missing at h))
]

-- A path below /lib/modules is none of those that do not begin so.
abbrev pub IsModule : String → Type 0
IsModule p = starts_with p "/lib/modules/" ≡ true

pub module_path-IsModule : (kver : String) → IsModule (module_path kver)
module_path-IsModule kver = starts_with-append "/lib/modules/" (kver <> "/extra/dm-cdp.ko")

pub new_path-IsModule : (kver : String) → IsModule (module_path kver <> ".new")
new_path-IsModule kver =
    ap (λ t. starts_with t "/lib/modules/")
      (append_assoc "/lib/modules/" (kver <> "/extra/dm-cdp.ko") ".new")
    ∙ starts_with-append "/lib/modules/" ((kver <> "/extra/dm-cdp.ko") <> ".new")

pub other_path :
    (p q : String)
    → IsModule p
    → starts_with q "/lib/modules/" ≡ false
    → (str_eq p q ≡ false) × (str_eq q p ≡ false)
other_path p q h k = (apart (λ e. e), apart sym)
  where
    apart : {a b : String} → (a ≡ b → p ≡ q) → str_eq a b ≡ false
    apart {a} {b} to = elim (Bool-cases (str_eq a b)) [
      | inr other ↦ other
      | inl same ↦ absurd (
          false≢true
            (sym k ∙ ap (λ t. starts_with t "/lib/modules/") (sym (to ((eq_iff a b).0 same))) ∙ h))
    ]

pub module-other :
    (kver q : String) → starts_with q "/lib/modules/" ≡ false → str_eq (module_path kver) q ≡ false
module-other kver q h = (other_path (module_path kver) q (module_path-IsModule kver) h).0

abbrev NotOf : String → Entry → Type 0
NotOf q e = (str_eq q e.dst ≡ false) × (str_eq q (e.dst <> ".new") ≡ false)

copy_all-other :
    (q : String) (entries : List Entry) (fs : Files)
    → All (NotOf q) entries
    → copy_all entries fs q ≡ fs q
unfolding install_file put remove
copy_all-other q [] fs h = refl
copy_all-other q (e ∷ entries) fs ((a, b), later) =
    copy_all-other q entries (install_file e fs) later ∙ rw (a, b)

module-NotOf :
    (kver : String) (entries : List Entry)
    → All
        (λ (e : Entry).
          (starts_with e.dst "/lib/modules/" ≡ false)
          × (starts_with (e.dst <> ".new") "/lib/modules/" ≡ false))
        entries
    → All (NotOf (module_path kver)) entries
module-NotOf kver [] h = tt
module-NotOf kver (e ∷ entries) ((a, b), later) = (
  (module-other kver e.dst a, module-other kver (e.dst <> ".new") b),
  module-NotOf kver entries later,
)

other_files-NotOf : (kver : String) → All (NotOf (module_path kver)) other_files
other_files-NotOf kver = module-NotOf kver other_files (
  (refl, refl),
  (
    (refl, refl),
    ((refl, refl), ((refl, refl), ((refl, refl), ((refl, refl), ((refl, refl), tt))))),
  ),
)

copy_all-module :
    (kver : String) (fs : Files) → Holds (copy_all (setup_files kver) fs) (module_file kver)
unfolding install_file put
copy_all-module kver fs =
    copy_all-other (module_path kver) other_files (install_file (module_file kver) fs)
      (other_files-NotOf kver)
    ∙ rw (eq_refl (module_path kver))

pub copy_all-conf :
    (kver : String) (fs : Files) → copy_all (setup_files kver) fs conf_path ≡ fs conf_path
unfolding install_file put remove
copy_all-conf kver fs = copy_all-other conf_path (setup_files kver) fs (
  (
    (other_path _ conf_path (module_path-IsModule kver) refl).1,
    (other_path _ conf_path (new_path-IsModule kver) refl).1,
  ),
  (
    (refl, refl),
    (
      (refl, refl),
      ((refl, refl), ((refl, refl), ((refl, refl), ((refl, refl), ((refl, refl), tt))))),
    ),
  ),
)

pub copy_all-Holds :
    (kver : String) (fs : Files) → All (Holds (copy_all (setup_files kver) fs)) (setup_files kver)
unfolding install_file put remove
copy_all-Holds kver fs =
    (copy_all-module kver fs, (refl, (refl, (refl, (refl, (refl, (refl, (refl, tt))))))))

pub write_conf-other :
    (journal q : String) (fs : Files) → str_eq q conf_path ≡ false → write_conf journal fs q ≡ fs q
unfolding write_conf write_file put
write_conf-other journal q fs h = elim (Bool-cases (exists conf_path fs)) [
  | inl there ↦ rw there
  | inr new ↦ rw (new, h)
]
