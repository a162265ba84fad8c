-- ===== src/Rkcdpd/Target/Adopted.antt =====
-- On the mapping that a daemon takes over or makes (ensure_target of rkcdp/rkcdpd.py).
use Prim.Native.String.{String, ◌++◌ as str_append}
use text.Mathlib.Text.{◌==◌ as str_eq}
use io_filter_driver_for_lin.Base.{
  ℕ, ◌≡◌, ◌⊎◌, inl, inr, refl, sym, ap, ◌∙◌, Bool, false, Option, none, some, List, [], ◌∷◌, ◌++◌,
  if◌then◌else◌, Bool-cases,
}
use io_filter_driver_for_lin.Rkcdpd.Target.{
  Commands, Change, modprobe, create, Target, attached, not_cdp, not_wrapped, command_failed,
  TableDevice, table_not_cdp, table_failed, status_field, device, table_device, checked_status,
  adopt, create_mapping, attach, ensure_target,
}
use io_filter_driver_for_lin.Rkcdpd.Target.Named.{
  Names, TableNames, option_cases, status_field-some, table_device-TableNames,
}

-- The mapping was there: nothing is changed, and the device is that of its table.
abbrev pub IsAdopted : Commands → List Change → String → String → Type 0
IsAdopted c changes path dev =
    (fields : List String) × (c.dm_status ≡ some fields)
    × (changes ≡ [])
    × TableNames c dev
    × Names fields path

-- No mapping was there: it is made for the configured device with all of its sectors, after the module
-- is loaded.
abbrev pub IsMade : Commands → Option String → List Change → String → String → Type 0
IsMade c conf_device changes path dev =
    (c.dm_status ≡ none)
    × (conf_device ≡ some dev)
    × (str_eq dev "" ≡ false)
    × ((n : ℕ) × (c.sectors ≡ some n)
        × (changes ≡ (if c.loaded then create n dev ∷ [] else modprobe ∷ create n dev ∷ [])))
    × ((fields : List String) × (c.status_after ≡ some fields) × Names fields path)

checked_status_attached :
    (fields : List String) (dev path dev' : String)
    → checked_status fields dev ≡ attached path dev'
    → Names fields path × (dev ≡ dev')
unfolding checked_status
checked_status_attached fields dev path dev' h = elim (option_cases (status_field fields)) [
  | inl missing ↦
      absurd (let k : not_cdp ≡ attached path dev' = rw (checked_status, missing) at h in cc)
  | inr (d, e) ↦
      let k : attached (str_append "/dev/" d) dev ≡ attached path dev' =
        rw (checked_status, e) at h in
      let named : str_append "/dev/" d ≡ path = cc in
      let (start, sectors, d', rest, words, same) = status_field-some fields d e in
      ((start, sectors, d', rest, words, sym named ∙ same), cc)
]

adopt_attached :
    (c : Commands) (fields : List String) (path dev : String)
    → adopt c fields ≡ attached path dev
    → TableNames c dev × Names fields path
unfolding adopt
adopt_attached c fields path dev h = adopt_cases (table_device c) refl
  where
    adopt_cases : (t : TableDevice) → table_device c ≡ t → TableNames c dev × Names fields path
    adopt_cases (device d) e =
        let (names, same) = checked_status_attached fields d path dev (rw (adopt, e) at h) in
        (table_device-TableNames c dev (e ∙ ap device same), names)
    adopt_cases table_not_cdp e =
        absurd (let k : not_cdp ≡ attached path dev = rw (adopt, e) at h in cc)
    adopt_cases table_failed e =
        absurd (let k : command_failed ≡ attached path dev = rw (adopt, e) at h in cc)

-- The steps after the module is loaded.
Made : Commands → String → List Change → List Change → String → String → Type 0
Made c dev before changes path dev' =
    (dev ≡ dev')
    × ((n : ℕ) × (c.sectors ≡ some n) × (changes ≡ before ++ create n dev' ∷ []))
    × ((fields : List String) × (c.status_after ≡ some fields) × Names fields path)

create_mapping_attached :
    (c : Commands) (dev : String) (before changes : List Change) (path dev' : String)
    → create_mapping c dev before ≡ (changes, attached path dev')
    → Made c dev before changes path dev'
unfolding create_mapping Made
create_mapping_attached c dev before changes path dev' h = elim (option_cases c.sectors) [
  | inl missing ↦ absurd (
      let k : (before, command_failed) ≡ (changes, attached path dev') =
        rw (create_mapping, missing) at h in
      cc)
  | inr (n, e) ↦ elim (Bool-cases c.create_ok) [
    | inr refused ↦ absurd (
        let k : (before ++ create n dev ∷ [], command_failed) ≡ (changes, attached path dev') =
          rw (create_mapping, e, refused) at h in
        cc)
    | inl made ↦ elim (option_cases c.status_after) [
      | inl gone ↦ absurd (
          let k : (before ++ create n dev ∷ [], command_failed) ≡ (changes, attached path dev') =
            rw (create_mapping, e, made, gone) at h in
          cc)
      | inr (fields, f) ↦
          let k : (before ++ create n dev ∷ [], checked_status fields dev)
              ≡ (changes, attached path dev') =
            rw (create_mapping, e, made, f) at h in
          let (names, same) =
            checked_status_attached fields dev path dev'
              (ap (λ (r : List Change × Target). r.1) k) in
          (
            same,
            (
              n,
              e,
              sym (ap (λ (r : List Change × Target). r.0) k)
                  ∙ ap (λ (s : String). before ++ create n s ∷ []) same,
            ),
            (fields, f, names),
          )
    ]
  ]
]

abbrev unloaded : Commands → String → List Change × Target
unloaded c d =
    if c.modprobe_ok then create_mapping c d (modprobe ∷ []) else (modprobe ∷ [], command_failed)

attach-IsMade :
    (c : Commands) (d : String) (changes : List Change) (path dev : String)
    → c.dm_status ≡ none
    → str_eq d "" ≡ false
    → attach c d ≡ (changes, attached path dev)
    → IsMade c (some d) changes path dev
unfolding attach Made
attach-IsMade c d changes path dev gone named h = elim (Bool-cases c.loaded) [
  | inl here ↦
      let opened : attach c d ≡ create_mapping c d [] =
        ap (λ (b : Bool). if b then create_mapping c d [] else unloaded c d) here in
      let (same, (n, sectors, made), after) =
        create_mapping_attached c d [] changes path dev (sym opened ∙ h) in
      (
        gone,
        ap some same,
        rw (← same) named,
        (
          n,
          sectors,
          made
              ∙ ap (λ (b : Bool). if b then create n dev ∷ [] else modprobe ∷ create n dev ∷ [])
                  (sym here),
        ),
        after,
      )
  | inr missing ↦ elim (Bool-cases c.modprobe_ok) [
    | inl probed ↦
        let opened : attach c d ≡ create_mapping c d (modprobe ∷ []) =
          ap (λ (b : Bool). if b then create_mapping c d [] else unloaded c d) missing
          ∙ ap
              (λ (b : Bool).
                if b then create_mapping c d (modprobe ∷ []) else (modprobe ∷ [], command_failed))
              probed in
        let (same, (n, sectors, made), after) =
          create_mapping_attached c d (modprobe ∷ []) changes path dev (sym opened ∙ h) in
        (
          gone,
          ap some same,
          rw (← same) named,
          (
            n,
            sectors,
            made
                ∙ ap (λ (b : Bool). if b then create n dev ∷ [] else modprobe ∷ create n dev ∷ [])
                    (sym missing),
          ),
          after,
        )
    | inr failed ↦ absurd (
        let k : (modprobe ∷ [], command_failed) ≡ (changes, attached path dev) =
          rw (attach, missing, failed) at h in
        cc)
  ]
]

-- Wherever ensure_target returns a path, either the mapping was there, nothing is changed and the device
-- is the one that its table gives, with cdp as the target, or there was none, and it is made for the
-- configured device with all of its sectors, the module having been loaded if it was not; in both
-- cases the third word of the mapping's status is cdp, and the fourth names the path.
pub ensure_target_attached :
    (c : Commands) (conf_device : Option String) (changes : List Change) (path dev : String)
    → ensure_target c conf_device ≡ (changes, attached path dev)
    → IsAdopted c changes path dev ⊎ IsMade c conf_device changes path dev
unfolding ensure_target
ensure_target_attached c conf_device changes path dev h = elim (option_cases c.dm_status) [
  | inr (fields, e) ↦
      let k : ([], adopt c fields) ≡ (changes, attached path dev) = rw (ensure_target, e) at h in
      let (table, names) =
        adopt_attached c fields path dev (ap (λ (r : List Change × Target). r.1) k) in
      inl (fields, e, sym (ap (λ (r : List Change × Target). r.0) k), table, names)
  | inl none_there ↦ elim (option_cases conf_device) [
    | inl unset ↦ absurd (
        let k : ([], not_wrapped) ≡ (changes, attached path dev) =
          rw (ensure_target, none_there, unset) at h in
        cc)
    | inr (d, e) ↦ elim (Bool-cases (str_eq d "")) [
      | inl empty ↦ absurd (
          let k : ([], not_wrapped) ≡ (changes, attached path dev) =
            rw (ensure_target, none_there, e, empty) at h in
          cc)
      | inr named ↦
          let k : attach c d ≡ (changes, attached path dev) =
            rw (ensure_target, none_there, e, named) at h in
          inr (rw e (attach-IsMade c d changes path dev none_there named k))
    ]
  ]
]
