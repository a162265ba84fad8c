-- ===== src/Rkcdpd/Target/Named.antt =====
-- On what the lines of dmsetup name (table_device and the end of ensure_target, of
-- rkcdp/rkcdpd.py).
use Prim.Native.String.{String, ◌++◌ as str_append}
use text.Mathlib.Text.{◌==◌ as str_eq}
use text.Mathlib.TextEquality.{eq_iff}
use io_filter_driver_for_lin.Base.{
  ◌≡◌, ◌⊎◌, inl, inr, refl, ap, ◌∙◌, Option, none, some, List, [], ◌∷◌, Bool-cases,
}
use io_filter_driver_for_lin.Rkcdpd.Target.{
  Commands, table_not_cdp, table_failed, status_field, device, table_field, table_device,
}

-- The line of dmsetup status says that the target is cdp, and gives the device as its fourth word.
abbrev pub Names : List String → String → Type 0
Names fields path =
    (start : String) × (sectors : String) × (d : String) × (rest : List String) × (fields
      ≡ start ∷ sectors ∷ "cdp" ∷ d ∷ rest)
    × (path ≡ str_append "/dev/" d)

-- The line of dmsetup table says that the target is cdp, and gives the device number as its fourth
-- word, with at least one more behind it.
abbrev pub TableNames : Commands → String → Type 0
TableNames c dev =
    (start : String) × (sectors : String) × (number : String) × (last : String) × (rest : List
      String)
    × (c.dm_table ≡ some (start ∷ sectors ∷ "cdp" ∷ number ∷ last ∷ rest))
    × (dev ≡ c.block_device number)

pub option_cases {ℓ} : {A : Type ℓ} (o : Option A) → (o ≡ none) ⊎ ((a : A) × (o ≡ some a))
option_cases none = inl refl
option_cases (some a) = inr (a, refl)

pub status_field-some :
    (fields : List String) (d : String)
    → status_field fields ≡ some d
    → Names fields (str_append "/dev/" d)
unfolding status_field
status_field-some [] d h = cc
status_field-some (a ∷ []) d h = cc
status_field-some (a ∷ b ∷ []) d h = cc
status_field-some (a ∷ b ∷ c ∷ []) d h = cc
status_field-some (a ∷ b ∷ c ∷ e ∷ rest) d h = elim (Bool-cases (str_eq c "cdp")) [
  | inl same ↦ (
    a,
    b,
    e,
    rest,
    ap (λ (t : String). a ∷ b ∷ t ∷ e ∷ rest) ((eq_iff c "cdp").0 same),
    let k : some e ≡ some d = rw same at h in cc,
  )
  | inr other ↦ absurd (let k : none ≡ some d = rw other at h in cc)
]

-- What table_field has found in these words.
TableHas : List String → String → Type 0
TableHas tbl number =
    (start : String) × (sectors : String) × (last : String) × (rest : List String) × (tbl
      ≡ start ∷ sectors ∷ "cdp" ∷ number ∷ last ∷ rest)

table_field-some :
    (tbl : List String) (number : String) → table_field tbl ≡ some number → TableHas tbl number
unfolding table_field TableHas
table_field-some [] d h = cc
table_field-some (a ∷ []) d h = cc
table_field-some (a ∷ b ∷ []) d h = cc
table_field-some (a ∷ b ∷ c ∷ []) d h = cc
table_field-some (a ∷ b ∷ c ∷ e ∷ []) d h = cc
table_field-some (a ∷ b ∷ c ∷ e ∷ f ∷ rest) d h = elim (Bool-cases (str_eq c "cdp")) [
  | inl same ↦
      let k : some e ≡ some d = rw same at h in
      let there : e ≡ d = cc in
      (
        a,
        b,
        f,
        rest,
        ap (λ (t : String). a ∷ b ∷ t ∷ e ∷ f ∷ rest) ((eq_iff c "cdp").0 same)
            ∙ ap (λ (t : String). a ∷ b ∷ "cdp" ∷ t ∷ f ∷ rest) there,
      )
  | inr other ↦ absurd (let k : none ≡ some d = rw other at h in cc)
]

pub table_device-TableNames :
    (c : Commands) (dev : String) → table_device c ≡ device dev → TableNames c dev
unfolding table_device TableHas
table_device-TableNames c dev h = elim (option_cases c.dm_table) [
  | inl failed ↦ absurd (let k : table_failed ≡ device dev = rw (table_device, failed) at h in cc)
  | inr (tbl, e) ↦ elim (option_cases (table_field tbl)) [
    | inl missing ↦
        absurd (let k : table_not_cdp ≡ device dev = rw (table_device, e, missing) at h in cc)
    | inr (number, found) ↦
        let k : device (c.block_device number) ≡ device dev = rw (table_device, e, found) at h in
        let (start, sectors, last, rest, words) = table_field-some tbl number found in
        (start, sectors, number, last, rest, e ∙ ap some words, cc)
  ]
]
