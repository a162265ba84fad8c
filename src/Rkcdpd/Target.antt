-- ===== src/Rkcdpd/Target.antt =====
-- table_device and ensure_target of rkcdp/rkcdpd.py: the daemon takes over the dm-cdp mapping that is
-- there, or makes one. What the commands answer is given.
pub mod Adopted
pub mod Named
use Prim.Native.String.{String, ◌++◌ as str_append}
use text.Mathlib.Text.{◌==◌ as str_eq}
use io_filter_driver_for_lin.Base.{ℕ, Bool, Option, none, some, List, [], ◌∷◌, ◌++◌, if◌then◌else◌}

-- The words of what a command prints, where it ends with 0.
abbrev pub Printed : Type 0
Printed = Option (List String)

-- dmsetup status and table of the name, as they are at first; whether lsmod shows dm_cdp; whether
-- modprobe and dmsetup create end with 0; blockdev --getsz; dmsetup status at the end;
-- "/dev/" and the base name of the real path of /sys/dev/block/….
pub record Commands : Type 0 where
  pub dm_status : Printed
  pub dm_table : Printed
  pub loaded : Bool
  pub modprobe_ok : Bool
  pub sectors : Option ℕ
  pub create_ok : Bool
  pub status_after : Printed
  pub block_device : String → String

-- The commands that change something: modprobe dm-cdp, and dmsetup create with the sectors and device of
-- its table.
pub data Change : Type 0 where
  modprobe : Change
  create : ℕ → String → Change

-- The path that is returned with conf["device"], a SystemExit, or a CalledProcessError (root_disk, which
-- words the message of not_wrapped, is taken to find the disk).
pub data Target : Type 0 where
  attached : String → String → Target
  not_cdp not_wrapped command_failed : Target

-- fields[3], unless len(fields) < 4 or fields[2] != "cdp"
unfoldable pub status_field : List String → Option String
status_field (a ∷ b ∷ c ∷ d ∷ fields) = if str_eq c "cdp" then some d else none
status_field fields = none

-- tbl[3], unless len(tbl) < 5 or tbl[2] != "cdp"
unfoldable pub table_field : List String → Option String
table_field (a ∷ b ∷ c ∷ d ∷ e ∷ fields) = if str_eq c "cdp" then some d else none
table_field fields = none

-- The device, or the exception.
pub data TableDevice : Type 0 where
  device : String → TableDevice
  table_not_cdp table_failed : TableDevice

unfoldable pub table_device : Commands → TableDevice
table_device c = elim c.dm_table [
  | none ↦ table_failed
  | some tbl ↦ elim (table_field tbl) [ none ↦ table_not_cdp | some d ↦ device (c.block_device d) ]
]

-- The end of ensure_target, over the fields of `st`.
unfoldable pub checked_status : List String → String → Target
checked_status fields dev = elim (status_field fields) [
  | none ↦ not_cdp
  | some d ↦ attached (str_append "/dev/" d) dev
]

-- st.returncode == 0: conf["device"] = table_device(name)
unfoldable pub adopt : Commands → List String → Target
adopt c fields = elim (table_device c) [
  | device d ↦ checked_status fields d
  | table_not_cdp ↦ not_cdp
  | table_failed ↦ command_failed
]

-- run(["dmsetup", "create", …]) over `changes`, and what follows
unfoldable pub create_mapping : Commands → String → List Change → List Change × Target
create_mapping c dev changes = elim c.sectors [
  | none ↦ (changes, command_failed)
  | some n ↦
      let made = changes ++ create n dev ∷ [] in
      if c.create_ok
      then elim c.status_after [
        | none ↦ (made, command_failed)
        | some fields ↦ (made, checked_status fields dev)
      ]
      else (made, command_failed)
]

-- lsmod, modprobe and the rest, for a device that is configured
unfoldable pub attach : Commands → String → List Change × Target
attach c dev =
    if c.loaded
    then create_mapping c dev []
    else if c.modprobe_ok
    then create_mapping c dev (modprobe ∷ [])
    else (modprobe ∷ [], command_failed)

-- `conf_device` is conf.get("device").
unfoldable pub ensure_target : Commands → Option String → List Change × Target
ensure_target c conf_device = elim c.dm_status [
  | some fields ↦ ([], adopt c fields)
  | none ↦ elim conf_device [
    | none ↦ ([], not_wrapped)
    | some dev ↦ if str_eq dev "" then ([], not_wrapped) else attach c dev
  ]
]
