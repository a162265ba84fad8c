-- ===== src/Tests/Written.antt =====
-- The theorems on documents that are written, applied to one of two bytes.
use io_filter_driver_for_lin.Base.{
  ℕ, ◌≡◌, ◌⊎◌, refl, true, false, Option, none, some, List, [], ◌∷◌, ◌==◌, if◌then◌else◌, length,
  take,
}
use io_filter_driver_for_lin.WriteJson.{
  Disk, calls, write_json, write_unsynced, flush, load_json, load_or_default,
}
use io_filter_driver_for_lin.WriteJson.Survived.{
  Survives, write_json-Survives, write_unsynced-Survives,
}

-- A parser that takes two bytes.
abbrev parse_two : List ℕ → Option ℕ
parse_two bytes = if length bytes == 2 then some 1 else none

abbrev braces : List (List ℕ)
braces = (123 ∷ []) ∷ (125 ∷ []) ∷ []

abbrev old_disk : Disk
old_disk = record {
  path = some (record { bytes = 123 ∷ 32 ∷ 125 ∷ []; synced = true });
  tmp = none;
  before = [];
}

write_json-Survives_example :
    ((k : ℕ) (o : Option (List ℕ))
      → Survives (calls (take k (write_json braces)) old_disk) o
      → Survives old_disk o ⊎ (load_json parse_two o ≡ some (some 1)))
    × ((calls (write_json braces) old_disk).path
        ≡ some (record { bytes = 123 ∷ 125 ∷ []; synced = true }))
write_json-Survives_example = write_json-Survives parse_two 1 braces old_disk refl

write_unsynced-Survives_example :
    let d' = calls (write_unsynced braces) old_disk in
    (calls (flush true braces) old_disk ≡ d')
    × (d'.path ≡ some (record { bytes = 123 ∷ 125 ∷ []; synced = false }))
    × Survives d' (some [])
    × (load_or_default parse_two 0 (some []) ≡ 0)
write_unsynced-Survives_example = write_unsynced-Survives parse_two 0 braces old_disk [] refl
