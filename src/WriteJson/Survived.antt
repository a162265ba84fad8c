-- ===== src/WriteJson/Survived.antt =====
-- On what a power failure leaves of a document that is being written (write_json of rkcdp/rkcdpd.py and
-- of rkcdp/rkcdp-seed.py, Progress.flush of rkcdp/rkcdp-rebuild.py).
use io_filter_driver_for_lin.Base.{
  ℕ, zero, suc, ◌≡◌, ◌⊎◌, inl, inr, refl, sym, ap, ◌∙◌, true, false, Option, none, some, List, [],
  ◌∷◌, ◌++◌, append_assoc, append-nil, take, take-nil,
}
use io_filter_driver_for_lin.WriteJson.{
  FileState, Disk, fsync, replace, call, calls, dump, write_json, write_unsynced, load_json, flush,
  load_or_default,
}

-- What a power failure may leave of a file: all of its bytes once they are synced, and before that
-- anything.
abbrev pub Leaves : Option FileState → Option (List ℕ) → Type 0
Leaves none o = o ≡ none
Leaves (some f) o = elim f.synced [
  | true ↦ o ≡ some f.bytes
  | false ↦ (bytes : List ℕ) × (o ≡ some bytes)
]

-- The directory on the disk names the file that the path has now, or one that it had before.
abbrev pub SurvivesFrom : Option FileState → List (Option FileState) → Option (List ℕ) → Type 0
SurvivesFrom f [] o = Leaves f o
SurvivesFrom f (g ∷ before) o = Leaves f o ⊎ SurvivesFrom g before o

-- What may be found at the path after a power failure.
abbrev pub Survives : Disk → Option (List ℕ) → Type 0
Survives d o = SurvivesFrom d.path d.before o

abbrev pub document : List (List ℕ) → List ℕ
document [] = []
document (piece ∷ pieces) = piece ++ document pieces

replace-SurvivesFrom :
    (f : FileState) (path : Option FileState) (before : List (Option FileState))
    (o : Option (List ℕ))
    → f.synced ≡ true
    → SurvivesFrom (some f) (path ∷ before) o
    → SurvivesFrom path before o ⊎ (o ≡ some f.bytes)
replace-SurvivesFrom f path before o whole (inl new) = inr (rw whole at new)
replace-SurvivesFrom f path before o whole (inr old) = inl old

dump-Survives :
    (pieces : List (List ℕ)) (k : ℕ) (f : FileState) (path : Option FileState)
    (before : List (Option FileState)) (o : Option (List ℕ))
    → let d : Disk = record { path = path; tmp = some f; before = before } in
      Survives (calls (take k (dump pieces (fsync ∷ replace ∷ []))) d) o
      → SurvivesFrom path before o ⊎ (o ≡ some (f.bytes ++ document pieces))
unfolding calls call
dump-Survives [] zero f path before o s = inl s
dump-Survives [] (suc zero) f path before o s = inl s
dump-Survives [] (suc (suc k)) f path before o s =
    rw (append-nil f.bytes)
      (replace-SurvivesFrom (record f { synced = true }) path before o refl (rw (take-nil k) at s))
dump-Survives (piece ∷ pieces) zero f path before o s = inl s
dump-Survives (piece ∷ pieces) (suc k) f path before o s =
    rw (← append_assoc f.bytes piece (document pieces))
      (dump-Survives pieces k (record { bytes = f.bytes ++ piece; synced = false }) path before o s)

dump_ends :
    (pieces : List (List ℕ)) (f : FileState) (path : Option FileState)
    (before : List (Option FileState))
    → let d : Disk = record { path = path; tmp = some f; before = before } in
      (calls (dump pieces (fsync ∷ replace ∷ [])) d).path
      ≡ some (record { bytes = f.bytes ++ document pieces; synced = true })
unfolding calls call
dump_ends [] f path before =
    ap (λ bs. some (record { bytes = bs; synced = true })) (sym (append-nil f.bytes))
dump_ends (piece ∷ pieces) f path before =
    dump_ends pieces (record { bytes = f.bytes ++ piece; synced = false }) path before
    ∙ ap (λ bs. some (record { bytes = bs; synced = true }))
        (append_assoc f.bytes piece (document pieces))

-- A power failure at any of the calls of write_json leaves at the path what one before it might have
-- left, or the new document, which load_json then reads; and once the calls are done, the path shows
-- that document. The pieces in which json.dump writes are any that parse as it.
pub write_json-Survives {ℓ} :
    {A : Type ℓ} (parse : List ℕ → Option A) (v : A) (pieces : List (List ℕ)) (d : Disk)
    → parse (document pieces) ≡ some v
    → ((k : ℕ) (o : Option (List ℕ))
        → Survives (calls (take k (write_json pieces)) d) o
        → Survives d o ⊎ (load_json parse o ≡ some (some v)))
      × ((calls (write_json pieces) d).path
          ≡ some (record { bytes = document pieces; synced = true }))
unfolding write_json load_json calls call
write_json-Survives parse v pieces d parsed =
    (survives, dump_ends pieces (record { bytes = []; synced = false }) d.path d.before)
  where
    survives :
        (k : ℕ) (o : Option (List ℕ))
        → Survives (calls (take k (write_json pieces)) d) o
        → Survives d o ⊎ (load_json parse o ≡ some (some v))
    survives zero o s = inl s
    survives (suc k) o s =
        elim (dump-Survives pieces k (record { bytes = []; synced = false }) d.path d.before o s) [
          | inl old ↦ inl old
          | inr new ↦ inr (rw (new, load_json, parsed) refl)
        ]

unsynced_lem :
    (pieces : List (List ℕ)) (f : FileState) (path : Option FileState)
    (before : List (Option FileState)) (bytes : List ℕ)
    → f.synced ≡ false
    → let d : Disk = record { path = path; tmp = some f; before = before } in
      let d' = calls (dump pieces (replace ∷ [])) d in
      (d'.path ≡ some (record { bytes = f.bytes ++ document pieces; synced = false }))
      × Survives d' (some bytes)
unfolding calls call
unsynced_lem [] f path before bytes e = (
  ap (λ bs. some (record { bytes = bs; synced = f.synced })) (sym (append-nil f.bytes))
      ∙ ap (λ b. some (record { bytes = f.bytes ++ []; synced = b })) e,
  inl (rw e (bytes, refl)),
)
unsynced_lem (piece ∷ pieces) f path before bytes e =
    let written_piece : FileState = record { bytes = f.bytes ++ piece; synced = false } in
    let (shown, lost) = unsynced_lem pieces written_piece path before bytes refl in
    (
      shown
          ∙ ap (λ bs. some (record { bytes = bs; synced = false }))
              (append_assoc f.bytes piece (document pieces)),
      lost,
    )

-- Without the fsync, the path shows the document once the calls of write_json of rkcdp-seed.py, or those
-- of Progress.flush, are done, but a power failure then may leave any bytes there, whatever the path
-- had before; where they do not parse, load_json of rkcdp-seed.py gives its default, as if nothing had
-- ever been written.
pub write_unsynced-Survives {ℓ} :
    {A : Type ℓ} (parse : List ℕ → Option A) (default : A) (pieces : List (List ℕ)) (d : Disk)
    (bytes : List ℕ)
    → parse bytes ≡ none
    → let d' = calls (write_unsynced pieces) d in
      (calls (flush true pieces) d ≡ d')
      × (d'.path ≡ some (record { bytes = document pieces; synced = false }))
      × Survives d' (some bytes)
      × (load_or_default parse default (some bytes) ≡ default)
unfolding write_unsynced flush load_or_default calls call
write_unsynced-Survives parse default pieces d bytes broken =
    let (shown, lost) =
      unsynced_lem pieces (record { bytes = []; synced = false }) d.path d.before bytes refl in
    (refl, shown, lost, rw (load_or_default, broken) refl)
