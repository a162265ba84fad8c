-- ===== src/ApiRkcdp/Nodes/Listed.antt =====
-- On the node list that the manager API gives (_nodes, the cache and rkcdp_nodes of
-- rkcdp/api_rkcdp.py).
use Prim.Native.String.{String}
use text.Mathlib.Text.{◌==◌ as str_eq, starts_with}
use mathlib.Core.List.{Perm}
use mathlib.Core.List.Perm
use io_filter_driver_for_lin.Base.{
  ℕ, ◌≡◌, refl, ap, Bool, true, false, not, if◌then◌else◌, Option, none, some, List, [], ◌∷◌, ◌++◌,
  arith, All, Bool-cases, inl, inr,
}
use io_filter_driver_for_lin.ApiRkcdp.Nodes.{
  Entry, Row, row, skipped, text_le, insert, sorted, rows, nodes, Cache, refresh_loop, rkcdp_nodes,
}

text_le_total : (s t : String) → text_le s t ≡ false → text_le t s ≡ true
unfolding text_le
text_le_total String.[] t h = cc
text_le_total (String.◌∷◌ c s) String.[] h = refl
text_le_total (String.◌∷◌ c s) (String.◌∷◌ d t) h = ground (arith, text_le_total s t)

text_le_trans : (s t u : String) → text_le s t ≡ true → text_le t u ≡ true → text_le s u ≡ true
unfolding text_le
text_le_trans String.[] t u h k = refl
text_le_trans (String.◌∷◌ c s) String.[] u h k = cc
text_le_trans (String.◌∷◌ c s) (String.◌∷◌ d t) String.[] h k = cc
text_le_trans (String.◌∷◌ c s) (String.◌∷◌ d t) (String.◌∷◌ e u) h k =
    ground (arith, text_le_trans s t u)

-- Each name is at most all that follow.
abbrev pub AreInOrder : List Entry → Type 0
AreInOrder [] = Unit
AreInOrder (e ∷ entries) = All (λ f. text_le e.name f.name ≡ true) entries × AreInOrder entries

abbrev pub AreShownInOrder : List Row → Type 0
AreShownInOrder [] = Unit
AreShownInOrder (r ∷ shown) =
    All (λ (q : Row). text_le r.node q.node ≡ true) shown × AreShownInOrder shown

All-le :
    (s t : String) (entries : List Entry)
    → text_le s t ≡ true
    → All (λ f. text_le t f.name ≡ true) entries
    → All (λ f. text_le s f.name ≡ true) entries
All-le s t [] h k = tt
All-le s t (f ∷ entries) h (le, rest) = (text_le_trans s t f.name h le, All-le s t entries h rest)

All-insert :
    (s : String) (e : Entry) (entries : List Entry)
    → text_le s e.name ≡ true
    → All (λ f. text_le s f.name ≡ true) entries
    → All (λ f. text_le s f.name ≡ true) (insert e entries)
unfolding insert
All-insert s e [] h k = (h, tt)
All-insert s e (f ∷ entries) h (le, rest) = elim (Bool-cases (text_le e.name f.name)) [
  | inl first ↦ rw first (h, (le, rest))
  | inr later ↦ rw later (le, All-insert s e entries h rest)
]

insert-AreInOrder :
    (e : Entry) (entries : List Entry) → AreInOrder entries → AreInOrder (insert e entries)
unfolding insert
insert-AreInOrder e [] h = (tt, tt)
insert-AreInOrder e (f ∷ entries) (le, rest) = elim (Bool-cases (text_le e.name f.name)) [
  | inl first ↦ rw first ((first, All-le e.name f.name entries first le), (le, rest))
  | inr later ↦ rw later (
    All-insert f.name e entries (text_le_total e.name f.name later) le,
    insert-AreInOrder e entries rest,
  )
]

sorted-AreInOrder : (entries : List Entry) → AreInOrder (sorted entries)
unfolding sorted
sorted-AreInOrder [] = tt
sorted-AreInOrder (e ∷ entries) = insert-AreInOrder e (sorted entries) (sorted-AreInOrder entries)

module _ (now : ℕ) where
  All-rows :
      (s : String) (entries : List Entry)
      → All (λ f. text_le s f.name ≡ true) entries
      → All (λ (q : Row). text_le s q.node ≡ true) (rows now entries)
  unfolding rows row
  All-rows s [] h = tt
  All-rows s (e ∷ entries) (le, rest) = elim (Bool-cases (skipped e)) [
    | inl out ↦ rw out (All-rows s entries rest)
    | inr kept ↦ rw kept (le, All-rows s entries rest)
  ]

  rows-AreShownInOrder :
      (entries : List Entry) → AreInOrder entries → AreShownInOrder (rows now entries)
  unfolding rows row
  rows-AreShownInOrder [] h = tt
  rows-AreShownInOrder (e ∷ entries) (le, rest) = elim (Bool-cases (skipped e)) [
    | inl out ↦ rw out (rows-AreShownInOrder entries rest)
    | inr kept ↦ rw kept (All-rows e.name entries le, rows-AreShownInOrder entries rest)
  ]

  rows-insert :
      (e : Entry) (entries : List Entry)
      → Perm (rows now (insert e entries)) (rows now (e ∷ entries))
  unfolding insert rows
  rows-insert e [] = Perm.refl (rows now (e ∷ []))
  rows-insert e (f ∷ entries) = elim (Bool-cases (text_le e.name f.name)) [
    | inl first ↦ rw first (Perm.refl (rows now (e ∷ f ∷ entries)))
    | inr later ↦ elim (Bool-cases (skipped f)) [
      | inl out ↦ rw (later, out) (rows-insert e entries)
      | inr kept ↦ elim (Bool-cases (skipped e)) [
        | inl gone ↦
            rw (later, kept, gone) (Perm.cons (row now f) (rw gone at (rows-insert e entries)))
        | inr shown ↦
            rw (later, kept, shown)
              (Perm.trans (Perm.cons (row now f) (rw shown at (rows-insert e entries)))
                (Perm.swap (row now e) (row now f) (rows now entries)))
      ]
    ]
  ]

  rows-sorted : (entries : List Entry) → Perm (rows now (sorted entries)) (rows now entries)
  unfolding sorted rows
  rows-sorted [] = Perm.refl []
  rows-sorted (e ∷ entries) =
      Perm.trans (rows-insert e (sorted entries)) (elim (Bool-cases (skipped e)) [
        | inl out ↦ rw out (rows-sorted entries)
        | inr kept ↦ rw kept (Perm.cons (row now e) (rows-sorted entries))
      ])

-- A directory of the journal that is a node's: any but "rebuild" and the hidden ones.
abbrev pub is_node : String → Bool → Bool
is_node name is_dir =
    if is_dir then if str_eq name "rebuild" then false else not (starts_with name ".") else false

abbrev pub node_entries : List Entry → List Entry
node_entries [] = []
node_entries (e ∷ entries) =
    if is_node e.name e.is_dir then e ∷ node_entries entries else node_entries entries

abbrev pub row_of_each : ℕ → List Entry → List Row
row_of_each now [] = []
row_of_each now (e ∷ entries) = row now e ∷ row_of_each now entries

rows-node_entries :
    (now : ℕ) (entries : List Entry) → rows now entries ≡ row_of_each now (node_entries entries)
unfolding rows
rows-node_entries now [] = refl
rows-node_entries now (e ∷ entries) = ground (arith, rows-node_entries now entries)

-- Rounds in which _nodes raised, at these times.
abbrev pub failed_rounds : List ℕ → List (Option (List Row) × ℕ)
failed_rounds [] = []
failed_rounds (t ∷ times) = (none, t) ∷ failed_rounds times

refresh_loop_failed : (times : List ℕ) (c : Cache) → refresh_loop (failed_rounds times) c ≡ c
unfolding refresh_loop
refresh_loop_failed [] c = refl
refresh_loop_failed (t ∷ times) c = refresh_loop_failed times c

refresh_loop_last :
    (before : List (Option (List Row) × ℕ)) (shown : List Row) (t : ℕ) (failed : List ℕ) (c : Cache)
    → rkcdp_nodes (refresh_loop (before ++ (some shown, t) ∷ failed_rounds failed) c) ≡ (shown, t)
unfolding refresh_loop rkcdp_nodes
refresh_loop_last [] shown t failed c =
    ap rkcdp_nodes (refresh_loop_failed failed (record { cached = shown; as_of = t }))
refresh_loop_last ((none, u) ∷ before) shown t failed c = refresh_loop_last before shown t failed c
refresh_loop_last ((some out, u) ∷ before) shown t failed c =
    refresh_loop_last before shown t failed (record { cached = out; as_of = u })

-- Whatever the thread did before, after a round that lists the journal and any number of rounds that
-- raise, the endpoint gives the time of that round and the row of each directory of it whose name is
-- not "rebuild" and does not begin with a dot, as often as it is listed and no other, in the order of
-- their names.
pub rkcdp_nodes-refresh_loop :
    (before : List (Option (List Row) × ℕ)) (now : ℕ) (entries : List Entry) (t : ℕ)
    (failed : List ℕ) (c : Cache)
    → let listed : Option (List Row) × ℕ = (some (nodes now (some entries)), t) in
      let (shown, as_of) = rkcdp_nodes (refresh_loop (before ++ listed ∷ failed_rounds failed) c) in
      Perm shown (row_of_each now (node_entries entries)) × AreShownInOrder shown × (as_of ≡ t)
unfolding nodes
rkcdp_nodes-refresh_loop before now entries t failed c =
    rw (refresh_loop_last before (rows now (sorted entries)) t failed c) (
      rw (← rows-node_entries now entries) (rows-sorted now entries),
      rows-AreShownInOrder now (sorted entries) (sorted-AreInOrder entries),
      refl,
    )
