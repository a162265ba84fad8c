-- ===== src/Rkcdpd/Threads/Handled.antt =====
-- One record that the apply loop handles beside the records that the copy thread owes to the replica
-- (Daemon.apply_one and copy_chunk of rkcdp/rkcdpd.py).
use io_filter_driver_for_lin.Base.{
  ℕ, ◌+◌, ◌*◌, ◌≤◌, ◌≡◌, ◌⊎◌, inl, inr, refl, sym, ap, ◌∙◌, true, false, Option, none, some, List,
  [], ◌∷◌, ◌++◌, arith, All, All-append, Bool-cases,
}
use io_filter_driver_for_lin.Image.{Image, within}
use io_filter_driver_for_lin.Dmcdp.{Item}
use io_filter_driver_for_lin.Rkcdpd.Replica.Effect.{effect, PunchesZeros}
use io_filter_driver_for_lin.Rkcdpd.Daemon.{Daemon, in_flight, apply_one}
use io_filter_driver_for_lin.Rkcdpd.Daemon.Copy.Loop.{
  effects, effects_local, effects-append, IsSized, IsInOrOut, effect_apart, effect_outside,
  copying-apply_one, fd-apply_one, deferred-apply_one,
}
use io_filter_driver_for_lin.Rkcdpd.Daemon.Copy.Converge.{
  Keeps, effect_cases, effects_cases, effects_again,
}
use io_filter_driver_for_lin.Rkcdpd.Daemon.Copy.Settle.{Settles}
use io_filter_driver_for_lin.Rkcdpd.Threads.{
  Copier, resting, flagged, holding, written, catching_up,
}

-- The record lies within the chunk, and its payload is no longer than its `len`.
abbrev pub IsInside : ℕ → ℕ → Item → Type 0
IsInside off n x = IsSized x × (off ≤ x.0.sector * 512) × (x.0.sector * 512 + x.0.len ≤ off + n)

-- Two records that write no byte in common.
abbrev pub IsApart : Item → Item → Type 0
IsApart x y =
    IsSized x
    × IsSized y
    × (in_flight (some (x.0.sector * 512, x.0.sector * 512 + x.0.len)) y.0 ≡ false)

-- What the apply loop may meet: while a chunk is in flight, a record within it or apart from it, and
-- while the deferred records are applied, one that is apart from all that are left of them.
abbrev pub IsCalm : Copier → Item → Type 0
IsCalm resting x = Unit
IsCalm (flagged off n) x = IsSized x × IsInOrOut off n x
IsCalm (holding off n got dev) x = IsSized x × IsInOrOut off n x
IsCalm (written off n) x = IsSized x × IsInOrOut off n x
IsCalm (catching_up late) x = All (IsApart x) late

-- The records that the copy thread owes to the replica.
abbrev pub owed : Copier → Daemon → List Item
owed resting d = []
owed (flagged off n) d = d.deferred
owed (holding off n got dev) d = d.deferred
owed (written off n) d = d.deferred
owed (catching_up late) d = late

-- Once all that is owed and all that is to come is applied, the byte is that of the disk.
abbrev pub Comes : List Item → List Item → Image → Image → ℕ → Type 0
Comes rest late disk a i = Settles rest disk (effects late a) i

Keeps-IsInside :
    (off n : ℕ) (xs : List Item) (i : ℕ)
    → All (IsInside off n) xs
    → within off n i ≡ false
    → Keeps (effects xs) i
Keeps-IsInside off n [] i h w a = refl
Keeps-IsInside off n (x ∷ xs) i ((s, lo, hi), rest) w a =
    Keeps-IsInside off n xs i rest w (effect x a) ∙ effect_outside x a i s (ground arith)

-- A record that leaves the byte, or is handled beside owed records that leave it, may go before them.
swap :
    (x : Item) (late : List Item) (a : Image) (i : ℕ)
    → Keeps (effect x) i ⊎ Keeps (effects late) i
    → effects late (effect x a) i ≡ effect x (effects late a) i
swap x late a i (inl keeps) =
    effects_local late (effect x a) a i (keeps a) ∙ sym (keeps (effects late a))
swap x late a i (inr keeps) =
    keeps (effect x a) ∙ effects_local (x ∷ []) a (effects late a) i (sym (keeps a))

pub Keeps-IsApart :
    (x : Item) (late : List Item) (i : ℕ)
    → All (IsApart x) late
    → Keeps (effect x) i ⊎ Keeps (effects late) i
Keeps-IsApart x [] i h = inr (λ a. refl)
Keeps-IsApart x (y ∷ late) i ((sx, sy, apart), rest) =
    elim (Bool-cases (within (x.0.sector * 512) x.0.len i)) [
      | inr out ↦ inl (λ a. effect_outside x a i sx out)
      | inl hit ↦ elim (Keeps-IsApart x late i rest) [
        | inl keeps ↦ inl keeps
        | inr keeps ↦
            inr
              (λ a. keeps (effect y a) ∙ effect_apart (x.0.sector * 512) x.0.len y a i sy apart hit)
      ]
    ]

-- A record that is handled while `late` is owed.
Comes-handled :
    (x : Item) (rest late : List Item) (disk a : Image) (i : ℕ)
    → Keeps (effect x) i ⊎ Keeps (effects late) i
    → Comes (x ∷ rest) late disk a i
    → Comes rest late (effect x disk) (effect x a) i
Comes-handled x rest late disk a i k h =
    effects_local rest (effects late (effect x a)) (effect x (effects late a)) i (swap x late a i k)
    ∙ h

-- A record that is deferred.
Comes-deferred :
    (x : Item) (rest late : List Item) (disk a : Image) (i : ℕ)
    → Comes (x ∷ rest) late disk a i
    → Comes rest (late ++ x ∷ []) (effect x disk) a i
Comes-deferred x rest late disk a i h =
    ap (λ (t : Image). effects rest t i) (effects-append late (x ∷ []) a) ∙ h

-- What is deferred and handled stays in the disk.
in_disk :
    (x : Item) (late : List Item) (disk : Image) (i : ℕ)
    → effects late disk i ≡ disk i
    → effects (late ++ x ∷ []) (effect x disk) i ≡ effect x disk i
in_disk x late disk i h =
    ap (λ (t : Image). t i) (effects-append late (x ∷ []) (effect x disk))
    ∙ elim (effect_cases x i) [
      | inl over ↦ over (effects late (effect x disk)) disk
      | inr keeps ↦
          keeps (effects late (effect x disk))
          ∙ effects_local late (effect x disk) disk i (keeps disk)
          ∙ h
          ∙ sym (keeps disk)
    ]

-- The bytes that are read of a device that is ahead.
pub Comes-read :
    (ahead behind late : List Item) (disk : Image) (i : ℕ)
    → effects late disk i ≡ disk i
    → Comes (ahead ++ behind) late disk (effects ahead disk) i
Comes-read ahead behind late disk i h = elim (effects_cases late i) [
  | inl over ↦
      effects_local (ahead ++ behind) (effects late (effects ahead disk)) disk i
        (over (effects ahead disk) disk ∙ h)
  | inr keeps ↦
      effects_local (ahead ++ behind) (effects late (effects ahead disk)) (effects ahead disk) i
        (keeps (effects ahead disk))
      ∙ effects_again ahead behind disk i
]

pub Comes-local :
    (rest late : List Item) (disk a b : Image) (i : ℕ)
    → a i ≡ b i
    → Comes rest late disk a i
    → Comes rest late disk b i
Comes-local rest late disk a b i e h =
    effects_local rest (effects late b) (effects late a) i (effects_local late b a i (sym e)) ∙ h

module _ (fallocate : ℕ → ℕ → Image → Option Image) (zeros : PunchesZeros fallocate) (i : ℕ) where
  -- What the apply loop leaves of a chunk in flight: `d'` and `disk'` after the record `x`, before
  -- `rest`.
  pub record Handled (x : Item) (rest : List Item) (off n : ℕ) (disk : Image) (d d' : Daemon)
      : Type 0 where
    pub copying_kept : d'.copying ≡ some (off, off + n)
    pub all_inside : All (IsInside off n) d'.deferred
    pub disk_kept : within off n i ≡ true → effects d'.deferred (effect x disk) i ≡ effect x disk i
    pub replica_comes :
        Comes (x ∷ rest) d.deferred disk d.replica.fd i
        → Comes rest d'.deferred (effect x disk) d'.replica.fd i
    pub read_comes :
        (dev : Image)
        → within off n i ≡ true
        → Comes (x ∷ rest) d.deferred disk dev i
        → Comes rest d'.deferred (effect x disk) dev i

  module _ (x : Item) (rest : List Item) (off n : ℕ) (disk : Image) (d : Daemon) (sized : IsSized x)
      (c : d.copying ≡ some (off, off + n)) (inside : All (IsInside off n) d.deferred)
      (held : within off n i ≡ true → effects d.deferred disk i ≡ disk i) where
    handled_meets :
        IsInOrOut off n x
        → in_flight (some (off, off + n)) x.0 ≡ true
        → Handled x rest off n disk d (apply_one fallocate x d)
    handled_meets placed meets =
        let put_off : (apply_one fallocate x d).deferred ≡ d.deferred ++ x ∷ [] =
          deferred-apply_one fallocate zeros x d ∙ rw (c, meets) refl in
        let kept : (apply_one fallocate x d).replica.fd i ≡ d.replica.fd i =
          fd-apply_one fallocate zeros x d i ∙ rw (c, meets) refl in
        record {
          copying_kept = copying-apply_one fallocate zeros x d ∙ c;
          all_inside = rw put_off (
              All-append (IsInside off n) d.deferred (x ∷ []) inside
                ((sized, (placed meets).0, (placed meets).1), tt));
          disk_kept = λ w. rw put_off (in_disk x d.deferred disk i (held w));
          replica_comes = λ h. rw put_off (
              Comes-local rest (d.deferred ++ x ∷ []) (effect x disk) d.replica.fd
                (apply_one fallocate x d).replica.fd i (sym kept)
                (Comes-deferred x rest d.deferred disk d.replica.fd i h));
          read_comes = λ dev w h. rw put_off (Comes-deferred x rest d.deferred disk dev i h);
        }

    handled_apart :
        in_flight (some (off, off + n)) x.0 ≡ false
        → Handled x rest off n disk d (apply_one fallocate x d)
    handled_apart apart =
        let same : (apply_one fallocate x d).deferred ≡ d.deferred =
          deferred-apply_one fallocate zeros x d ∙ rw (c, apart) refl in
        let applied : (apply_one fallocate x d).replica.fd i ≡ effect x d.replica.fd i =
          fd-apply_one fallocate zeros x d i ∙ rw (c, apart) refl in
        let keeps : (within off n i ≡ true) → Keeps (effect x) i =
          λ w a. effect_apart off n x a i sized apart w in
        let one_keeps : Keeps (effect x) i ⊎ Keeps (effects d.deferred) i =
          elim (Bool-cases (within off n i)) [
            | inl w ↦ inl (keeps w)
            | inr w ↦ inr (Keeps-IsInside off n d.deferred i inside w)
          ] in
        record {
          copying_kept = copying-apply_one fallocate zeros x d ∙ c;
          all_inside = rw same inside;
          disk_kept = λ w. rw same (
              effects_local d.deferred (effect x disk) disk i (keeps w disk)
              ∙ held w
              ∙ sym (keeps w disk));
          replica_comes = λ h. rw same (
              Comes-local rest d.deferred (effect x disk) (effect x d.replica.fd)
                (apply_one fallocate x d).replica.fd i (sym applied)
                (Comes-handled x rest d.deferred disk d.replica.fd i one_keeps h));
          read_comes = λ dev w h. rw same (
              Comes-local rest d.deferred (effect x disk) (effect x dev) dev i (keeps w dev)
                (Comes-handled x rest d.deferred disk dev i one_keeps h));
        }

    pub handled : IsInOrOut off n x → Handled x rest off n disk d (apply_one fallocate x d)
    handled placed = elim (Bool-cases (in_flight (some (off, off + n)) x.0)) [
      | inl meets ↦ handled_meets placed meets
      | inr apart ↦ handled_apart apart
    ]

  -- With no chunk in flight, beside records that are still owed.
  pub handled_free :
      (x : Item) (rest late : List Item) (disk : Image) (d : Daemon)
      → d.copying ≡ none
      → Keeps (effect x) i ⊎ Keeps (effects late) i
      → Comes (x ∷ rest) late disk d.replica.fd i
      → Comes rest late (effect x disk) (apply_one fallocate x d).replica.fd i
  unfolding in_flight
  handled_free x rest late disk d c keeps h =
      let applied : (apply_one fallocate x d).replica.fd i ≡ effect x d.replica.fd i =
        fd-apply_one fallocate zeros x d i ∙ rw c refl in
      Comes-local rest late (effect x disk) (effect x d.replica.fd)
        (apply_one fallocate x d).replica.fd i (sym applied)
        (Comes-handled x rest late disk d.replica.fd i keeps h)
