-- ===== src/Rkcdpd/Daemon/Copy/Loop.antt =====
-- The apply loop while a chunk is in flight (Daemon.apply_one of rkcdp/rkcdpd.py).
use io_filter_driver_for_lin.Base.{
  ℕ, ◌+◌, ◌*◌, ◌≤◌, ◌≡◌, refl, sym, ap, ◌∙◌, true, false, Option, none, some, List, [], ◌∷◌, ◌++◌,
  arith, length, All, append-nil, append_assoc, if◌then◌else◌, Bool-cases, inl, inr,
}
use io_filter_driver_for_lin.Image.{Image, pwrite, within, pwrite-out}
use io_filter_driver_for_lin.Dmcdp.{Item}
use io_filter_driver_for_lin.Rkcdpd.Replica.Effect.{effect, PunchesZeros, fd-replica_write}
use io_filter_driver_for_lin.Rkcdpd.Daemon.{Daemon, in_flight, apply_one, apply_all}

-- The disk after a sequence of logged requests.
abbrev pub effects : List Item → Image → Image
effects [] disk = disk
effects (x ∷ xs) disk = effects xs (effect x disk)

-- The payload of a record is no longer than its `len` says.
abbrev pub IsSized : Item → Type 0
IsSized x = length x.1 ≤ x.0.len

-- A record that meets the chunk lies within it.
abbrev pub IsInOrOut : ℕ → ℕ → Item → Type 0
IsInOrOut off n x =
    in_flight (some (off, off + n)) x.0 ≡ true
    → (off ≤ x.0.sector * 512) × (x.0.sector * 512 + x.0.len ≤ off + n)

effect_local : (x : Item) (a b : Image) (i : ℕ) → a i ≡ b i → effect x a i ≡ effect x b i
unfolding effect pwrite
effect_local (r, payload) a b i h = ground arith

pub effects_local :
    (xs : List Item) (a b : Image) (i : ℕ) → a i ≡ b i → effects xs a i ≡ effects xs b i
effects_local [] a b i h = h
effects_local (x ∷ xs) a b i h =
    effects_local xs (effect x a) (effect x b) i (effect_local x a b i h)

pub effect_outside :
    (x : Item) (a : Image) (i : ℕ)
    → IsSized x
    → within (x.0.sector * 512) x.0.len i ≡ false
    → effect x a i ≡ a i
unfolding effect
effect_outside (r, payload) a i s h = ground (arith, pwrite-out payload (r.sector * 512) a i)

-- The records of a list that meet the chunk.
pub held : ℕ → ℕ → List Item → List Item
held off n [] = []
held off n (x ∷ xs) =
    let rest = held off n xs in if in_flight (some (off, off + n)) x.0 then x ∷ rest else rest

pub effect_apart :
    (off n : ℕ) (x : Item) (a : Image) (i : ℕ)
    → IsSized x
    → in_flight (some (off, off + n)) x.0 ≡ false
    → within off n i ≡ true
    → effect x a i ≡ a i
unfolding in_flight
effect_apart off n x a i s apart w = effect_outside x a i s (ground arith)

-- The chunk in flight, as the daemon knows it.
abbrev pub Flagged : ℕ → ℕ → Daemon → Type 0
Flagged off n d = d.copying ≡ some (off, off + n)

module _ (fallocate : ℕ → ℕ → Image → Option Image) (zeros : PunchesZeros fallocate) where
  -- What apply_one does to the replica and to the bookkeeping, while it may defer the record.
  pub copying-apply_one : (x : Item) (d : Daemon) → (apply_one fallocate x d).copying ≡ d.copying
  unfolding apply_one
  copying-apply_one x d = ground arith

  pub fd-apply_one :
      (x : Item) (d : Daemon) (i : ℕ)
      → (apply_one fallocate x d).replica.fd i
        ≡ (if in_flight d.copying x.0 then d.replica.fd i else effect x d.replica.fd i)
  unfolding apply_one
  fd-apply_one x d i = ground (arith, fd-replica_write fallocate zeros x d.replica i)

  pub deferred-apply_one :
      (x : Item) (d : Daemon)
      → (apply_one fallocate x d).deferred
        ≡ (if in_flight d.copying x.0 then d.deferred ++ x ∷ [] else d.deferred)
  unfolding apply_one
  deferred-apply_one x d = ground arith

  pub copying-apply_all :
      (xs : List Item) (d : Daemon) → (apply_all fallocate xs d).copying ≡ d.copying
  unfolding apply_all
  copying-apply_all [] d = refl
  copying-apply_all (x ∷ xs) d =
      copying-apply_all xs (apply_one fallocate x d) ∙ copying-apply_one x d

  -- With no chunk in flight, the records are applied to the replica one by one.
  pub fd-apply_all :
      (xs : List Item) (d : Daemon) (i : ℕ)
      → d.copying ≡ none
      → (apply_all fallocate xs d).replica.fd i ≡ effects xs d.replica.fd i
  unfolding apply_all in_flight
  fd-apply_all [] d i h = refl
  fd-apply_all (x ∷ xs) d i h =
      fd-apply_all xs (apply_one fallocate x d) i (copying-apply_one x d ∙ h)
      ∙ effects_local xs (apply_one fallocate x d).replica.fd (effect x d.replica.fd) i (
          fd-apply_one x d i
          ∙ ap (λ c. if in_flight c x.0 then d.replica.fd i else effect x d.replica.fd i) h)

  module _ (off n : ℕ) where
    -- Within the chunk in flight, the apply loop writes nothing.
    pub fd-apply_all_inside :
        (xs : List Item) (d : Daemon) (i : ℕ)
        → Flagged off n d
        → All IsSized xs
        → within off n i ≡ true
        → (apply_all fallocate xs d).replica.fd i ≡ d.replica.fd i
    unfolding apply_all
    fd-apply_all_inside [] d i h s w = refl
    fd-apply_all_inside (x ∷ xs) d i h s w =
        fd-apply_all_inside xs (apply_one fallocate x d) i (copying-apply_one x d ∙ h) s.1 w
        ∙ fd-apply_one x d i
        ∙ ap (λ c. if in_flight c x.0 then d.replica.fd i else effect x d.replica.fd i) h
        ∙ unfold in_flight in ground (arith, effect_outside x d.replica.fd i s.0)

    -- Outside of it, the records that lie there are applied as they come.
    pub fd-apply_all_outside :
        (xs : List Item) (d : Daemon) (i : ℕ)
        → Flagged off n d
        → All IsSized xs
        → All (IsInOrOut off n) xs
        → within off n i ≡ false
        → (apply_all fallocate xs d).replica.fd i ≡ effects xs d.replica.fd i
    unfolding apply_all
    fd-apply_all_outside [] d i h s f w = refl
    fd-apply_all_outside (x ∷ xs) d i h s f w =
        fd-apply_all_outside xs (apply_one fallocate x d) i (copying-apply_one x d ∙ h) s.1 f.1 w
        ∙ effects_local xs (apply_one fallocate x d).replica.fd (effect x d.replica.fd) i (
            fd-apply_one x d i
            ∙ ap (λ c. if in_flight c x.0 then d.replica.fd i else effect x d.replica.fd i) h
            ∙ ground (arith, f.0, effect_outside x d.replica.fd i s.0))

    -- What is deferred is what meets the chunk, in order.
    pub deferred-apply_all :
        (xs : List Item) (d : Daemon)
        → Flagged off n d
        → (apply_all fallocate xs d).deferred ≡ d.deferred ++ held off n xs
    unfolding apply_all held
    deferred-apply_all [] d h = sym (append-nil d.deferred)
    deferred-apply_all (x ∷ xs) d h =
        deferred-apply_all xs (apply_one fallocate x d) (copying-apply_one x d ∙ h)
        ∙ ap (λ t. t ++ held off n xs)
            (deferred-apply_one x d
              ∙ ap (λ c. if in_flight c x.0 then d.deferred ++ x ∷ [] else d.deferred) h)
        ∙ elim (Bool-cases (in_flight (some (off, off + n)) x.0)) [
          | inl meets ↦ rw meets (append_assoc d.deferred (x ∷ []) (held off n xs))
          | inr apart ↦ rw apart
        ]

    -- Within the chunk, the deferred records do what all records do; outside, they do nothing.
    pub effects-held_inside :
        (xs : List Item) (a : Image) (i : ℕ)
        → All IsSized xs
        → within off n i ≡ true
        → effects (held off n xs) a i ≡ effects xs a i
    unfolding held
    effects-held_inside [] a i s w = refl
    effects-held_inside (x ∷ xs) a i s w = elim (Bool-cases (in_flight (some (off, off + n)) x.0)) [
      | inl meets ↦ rw meets (effects-held_inside xs (effect x a) i s.1 w)
      | inr apart ↦ rw apart (
          effects-held_inside xs a i s.1 w
          ∙ effects_local xs a (effect x a) i (sym (effect_apart off n x a i s.0 apart w)))
    ]

    pub effects-held_outside :
        (xs : List Item) (a : Image) (i : ℕ)
        → All IsSized xs
        → All (IsInOrOut off n) xs
        → within off n i ≡ false
        → effects (held off n xs) a i ≡ a i
    unfolding held
    effects-held_outside [] a i s f w = refl
    effects-held_outside (x ∷ xs) a i s f w =
        elim (Bool-cases (in_flight (some (off, off + n)) x.0)) [
          | inl meets ↦ rw meets (
              effects-held_outside xs (effect x a) i s.1 f.1 w
              ∙ effect_outside x a i s.0 (let fits = f.0 meets in ground arith))
          | inr apart ↦ rw apart (effects-held_outside xs a i s.1 f.1 w)
        ]

pub effects-append :
    (xs ys : List Item) (a : Image) → effects (xs ++ ys) a ≡ effects ys (effects xs a)
effects-append [] ys a = refl
effects-append (x ∷ xs) ys a = effects-append xs ys (effect x a)

pub held-append :
    (off n : ℕ) (xs ys : List Item) → held off n (xs ++ ys) ≡ held off n xs ++ held off n ys
unfolding held
held-append off n [] ys = refl
held-append off n (x ∷ xs) ys = elim (Bool-cases (in_flight (some (off, off + n)) x.0)) [
  | inl meets ↦ rw meets (ap (λ t. x ∷ t) (held-append off n xs ys))
  | inr apart ↦ rw apart (held-append off n xs ys)
]
