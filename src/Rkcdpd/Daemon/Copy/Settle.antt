-- ===== src/Rkcdpd/Daemon/Copy/Settle.antt =====
-- One round of a copy (Daemon.copy_chunk of rkcdp/rkcdpd.py, as base_copy and recover call it), for
-- the byte that it copies and for the bytes that it leaves.
use io_filter_driver_for_lin.Base.{
  ℕ, ◌≤◌, ◌<◌, ◌≡◌, ◌⊎◌, inl, inr, sym, ap, ◌∙◌, Bool, true, false, not, ◌&&◌, Option, none, List,
  [], ◌∷◌, ◌++◌, arith, All, Bool-cases,
}
use io_filter_driver_for_lin.Image.{Image, within, pread, pread-zero, any}
use io_filter_driver_for_lin.Dmcdp.{Item}
use io_filter_driver_for_lin.Rkcdpd.Replica.Effect.{PunchesZeros}
use io_filter_driver_for_lin.Rkcdpd.Daemon.{Daemon, apply_all}
use io_filter_driver_for_lin.Rkcdpd.Daemon.Copy.{copy_chunk, Round}
use io_filter_driver_for_lin.Rkcdpd.Daemon.Copy.Loop.{
  effects, effects_local, effects-append, IsSized, IsInOrOut, fd-apply_all,
}
use io_filter_driver_for_lin.Rkcdpd.Daemon.Copy.Chunk.{landed, fd-copy_chunk}
use io_filter_driver_for_lin.Rkcdpd.Daemon.Copy.Converge.{
  effects_cases, effects_again, copying-copy_chunk,
}

-- The records that the apply loop handles in a round, and in all rounds of a copy.
abbrev pub records_of : Round → List Item
records_of r = r.idle ++ (r.early ++ r.late)

abbrev pub log_of : List Round → List Item
log_of [] = []
log_of (r ∷ rounds) = records_of r ++ log_of rounds

-- One round on the chunk of `n` bytes at `off`, where the disk is `disk` before the round and the
-- records `rest` follow it: the device is ahead of the apply loop by some of the records that are
-- still to be handled, a read returns something and no more than was asked for, and each record
-- that arrives meanwhile lies within the chunk or does not meet it.
pub record IsFair (disk : Image) (off n : ℕ) (r : Round) (rest : List Item) : Type 0 where
  pub ahead : List Item
  pub behind : List Item
  pub device : (i : ℕ) → r.dev i ≡ effects ahead (effects r.idle disk) i
  pub logged : ahead ++ behind ≡ (r.early ++ r.late) ++ rest
  pub returns : 0 < r.got
  pub fits : r.got ≤ n
  pub early_sized : All IsSized r.early
  pub late_sized : All IsSized r.late
  pub early_placed : All (IsInOrOut off n) r.early
  pub late_placed : All (IsInOrOut off n) r.late

-- The byte is that of the disk, or still a hole of a replica that began empty.
abbrev pub IsNear : Image → Image → ℕ → Type 0
IsNear disk replica i = (replica i ≡ disk i) ⊎ (replica i ≡ 0)

-- Once the records `rest` are applied, the byte is that of the disk.
abbrev pub Settles : List Item → Image → Image → ℕ → Type 0
Settles rest disk replica i = effects rest replica i ≡ effects rest disk i

effects-IsNear :
    (xs : List Item) (disk replica : Image) (i : ℕ)
    → IsNear disk replica i
    → IsNear (effects xs disk) (effects xs replica) i
effects-IsNear xs disk replica i h = elim (effects_cases xs i) [
  | inl over ↦ inl (over replica disk)
  | inr keeps ↦ elim h [
    | inl same ↦ inl (keeps replica ∙ same ∙ sym (keeps disk))
    | inr hole ↦ inr (keeps replica ∙ hole)
  ]
]

pub effects_assoc :
    (xs ys : List Item) (a : Image) (i : ℕ) → effects (xs ++ ys) a i ≡ effects ys (effects xs a) i
effects_assoc xs ys a i = ap (λ (t : Image). t i) (effects-append xs ys a)

-- A hole that is not copied, since the chunk that was read is zeros.
skipped :
    (ahead behind : List Item) (disk replica : Image) (i : ℕ)
    → IsNear disk replica i
    → effects ahead disk i ≡ 0
    → effects (ahead ++ behind) replica i ≡ effects (ahead ++ behind) disk i
skipped ahead behind disk replica i h zero_read = elim h [
  | inl same ↦ effects_local (ahead ++ behind) replica disk i same
  | inr hole ↦ elim (effects_cases ahead i) [
    | inl over ↦
        effects_assoc ahead behind replica i
        ∙ effects_local behind (effects ahead replica) (effects ahead disk) i (over replica disk)
        ∙ sym (effects_assoc ahead behind disk i)
    | inr keeps ↦ effects_local (ahead ++ behind) replica disk i (hole ∙ sym zero_read ∙ keeps disk)
  ]
]

module _ (fallocate : ℕ → ℕ → Image → Option Image) (zeros : PunchesZeros fallocate)
    (skip_zero : Bool) (off n : ℕ) (r : Round) (d : Daemon) where
  -- The state after the round.
  abbrev pub after_round : Daemon
  after_round =
      (copy_chunk fallocate skip_zero r.dev off n r.got r.early r.late
        (apply_all fallocate r.idle d)).0

  pub copying-after_round : after_round.copying ≡ none
  copying-after_round =
      copying-copy_chunk fallocate zeros skip_zero r.dev off n r.got r.early r.late
        (apply_all fallocate r.idle d)

  module _ (disk : Image) (rest : List Item) (fair : IsFair disk off n r rest)
      (none_copied : d.copying ≡ none) (i : ℕ) where
    abbrev idled : Image
    idled = (apply_all fallocate r.idle d).replica.fd

    -- The round in one equation.
    fd-after_round :
        after_round.replica.fd i
        ≡ effects (r.early ++ r.late) (landed skip_zero r.dev off r.got idled) i
    fd-after_round =
        fd-copy_chunk fallocate zeros skip_zero r.dev off n r.got r.early r.late
          (apply_all fallocate r.idle d) i fair.fits fair.early_sized fair.late_sized
          fair.early_placed fair.late_placed

    fd-idled : idled i ≡ effects r.idle d.replica.fd i
    fd-idled = fd-apply_all fallocate zeros r.idle d i none_copied

    fd-after_round_outside :
        within off r.got i ≡ false
        → after_round.replica.fd i ≡ effects (records_of r) d.replica.fd i
    fd-after_round_outside w =
        let left : landed skip_zero r.dev off r.got idled i ≡ effects r.idle d.replica.fd i =
          ground (arith, fd-idled) in
        fd-after_round
        ∙ effects_local (r.early ++ r.late) (landed skip_zero r.dev off r.got idled)
            (effects r.idle d.replica.fd) i left
        ∙ sym (effects_assoc r.idle (r.early ++ r.late) d.replica.fd i)

    pub round-IsNear :
        within off r.got i ≡ false
        → IsNear disk d.replica.fd i
        → IsNear (effects (records_of r) disk) after_round.replica.fd i
    round-IsNear w h =
        rw (fd-after_round_outside w) (effects-IsNear (records_of r) disk d.replica.fd i h)

    pub round-Settles_outside :
        within off r.got i ≡ false
        → Settles (records_of r ++ rest) disk d.replica.fd i
        → Settles rest (effects (records_of r) disk) after_round.replica.fd i
    round-Settles_outside w h =
        effects_local rest after_round.replica.fd (effects (records_of r) d.replica.fd) i
          (fd-after_round_outside w)
        ∙ sym (effects_assoc (records_of r) rest d.replica.fd i)
        ∙ h
        ∙ effects_assoc (records_of r) rest disk i

    -- What the copied byte holds before the records of the round.
    base_lem :
        within off r.got i ≡ true
        → (skip_zero ≡ false) ⊎ IsNear (effects r.idle disk) idled i
        → effects (fair.ahead ++ fair.behind) (landed skip_zero r.dev off r.got idled) i
          ≡ effects (fair.ahead ++ fair.behind) (effects r.idle disk) i
    base_lem w h =
        let base = landed skip_zero r.dev off r.got idled in
        let disk' = effects r.idle disk in
        elim (Bool-cases (skip_zero && not (any (pread r.got off r.dev)))) [
          | inr lands ↦
              effects_local (fair.ahead ++ fair.behind) base (effects fair.ahead disk') i
                (let read : base i ≡ r.dev i = ground arith in read ∙ fair.device i)
              ∙ effects_again fair.ahead fair.behind disk' i
          | inl skips ↦
              let zero_read : r.dev i ≡ 0 = ground (arith, pread-zero r.got off r.dev i) in
              effects_local (fair.ahead ++ fair.behind) base idled i (ground arith)
              ∙ skipped fair.ahead fair.behind disk' idled i (ground arith)
                  (sym (fair.device i) ∙ zero_read)
        ]

    pub round-Settles :
        within off r.got i ≡ true
        → (skip_zero ≡ false) ⊎ IsNear disk d.replica.fd i
        → Settles rest (effects (records_of r) disk) after_round.replica.fd i
    round-Settles w h =
        let now = r.early ++ r.late in
        let base = landed skip_zero r.dev off r.got idled in
        let disk' = effects r.idle disk in
        let near : (skip_zero ≡ false) ⊎ IsNear disk' idled i = elim h [
          | inl s ↦ inl s
          | inr p ↦ inr (rw fd-idled (effects-IsNear r.idle disk d.replica.fd i p))
        ] in
        effects_local rest after_round.replica.fd (effects now base) i fd-after_round
        ∙ sym (effects_assoc now rest base i)
        ∙ ap (λ xs. effects xs base i) (sym fair.logged)
        ∙ base_lem w near
        ∙ ap (λ xs. effects xs disk' i) fair.logged
        ∙ effects_assoc now rest disk' i
        ∙ effects_local rest (effects now disk') (effects (records_of r) disk) i
            (sym (effects_assoc r.idle now disk i))
