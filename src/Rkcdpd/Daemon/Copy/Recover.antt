-- ===== src/Rkcdpd/Daemon/Copy/Recover.antt =====
-- On the replica after a bitmap recovery (Daemon.recover of rkcdp/rkcdpd.py).
use io_filter_driver_for_lin.Base.{
  ℕ, ◌+◌, ◌-◌, ◌*◌, ◌/◌, ◌%◌, length, ◌≤◌, ◌<◌, ◌≡◌, ◌⊎◌, inl, inr, refl, sym, ap, ◌∙◌, true, false,
  Option, none, some, List, [], ◌∷◌, ◌++◌, arith, append_assoc, Bool-cases, min,
}
use io_filter_driver_for_lin.Image.{Image, within}
use io_filter_driver_for_lin.Dmcdp.{Item}
use native.Mathlib.Nat.{div-add-mod', mod-lt}
use mathlib.Core.Option.{some-injective}
use io_filter_driver_for_lin.Dmcdp.Extents.{bitmap_extents}
use io_filter_driver_for_lin.Dmcdp.Extents.Covered.{covered, dirty, bitmap_extents-covered}
use io_filter_driver_for_lin.Rkcdpd.Replica.Effect.{PunchesZeros}
use io_filter_driver_for_lin.Rkcdpd.Daemon.{Daemon, apply_all}
use io_filter_driver_for_lin.Rkcdpd.Daemon.Copy.{
  copy_chunk_bytes, Round, recover_extent, recover_loop, recover,
}
use io_filter_driver_for_lin.Rkcdpd.Daemon.Copy.Loop.{effects, effects-append, fd-apply_all}
use io_filter_driver_for_lin.Rkcdpd.Daemon.Copy.BaseCopy.{read-copy_chunk}
use io_filter_driver_for_lin.Rkcdpd.Daemon.Copy.Settle.{
  records_of, log_of, IsFair, Settles, after_round, copying-after_round, round-Settles_outside,
  round-Settles, effects_assoc,
}

-- The rounds that re-read the `remaining` bytes at `off`, each of them fair.
abbrev pub Rereads : Image → ℕ → ℕ → List Round → List Item → Type 0
Rereads disk off remaining [] rest = remaining ≡ 0
Rereads disk off remaining (r ∷ rounds) rest =
    (0 < remaining)
    × IsFair disk off (min remaining copy_chunk_bytes) r (log_of rounds ++ rest)
    × Rereads (effects (records_of r) disk) (off + r.got) (remaining - r.got) rounds rest

-- An extent and the rounds that re-read it.
abbrev pub Plan : Type 0
Plan = List ((ℕ × ℕ) × List Round)

abbrev pub extents_of : Plan → List (ℕ × ℕ)
extents_of [] = []
extents_of ((extent, rounds) ∷ plan) = extent ∷ extents_of plan

abbrev pub rounds_of : Plan → List Round
rounds_of [] = []
rounds_of ((extent, rounds) ∷ plan) = rounds ++ rounds_of plan

abbrev pub log_of_plan : Plan → List Item
log_of_plan [] = []
log_of_plan ((extent, rounds) ∷ plan) = log_of rounds ++ log_of_plan plan

abbrev pub RereadsAll : Image → Plan → List Item → Type 0
RereadsAll disk [] rest = Unit
RereadsAll disk (((sector, nsect), rounds) ∷ plan) rest =
    Rereads disk (sector * 512) (nsect * 512) rounds (log_of_plan plan ++ rest)
    × RereadsAll (effects (log_of rounds) disk) plan rest

module _ (fallocate : ℕ → ℕ → Image → Option Image) (zeros : PunchesZeros fallocate) where
  recover_extent-step :
      (r : Round) (rounds : List Round) (off remaining : ℕ) (d : Daemon)
      → 0 < remaining
      → 0 < r.got
      → recover_extent fallocate (r ∷ rounds) off remaining d
        ≡ recover_extent fallocate rounds
            (off + r.got)
            (remaining - r.got)
            (after_round fallocate zeros false off (min remaining copy_chunk_bytes) r d)
  unfolding recover_extent
  recover_extent-step r rounds off remaining d l g =
      let n = min remaining copy_chunk_bytes in
      let read =
        read-copy_chunk fallocate false r.dev off n r.got r.early r.late
          (apply_all fallocate r.idle d) in
      ground (arith, read)

  recover_extent-done :
      (rounds : List Round) (off : ℕ) (d : Daemon)
      → recover_extent fallocate rounds off 0 d ≡ (d, rounds)
  unfolding recover_extent
  recover_extent-done [] off d = refl
  recover_extent-done (r ∷ rounds) off d = ground arith

  -- One extent: what it covers settles, and what was settled stays so.
  recover_extent_lem :
      (rounds left : List Round) (rest : List Item) (disk : Image) (off remaining : ℕ) (d : Daemon)
      (i : ℕ)
      → Rereads disk off remaining rounds rest
      → d.copying ≡ none
      → let (d', left') = recover_extent fallocate (rounds ++ left) off remaining d in
        (left' ≡ left)
        × (d'.copying ≡ none)
        × ((within off remaining i ≡ true) ⊎ Settles (log_of rounds ++ rest) disk d.replica.fd i
            → Settles rest (effects (log_of rounds) disk) d'.replica.fd i)
  recover_extent_lem [] left rest disk off remaining d i fair c =
      rw (fair, recover_extent-done left off d)
        (refl, c, λ h. elim h [ inl inside ↦ absurd (ground arith) | inr settled ↦ settled ])
  recover_extent_lem (r ∷ rounds) left rest disk off remaining d i (l, fair, later) c =
      let n = min remaining copy_chunk_bytes in
      let after = after_round fallocate zeros false off n r d in
      let disk1 = effects (records_of r) disk in
      let ready = log_of rounds ++ rest in
      let assoc = append_assoc (records_of r) (log_of rounds) rest in
      let next : (within off remaining i ≡ true)
            ⊎ Settles (log_of (r ∷ rounds) ++ rest) disk d.replica.fd i
          → (within (off + r.got) (remaining - r.got) i ≡ true)
            ⊎ Settles ready disk1 after.replica.fd i =
        λ h. elim (Bool-cases (within off r.got i)) [
          | inl inside ↦
              inr (
                round-Settles fallocate zeros false off n r d disk ready fair c i inside (inl refl))
          | inr outside ↦ elim h [
            | inl further ↦ inl (ground (arith, fair.fits))
            | inr settled ↦ inr (
                round-Settles_outside fallocate zeros false off n r d disk ready fair c i outside
                  (rw assoc at settled))
          ]
        ] in
      let (all_taken, idle, settles) =
        recover_extent_lem rounds left rest disk1 (off + r.got) (remaining - r.got) after i later
          (copying-after_round fallocate zeros false off n r d) in
      rw
        (
          recover_extent-step r (rounds ++ left) off remaining d l fair.returns,
          effects-append (records_of r) (log_of rounds) disk,
        )
        (all_taken, idle, λ h. settles (next h))

  recover_loop-step :
      (sector nsect : ℕ) (extents : List (ℕ × ℕ)) (rounds left : List Round) (d : Daemon)
      → (recover_extent fallocate rounds (sector * 512) (nsect * 512) d).1 ≡ left
      → recover_loop fallocate ((sector, nsect) ∷ extents) rounds d
        ≡ recover_loop fallocate extents left
            (recover_extent fallocate rounds (sector * 512) (nsect * 512) d).0
  unfolding recover_loop
  recover_loop-step sector nsect extents rounds left d e =
      ap
        (λ l.
          recover_loop fallocate extents l
            (recover_extent fallocate rounds (sector * 512) (nsect * 512) d).0)
        e

  recover_loop_lem :
      (plan : Plan) (rest : List Item) (disk : Image) (d : Daemon) (i : ℕ)
      → RereadsAll disk plan rest
      → d.copying ≡ none
      → (covered (extents_of plan) (i / 512) ≡ true)
        ⊎ Settles (log_of_plan plan ++ rest) disk d.replica.fd i
      → let d' = (recover_loop fallocate (extents_of plan) (rounds_of plan) d).0 in
        (d'.copying ≡ none) × Settles rest (effects (log_of_plan plan) disk) d'.replica.fd i
  recover_loop_lem [] rest disk d i fair c h = elim h [
    | inl none_left ↦ absurd (ground arith)
    | inr settled ↦ unfold recover_loop in (c, settled)
  ]
  recover_loop_lem (((sector, nsect), rounds) ∷ plan) rest disk d i (here, later) c h =
      let all = rounds ++ rounds_of plan in
      let after = (recover_extent fallocate all (sector * 512) (nsect * 512) d).0 in
      let ready = log_of_plan plan ++ rest in
      let assoc = append_assoc (log_of rounds) (log_of_plan plan) rest in
      let (left, idle, settles) =
        recover_extent_lem rounds (rounds_of plan) ready disk (sector * 512) (nsect * 512) d i here
          c in
      let next : (covered (extents_of plan) (i / 512) ≡ true)
          ⊎ Settles ready (effects (log_of rounds) disk) after.replica.fd i =
        elim h [
          | inr settled ↦ inr (settles (inr (rw assoc at settled)))
          | inl dirty ↦ elim (Bool-cases (within sector nsect (i / 512))) [
            | inl this ↦ inr (settles (inl (ground arith)))
            | inr other ↦ inl (ground arith)
          ]
        ] in
      rw
        (
          recover_loop-step sector nsect (extents_of plan) all (rounds_of plan) d left,
          effects-append (log_of rounds) (log_of_plan plan) disk,
        )
        (recover_loop_lem plan rest (effects (log_of rounds) disk) after i later idle next)

  -- A recovery of which each extent is re-read whole ends with recovery.json removed, and once the
  -- records that follow are applied, each byte that an extent covers, or that the records alone
  -- would have brought up to date, is that of the disk. The rounds are fair.
  pub recover_converges :
      (plan : Plan) (rest : List Item) (disk : Image) (d : Daemon) (i : ℕ)
      → d.copying ≡ none
      → RereadsAll disk plan rest
      → (covered (extents_of plan) (i / 512) ≡ true)
        ⊎ Settles (log_of_plan plan ++ rest) disk d.replica.fd i
      → let d' = recover fallocate (extents_of plan) (rounds_of plan) false d in
        (d'.recovery_alive ≡ false)
        × (d'.recovery_json ≡ none)
        × ((apply_all fallocate rest d').replica.fd i ≡ effects (log_of_plan plan ++ rest) disk i)
  unfolding recover
  recover_converges plan rest disk d i c fair h =
      let d' = recover fallocate (extents_of plan) (rounds_of plan) false d in
      let (idle, settled) = recover_loop_lem plan rest disk d i fair c h in
      (
        refl,
        refl,
        fd-apply_all fallocate zeros rest d' i idle
            ∙ settled
            ∙ sym (effects_assoc (log_of_plan plan) rest disk i),
      )

  -- A recovery over the extents of the driver's bitmap, each of them re-read whole by fair rounds
  -- (IsFair), brings the replica up to date: once the records that follow are applied, each byte of
  -- a dirty chunk, or that the records alone would have brought up to date, is that of the disk
  -- after all those records. The bitmap has all its bits, and no chunk is in flight at the start.
  pub recover-bitmap_extents :
      (bm : List ℕ) (chunk nbits : ℕ) (plan : Plan) (rest : List Item) (disk : Image) (d : Daemon)
      (i : ℕ)
      → nbits ≤ 8 * length bm
      → 0 < chunk
      → bitmap_extents bm chunk nbits ≡ some (extents_of plan)
      → d.copying ≡ none
      → RereadsAll disk plan rest
      → (dirty bm nbits (i / 512 / chunk) ≡ true)
        ⊎ Settles (log_of_plan plan ++ rest) disk d.replica.fd i
      → (apply_all fallocate rest
            (recover fallocate (extents_of plan) (rounds_of plan) false d)).replica.fd
          i
        ≡ effects (log_of_plan plan ++ rest) disk i
  recover-bitmap_extents bm chunk nbits plan rest disk d i whole wide found c fair h =
      let (es, made, covers) = bitmap_extents-covered bm chunk nbits whole in
      let same : es ≡ extents_of plan = some-injective es (extents_of plan) (sym made ∙ found) in
      let s = i / 512 in
      let sector : s / chunk * chunk + s % chunk ≡ s = div-add-mod' s chunk in
      let of_chunk : covered (extents_of plan) s ≡ dirty bm nbits (s / chunk) =
        rw (sector, same) at (covers (s / chunk) (s % chunk) (mod-lt s wide)) in
      let met : (covered (extents_of plan) s ≡ true)
          ⊎ Settles (log_of_plan plan ++ rest) disk d.replica.fd i =
        elim h [ inl d ↦ inl (of_chunk ∙ d) | inr settled ↦ inr settled ] in
      (recover_converges plan rest disk d i c fair met).2
