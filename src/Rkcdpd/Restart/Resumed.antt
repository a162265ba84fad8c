-- ===== src/Rkcdpd/Restart/Resumed.antt =====
-- On a daemon that is started again (Daemon.__init__ and Daemon.main of rkcdp/rkcdpd.py).
use io_filter_driver_for_lin.Base.{
  ℕ, ◌+◌, ◌-◌, ◌*◌, ◌/◌, All, ◌≡◌, ◌⊎◌, refl, ap, ◌∙◌, Bool, true, false, Option, none, some, List,
  [], ◌∷◌, ◌++◌, arith, min, if◌then◌else◌,
}
use io_filter_driver_for_lin.Image.{Image}
use io_filter_driver_for_lin.Dmcdp.{Item}
use io_filter_driver_for_lin.Dmcdp.Extents.Covered.{covered}
use io_filter_driver_for_lin.Rkcdpd.Replica.{Replica}
use io_filter_driver_for_lin.Rkcdpd.Replica.Effect.{PunchesZeros}
use io_filter_driver_for_lin.Rkcdpd.Daemon.Copy.Loop.{effects}
use io_filter_driver_for_lin.Rkcdpd.Daemon.{Daemon, apply_one, apply_all, value, recovery_active}
use io_filter_driver_for_lin.Rkcdpd.Daemon.Copy.{
  copy_chunk, copy_chunk_bytes, flag_chunk, land_chunk, release_chunk, Round, recover_extent,
  recover_loop, recover,
}
use io_filter_driver_for_lin.Rkcdpd.Daemon.Copy.Settle.{Settles}
use io_filter_driver_for_lin.Rkcdpd.Daemon.Copy.Recover.{
  Plan, extents_of, rounds_of, log_of_plan, RereadsAll, recover_converges,
}
use io_filter_driver_for_lin.Rkcdpd.Status.{
  Turn, next_recovery, after_consume, consume_read, seed_turn, cycle, main_loop, status_state,
  state_ladder, s_overflowed,
}
use io_filter_driver_for_lin.Rkcdpd.Restart.{init, start_threads, restart}

module _ (fallocate : ℕ → ℕ → Image → Option Image) where
  json-apply_all :
      (xs : List Item) (d : Daemon) → (apply_all fallocate xs d).recovery_json ≡ d.recovery_json
  unfolding apply_all apply_one
  json-apply_all [] d = refl
  json-apply_all (x ∷ xs) d = json-apply_all xs (apply_one fallocate x d) ∙ ground arith

  json-land_chunk :
      (skip_zero : Bool) (buf : List ℕ) (off : ℕ) (d : Daemon)
      → (land_chunk skip_zero buf off d).recovery_json ≡ d.recovery_json
  unfolding land_chunk
  json-land_chunk skip_zero buf off d = ground arith

  json-copy_chunk :
      (skip_zero : Bool) (dev : Image) (off n got : ℕ) (early late : List Item) (d : Daemon)
      → (copy_chunk fallocate skip_zero dev off n got early late d).0.recovery_json
        ≡ d.recovery_json
  unfolding copy_chunk flag_chunk release_chunk
  json-copy_chunk skip_zero dev off n got early late d =
      json-apply_all _ _
      ∙ json-apply_all late _
      ∙ json-land_chunk skip_zero _ off _
      ∙ json-apply_all early _

  json-recover_extent :
      (rounds : List Round) (off remaining : ℕ) (d : Daemon)
      → (recover_extent fallocate rounds off remaining d).0.recovery_json ≡ d.recovery_json
  unfolding recover_extent
  json-recover_extent [] off remaining d = refl
  json-recover_extent (r ∷ rounds) off remaining d =
      let n = min remaining copy_chunk_bytes in
      let x =
        copy_chunk fallocate false r.dev off n r.got r.early r.late
          (apply_all fallocate r.idle d) in
      let copied : x.0.recovery_json ≡ d.recovery_json =
        json-copy_chunk false r.dev off n r.got r.early r.late (apply_all fallocate r.idle d)
        ∙ json-apply_all r.idle d in
      ground (arith, copied, json-recover_extent rounds (off + x.1) (remaining - x.1) x.0)

  json-recover_loop :
      (extents : List (ℕ × ℕ)) (rounds : List Round) (d : Daemon)
      → (recover_loop fallocate extents rounds d).0.recovery_json ≡ d.recovery_json
  unfolding recover_loop
  json-recover_loop [] rounds d = refl
  json-recover_loop ((sector, nsect) ∷ extents) rounds d =
      let x = recover_extent fallocate rounds (sector * 512) (nsect * 512) d in
      json-recover_loop extents x.1 x.0 ∙ json-recover_extent rounds (sector * 512) (nsect * 512) d

-- A recovery that a signal interrupts anywhere is taken up by the next daemon: whatever replica that
-- one opens, it runs with the same extents, and once they are re-read whole by fair rounds (IsFair)
-- and the records that follow are applied, recovery.json is gone and each byte that an extent covers,
-- or that the records alone would have brought up to date, is that of the disk.
pub recover-restart :
    (fallocate : ℕ → ℕ → Image → Option Image)
    → PunchesZeros fallocate
    → (before : List Round) (plan : Plan) (rest : List Item) (disk : Image) (seed_required : Bool)
      (size : ℕ) (replica : Replica) (d : Daemon) (i : ℕ)
    → d.recovery_json ≡ some (extents_of plan)
    → RereadsAll disk plan rest
    → (covered (extents_of plan) (i / 512) ≡ true)
      ⊎ Settles (log_of_plan plan ++ rest) disk replica.fd i
    → let d1 =
        restart seed_required size replica (recover fallocate (extents_of plan) before true d) in
      let d2 = recover fallocate (extents_of plan) (rounds_of plan) false d1 in
      (recovery_active d1 ≡ true)
      × (d1.recovery_json ≡ some (extents_of plan))
      × (d2.recovery_json ≡ none)
      × ((apply_all fallocate rest d2).replica.fd i ≡ effects (log_of_plan plan ++ rest) disk i)
unfolding init start_threads
recover-restart fallocate zeros before plan rest disk seed_required size replica d i begun fair
      met =
    let left = recover fallocate (extents_of plan) before true d in
    let d1 = restart seed_required size replica left in
    let kept : left.recovery_json ≡ some (extents_of plan) =
      unfold recover in json-recover_loop fallocate (extents_of plan) before d ∙ begun in
    let (gone, cleared, current) =
      recover_converges fallocate zeros plan rest disk d1 i refl fair met in
    (ground (arith, kept), kept, cleared, current)

-- Nothing is read.
abbrev pub IsIdle : Turn → Type 0
IsIdle t = t.read ≡ []

module _ (fallocate : ℕ → ℕ → Image → Option Image) where
  idle_cycle :
      (t : Turn) (d : Daemon)
      → IsIdle t
      → d.seed_required ≡ false
      → d.recovery_queue ≡ []
      → d.pending_bin ≡ none
      → cycle fallocate [] t d ≡ (value [], d)
  unfolding cycle after_consume consume_read seed_turn next_recovery
  idle_cycle t d r s q p = rw (r, s, q, p) (ground arith)

  idle_turns :
      (turns : List Turn) (d : Daemon)
      → All IsIdle turns
      → d.seed_required ≡ false
      → d.recovery_queue ≡ []
      → d.pending_bin ≡ none
      → main_loop fallocate turns (value [], d) ≡ (value [], d)
  unfolding main_loop
  idle_turns [] d r s q p = refl
  idle_turns (t ∷ turns) d (r, later) s q p =
      ap (main_loop fallocate turns) (idle_cycle t d r s q p) ∙ idle_turns turns d later s q p

-- Whatever gaps wait in recovery_queue, behind a base copy or another recovery, are lost when the
-- daemon is started again. With no recovery.json and a base copy recorded, no recovery runs then, and
-- none is started as long as nothing is read, although the driver's overflow flag has the daemon
-- report BITMAP (PAUSED under the lock).
pub restart_forgets_gap :
    (fallocate : ℕ → ℕ → Image → Option Image) (turns : List Turn) (seq : ℕ) (seed_required : Bool)
    (size : ℕ) (replica : Replica) (d : Daemon)
    → d.recovery_json ≡ none
    → d.base_end_seq ≡ some seq
    → d.pending_bin ≡ none
    → All IsIdle turns
    → let d' = restart seed_required size replica d in
      (main_loop fallocate turns (value [], d') ≡ (value [], d'))
      × (recovery_active d' ≡ false)
      × (d'.recovery_queue ≡ [])
      × (status_state s_overflowed d' ≡ (if d.rebuild_lock then "PAUSED" else "BITMAP"))
unfolding init start_threads
restart_forgets_gap fallocate turns seq seed_required size replica d r b p idle =
    let d' = restart seed_required size replica d in
    let seeded : d'.seed_required ≡ false = ground (arith, b) in
    (
      idle_turns fallocate turns d' idle seeded refl p,
      ground (arith, r),
      refl,
      unfold status_state state_ladder in rw (seeded, r) (ground arith),
    )
