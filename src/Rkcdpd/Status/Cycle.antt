-- ===== src/Rkcdpd/Status/Cycle.antt =====
-- On the reported state, and on the order in which one turn of the main loop applies
-- records (Daemon.write_status, check_seed and main of rkcdp/rkcdpd.py).
use Prim.Native.String.{String}
use text.Mathlib.Text.{◌==◌ as str_eq}
use io_filter_driver_for_lin.Base.{
  ℕ, ◌≡◌, refl, sym, ap, ◌∙◌, Bool, true, false, Option, none, some, List, [], ◌∷◌, ◌++◌, ℤ,
  bit_and, arith, All, drop,
}
use mathlib.Core.Bool.{false≢true}
use io_filter_driver_for_lin.Image.{Image}
use io_filter_driver_for_lin.Dmcdp.{Item, done, iter_records}
use io_filter_driver_for_lin.Dmcdp.Stream.{Fits}
use io_filter_driver_for_lin.Rkcdpd.Replica.{Replica}
use io_filter_driver_for_lin.Rkcdpd.Daemon.{
  Daemon, recovery_active, Returned, value, apply_pending, apply_all,
}
use io_filter_driver_for_lin.Rkcdpd.Daemon.{apply_one, note_gap, apply_pending_file}
use io_filter_driver_for_lin.Rkcdpd.Daemon.Copy.Loop.{
  effects, effects_local, fd-apply_all, copying-apply_all,
}
use io_filter_driver_for_lin.Rkcdpd.Replica.Effect.{PunchesZeros}
use io_filter_driver_for_lin.Rkcdpd.Daemon.Park.{note_gaps, apply_pending_file_lem}
use io_filter_driver_for_lin.Rkcdpd.Daemon.Reads.{consume-live}
use io_filter_driver_for_lin.Rkcdpd.Status.{
  s_overflowed, present, nonempty, status_state, state_ladder, Turn, seed_turn, start_recovery,
  next_recovery, then_applied, after_consume, consume_read, cycle,
}
use io_filter_driver_for_lin.ApiRkcdp.{cdp, node_state}

-- Nothing is under way: no seed awaited, no base copy, no recovery running or queued, no rebuild,
-- and no overflow reported by the driver.
pub record IsSettled (flags : ℕ) (d : Daemon) : Type 0 where
  pub seeded : d.seed_required ≡ false
  pub copied : present d.base_progress ≡ false
  pub recovered : recovery_active d ≡ false
  pub none_queued : d.recovery_queue ≡ []
  pub unlocked : d.rebuild_lock ≡ false
  pub no_overflow : bit_and flags s_overflowed ≡ 0

nothing_queued : (queue : List ℤ) → nonempty queue ≡ false → queue ≡ []
nothing_queued [] h = refl
nothing_queued (x ∷ queue) h = cc

-- None of the names of an unsettled state.
abbrev IsQuiet : String → Type 0
IsQuiet s =
    (str_eq s "WAITING" ≡ false)
    × (str_eq s "SYNCING" ≡ false)
    × (str_eq s "RECOVERING" ≡ false)
    × (str_eq s "PAUSED" ≡ false)
    × (str_eq s "BITMAP" ≡ false)

shown_cdp :
    (now time : ℕ) (phase : Option String) (s : String) (has_base : Bool)
    → node_state now (some (record { time = time; state = some s })) phase has_base ≡ cdp
    → IsQuiet s × (has_base ≡ true)
unfolding node_state
shown_cdp now time phase s has_base h = ground arith

state_ladder-IsQuiet :
    (w c r p o : Bool)
    → IsQuiet (state_ladder w c r p o)
    → (w ≡ false) × (c ≡ false) × (r ≡ false) × (p ≡ false) × (o ≡ false)
unfolding state_ladder
state_ladder-IsQuiet true c r p o h = absurd (false≢true (sym h.0))
state_ladder-IsQuiet false true r p o h = absurd (false≢true (sym h.1))
state_ladder-IsQuiet false false true p o h = absurd (false≢true (sym h.2))
state_ladder-IsQuiet false false false true o h = absurd (false≢true (sym h.3))
state_ladder-IsQuiet false false false false true h = absurd (false≢true (sym h.4))
state_ladder-IsQuiet false false false false false h = (refl, refl, refl, refl, refl)

-- The manager API shows a node as "cdp" from a status that the daemon wrote only if the daemon was
-- settled when it wrote it and the base copy was complete.
pub node_state-status_state :
    (now time flags : ℕ) (phase : Option String) (d : Daemon)
    → node_state now
        (some (record { time = time; state = some (status_state flags d) }))
        phase
        (present d.base_end_seq)
      ≡ cdp
    → IsSettled flags d × (present d.base_end_seq ≡ true)
unfolding status_state
node_state-status_state now time flags phase d h =
    let (quiet, based) =
      shown_cdp now time phase (status_state flags d) (present d.base_end_seq) h in
    let (w, c, r, p, o) = state_ladder-IsQuiet _ _ _ _ _ quiet in
    (
      record {
        seeded = w;
        copied = c;
        recovered = ground arith;
        none_queued = nothing_queued d.recovery_queue (ground arith);
        unlocked = p;
        no_overflow = ground arith;
      },
      based,
    )

-- What the parts of a turn leave alone.
pub record SameFiles (d d' : Daemon) : Type 0 where
  pub same_replica : d'.replica ≡ d.replica
  pub same_copying : d'.copying ≡ d.copying
  pub same_pending : d'.pending_bin ≡ d.pending_bin
  pub same_lock : d'.rebuild_lock ≡ d.rebuild_lock
  pub same_seed : d'.seed_required ≡ d.seed_required

pub next_recovery-SameFiles :
    (queue : List ℤ) (extents : List (ℕ × ℕ)) (d : Daemon)
    → SameFiles d (next_recovery queue extents d)
unfolding next_recovery start_recovery
next_recovery-SameFiles [] extents d = ground arith
next_recovery-SameFiles (gap ∷ queue) extents d = ground arith

pub note_gaps-SameFiles : (xs : List Item) (d : Daemon) → SameFiles d (note_gaps xs d)
note_gaps-SameFiles [] d = ground arith
note_gaps-SameFiles (x ∷ xs) d =
    let first : SameFiles d (note_gap x.0 d) = unfold note_gap in ground arith in
    ground (arith, note_gaps-SameFiles xs (note_gap x.0 d))

module _ (fallocate : ℕ → ℕ → Image → Option Image) where
  pub apply_all-files :
      (xs : List Item) (d : Daemon)
      → ((apply_all fallocate xs d).pending_bin ≡ d.pending_bin)
        × ((apply_all fallocate xs d).rebuild_lock ≡ d.rebuild_lock)
        × ((apply_all fallocate xs d).seed_required ≡ d.seed_required)
  unfolding apply_all
  apply_all-files [] d = (refl, refl, refl)
  apply_all-files (x ∷ xs) d =
      let d' = apply_one fallocate x d in
      let first : (d'.pending_bin ≡ d.pending_bin)
          × (d'.rebuild_lock ≡ d.rebuild_lock)
          × (d'.seed_required ≡ d.seed_required) =
        unfold apply_one in ground arith in
      let rest = apply_all-files xs d' in (rest.0 ∙ first.0, rest.1 ∙ first.1, rest.2 ∙ first.2)

  pub after_consume_lem :
      (t : Turn) (tail file : List ℕ) (d : Daemon)
      → d.seed_required ≡ false
      → let d' = next_recovery d.recovery_queue t.extents d in
        d'.rebuild_lock ≡ false
        → d'.pending_bin ≡ some file
        → after_consume fallocate t (value tail, d) ≡ then_applied tail (apply_pending fallocate d')
  unfolding after_consume
  after_consume_lem t tail file d s l p =
      let same : (seed_turn t d).0 ≡ d = unfold seed_turn in rw s in ground (arith, same)

  apply_pending-some :
      (e : ℕ) (file : List ℕ) (d : Daemon)
      → d.pending_bin ≡ some file
      → (iter_records file).1 ≡ done e
      → All Fits (iter_records file).0
      → apply_pending fallocate d
        ≡ (value tt, record (apply_all fallocate (iter_records file).0 d) { pending_bin = none })
  unfolding apply_pending
  apply_pending-some e file d q h f =
      ap (λ p. apply_pending_file fallocate p d) q ∙ apply_pending_file_lem fallocate e file d h f

-- In a turn that reads records while pending.bin still holds older ones and the lock is already
-- gone, the records just read are applied first and the older, parked ones after them: every byte
-- of the replica ends as the parked records leave it, not as the disk was left.
pub cycle_out_of_order :
    (fallocate : ℕ → ℕ → Image → Option Image) (zeros : PunchesZeros fallocate)
    (pending file : List ℕ) (b : ℕ) (bytes : List ℕ) (t : Turn) (d : Daemon) (e e' : ℕ) (i : ℕ)
    → t.read ≡ b ∷ bytes
    → d.seed_required ≡ false
    → d.rebuild_lock ≡ false
    → d.copying ≡ none
    → d.pending_bin ≡ some file
    → (iter_records file).1 ≡ done e
    → All Fits (iter_records file).0
    → (iter_records (pending ++ b ∷ bytes)).1 ≡ done e'
    → (cycle fallocate pending t d).1.replica.fd i
      ≡ effects
          (iter_records file).0
          (effects (iter_records (pending ++ b ∷ bytes)).0 d.replica.fd)
          i
unfolding cycle consume_read then_applied
cycle_out_of_order fallocate zeros pending file b bytes t d e e' i r s l c p h f h' =
    let buf = pending ++ b ∷ bytes in
    let xs = (iter_records file).0 in
    let ys = (iter_records buf).0 in
    let noted = note_gaps ys d in
    let d1 = apply_all fallocate ys noted in
    let d2 = next_recovery d1.recovery_queue t.extents d1 in
    let same = note_gaps-SameFiles ys d in
    let files = apply_all-files fallocate ys noted in
    let same' = next_recovery-SameFiles d1.recovery_queue t.extents d1 in
    let live : consume_read fallocate pending t.read d ≡ (value (drop e' buf), d1) =
      ap (λ bs. consume_read fallocate pending bs d) r ∙ consume-live fallocate buf e' d h' l in
    let held : d2.pending_bin ≡ some file = same'.same_pending ∙ files.0 ∙ same.same_pending ∙ p in
    let free : d2.rebuild_lock ≡ false = same'.same_lock ∙ files.1 ∙ same.same_lock ∙ l in
    let unseeded : d1.seed_required ≡ false = files.2 ∙ same.same_seed ∙ s in
    let noted_idle : noted.copying ≡ none = same.same_copying ∙ c in
    let idle : d2.copying ≡ none =
      same'.same_copying ∙ copying-apply_all fallocate zeros ys noted ∙ noted_idle in
    let before : d2.replica.fd i ≡ effects ys d.replica.fd i =
      ap (λ (r : Replica). r.fd i) same'.same_replica
      ∙ fd-apply_all fallocate zeros ys noted i noted_idle
      ∙ ap (λ (r : Replica). effects ys r.fd i) same.same_replica in
    ap (λ (x : Returned (List ℕ) × Daemon). (after_consume fallocate t x).1.replica.fd i) live
    ∙ ap (λ (x : Returned (List ℕ) × Daemon). x.1.replica.fd i)
        (after_consume_lem fallocate t (drop e' buf) file d1 unseeded free held
          ∙ ap (then_applied (drop e' buf)) (apply_pending-some fallocate e file d2 held h f))
    ∙ fd-apply_all fallocate zeros xs d2 i idle
    ∙ effects_local xs d2.replica.fd (effects ys d.replica.fd) i before
