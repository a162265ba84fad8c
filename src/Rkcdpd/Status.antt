-- ===== src/Rkcdpd/Status.antt =====
-- The states that the daemon reports (Daemon.write_status of rkcdp/rkcdpd.py), and the steps of its
-- main loop that move it between them: check_seed, start_recovery and one turn of the loop of
-- `main`.
pub mod Alone
pub mod Cycle
pub mod MainLoop
pub mod Parked
pub mod Rebuilt
pub mod Unlocked
pub mod Document
use Prim.Native.String.{String}
use text.Mathlib.Text.{◌==◌ as str_eq}
use io_filter_driver_for_lin.Base.{
  ℕ, zero, suc, ◌+◌, ◌-◌, ◌≤◌, Bool, true, false, ◌&&◌, ◌||◌, not, Option, none, some, List, [],
  ◌∷◌, ◌++◌, ℤ, pos, negsuc, leb, if◌then◌else◌, ◌==◌, bit_and,
}
use io_filter_driver_for_lin.Image.{Image}
use io_filter_driver_for_lin.Rkcdpd.Daemon.{
  Daemon, recovery_active, paused, Returned, value, value_error, never, consume, apply_pending,
}
use io_filter_driver_for_lin.Rkcdpd.SeedLayer.{SeedLayer}
use io_filter_driver_for_lin.Rkcdpd.Replica.{Replica}

abbrev pub s_overflowed : ℕ
s_overflowed = 1

-- The truth value of a Python container.
abbrev pub present {ℓ} : {A : Type ℓ} → Option A → Bool
present none = false
present (some a) = true

abbrev pub nonempty {ℓ} : {A : Type ℓ} → List A → Bool
nonempty [] = false
nonempty (x ∷ xs) = true

-- The ladder of write_status over its five tests.
unfoldable pub state_ladder : Bool → Bool → Bool → Bool → Bool → String
state_ladder waiting syncing recovering paused overflowed =
    if waiting
    then "WAITING"
    else if syncing
    then "SYNCING"
    else if recovering
    then "RECOVERING"
    else if paused
    then "PAUSED"
    else if overflowed
    then "BITMAP"
    else "CDP"

-- The `state` of status.json; `flags` is what the driver reports.
unfoldable pub status_state : ℕ → Daemon → String
status_state flags d =
    state_ladder d.seed_required (present d.base_progress)
      (recovery_active d || nonempty d.recovery_queue) d.rebuild_lock
      (not (bit_and flags s_overflowed == 0))

-- What a turn of the main loop meets: the bytes that os.read gives, manifest.seeded with its
-- boot_id, the layer that opening seed.raw gives if the file exists, the boot_id of this boot, and
-- the extents of the driver's bitmap.
pub record Turn : Type 0 where
  pub read : List ℕ
  pub seeded : Option (Option String)
  pub seed_file : Option SeedLayer
  pub boot_id : String
  pub extents : List (ℕ × ℕ)

-- if self.replica.seed is None and os.path.exists(seed_path): …
abbrev pub adopt_layer : Option SeedLayer → Option SeedLayer → Option SeedLayer
adopt_layer none seed_file = seed_file
adopt_layer (some l) seed_file = some l

abbrev pub same_boot : Option String → String → Bool
same_boot none boot_id = false
same_boot (some b) boot_id = str_eq b boot_id

-- check_seed; the flag that comes back says that a base copy is started. The manifest.json that it
-- reads back is the one that the daemon last wrote, with `seeded` added to it.
unfoldable pub check_seed : Option (Option String) → Turn → Daemon → Daemon × Bool
check_seed none t d = (d, false)
check_seed (some seed_boot) t d =
    let adopted = record d {
      seed_required = false;
      replica = record d.replica { seed = adopt_layer d.replica.seed t.seed_file };
    } in
    if same_boot seed_boot t.boot_id
    then (
      record adopted { recovery_queue = d.recovery_queue ++ negsuc 0 ∷ []; base_end_seq = some 0 },
      false,
    )
    else (adopted, true)

-- if self.seed_required: self.check_seed()
unfoldable pub seed_turn : Turn → Daemon → Daemon × Bool
unfolding check_seed
seed_turn t d = if d.seed_required then check_seed t.seeded t d else (d, false)

-- start_recovery, with the extents of the bitmap that was read and cleared.
unfoldable pub start_recovery : List (ℕ × ℕ) → Daemon → Daemon
start_recovery extents d = record d { recovery_json = some extents; recovery_alive = true }

-- if self.recovery_queue and not self.recovery_active() and not self.base_progress:
--     self.start_recovery(self.recovery_queue.pop(0))
unfoldable pub next_recovery : List ℤ → List (ℕ × ℕ) → Daemon → Daemon
next_recovery [] extents d = d
next_recovery (gap ∷ queue) extents d =
    if not (recovery_active d) && not (present d.base_progress)
    then start_recovery extents (record d { recovery_queue = queue })
    else d

-- What came back of consume, unless apply_pending raised or never ended.
unfoldable pub then_applied : List ℕ → Returned (Unit {0}) × Daemon → Returned (List ℕ) × Daemon
then_applied tail (value u, d) = (value tail, d)
then_applied tail (value_error, d) = (value_error, d)
then_applied tail (never, d) = (never, d)

module _ (fallocate : ℕ → ℕ → Image → Option Image) where
  -- The turn after `consume`.
  unfoldable pub after_consume : Turn → Returned (List ℕ) × Daemon → Returned (List ℕ) × Daemon
  after_consume t (value tail, d) =
      let seeded = (seed_turn t d).0 in
      let d' = next_recovery seeded.recovery_queue t.extents seeded in
      if not (paused d') && present d'.pending_bin
      then then_applied tail (apply_pending fallocate d')
      else (value tail, d')
  after_consume t (value_error, d) = (value_error, d)
  after_consume t (never, d) = (never, d)

  -- if data: pending = self.consume(pending + data)
  unfoldable pub consume_read : List ℕ → List ℕ → Daemon → Returned (List ℕ) × Daemon
  consume_read pending [] d = (value pending, d)
  consume_read pending (b ∷ bytes) d = consume fallocate (pending ++ b ∷ bytes) d

  -- One turn of the loop of `main`, up to its timers.
  unfoldable pub cycle : List ℕ → Turn → Daemon → Returned (List ℕ) × Daemon
  cycle pending t d = after_consume t (consume_read pending t.read d)

  -- `while not stop` over the turns that happen; what it starts from is `pending` and the daemon. The
  -- thread that start_recovery starts is the flag recovery_alive alone: what it copies is in
  -- Daemon/Copy, and how a copy meets the records that come meanwhile in Threads. The lock is one
  -- value over a turn; `consume` looks at it once in a call, and the end of the turn once more.
  unfoldable pub main_loop : List Turn → Returned (List ℕ) × Daemon → Returned (List ℕ) × Daemon
  main_loop [] r = r
  main_loop (t ∷ turns) (value pending, d) = main_loop turns (cycle pending t d)
  main_loop (t ∷ turns) (value_error, d) = (value_error, d)
  main_loop (t ∷ turns) (never, d) = (never, d)
