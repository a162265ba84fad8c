-- ===== src/Rkcdpd/Daemon/Copy.antt =====
-- Daemon.copy_chunk, base_copy and recover of rkcdp/rkcdpd.py. A copy thread
-- works beside the apply loop: the records that the loop handles at each point of the copy are
-- arguments, and so are what the device holds and how many bytes a raw read returns.
pub mod Loop
pub mod Chunk
pub mod Converge
pub mod Straddle
pub mod BaseCopy
pub mod Settle
pub mod WholeCopy
pub mod Recover
use io_filter_driver_for_lin.Base.{
  ℕ, zero, suc, ◌+◌, ◌-◌, ◌*◌, Bool, true, false, ◌&&◌, not, Option, none, some, List, [], ◌∷◌,
  ◌++◌, ℤ, pos, if◌then◌else◌, ◌==◌, ltb, leb, length, min,
}
use io_filter_driver_for_lin.Image.{Image, pread, any}
use io_filter_driver_for_lin.Dmcdp.{Rec, Item}
use io_filter_driver_for_lin.Rkcdpd.Replica.{Replica, replica_pwrite}
use io_filter_driver_for_lin.Rkcdpd.Daemon.{Daemon, apply_one, apply_all}

abbrev pub copy_chunk_bytes : ℕ
copy_chunk_bytes = 4194304

-- with self.lock: self.copying = (off, off + n); self.deferred = []
unfoldable pub flag_chunk : ℕ → ℕ → Daemon → Daemon
flag_chunk off n d = record d { copying = some (off, off + n); deferred = [] }

-- if buf and not (skip_zero is not None and buf == skip_zero[:len(buf)]): self.replica.pwrite(buf, off)
unfoldable pub land_chunk : Bool → List ℕ → ℕ → Daemon → Daemon
land_chunk skip_zero buf off d =
    if not (length buf == 0) && not (skip_zero && not (any buf))
    then record d { replica = replica_pwrite buf off d.replica }
    else d

-- with self.lock: self.copying = None; late, self.deferred = self.deferred, []
unfoldable pub release_chunk : Daemon → Daemon
release_chunk d = record d { copying = none; deferred = [] }

module _ (fallocate : ℕ → ℕ → Image → Option Image) where
  -- `got` bytes are read of the device `dev`; the apply loop handles `early` between the flag and
  -- the write to the replica, and `late` between that write and the release.
  unfoldable pub copy_chunk : Bool → Image → ℕ → ℕ → ℕ → List Item → List Item → Daemon → Daemon × ℕ
  unfolding flag_chunk land_chunk release_chunk
  copy_chunk skip_zero dev off n got early late d =
      let buf = pread got off dev in
      let flagged = apply_all fallocate early (flag_chunk off n d) in
      let landed = apply_all fallocate late (land_chunk skip_zero buf off flagged) in
      (apply_all fallocate landed.deferred (release_chunk landed), length buf)

-- What happens around one call of copy_chunk: the records applied before it, the device, the
-- number of bytes that its read returns, and the records handled meanwhile.
pub record Round : Type 0 where
  pub idle : List Item
  pub dev : Image
  pub got : ℕ
  pub early : List Item
  pub late : List Item

module _ (fallocate : ℕ → ℕ → Image → Option Image) where
  -- The while loop of base_copy: `off` and the state after it. With no round left, a signal has
  -- set `stop`.
  unfoldable pub base_copy_loop : List Round → ℕ → Daemon → Daemon × ℕ
  base_copy_loop [] off d = (d, off)
  base_copy_loop (r ∷ rounds) off d =
      let n = min copy_chunk_bytes (d.size - off) in
      let (d', got) =
        copy_chunk fallocate true r.dev off n r.got r.early r.late (apply_all fallocate r.idle d) in
      let more =
        base_copy_loop rounds (off + got) (record d' { base_progress = some (off + got) }) in
      if ltb off d.size then (if got == 0 then (d', off) else more) else (d, off)

  -- base_copy: `seq_next` is what the driver's status says at the end, `stopped` whether a signal came.
  unfoldable pub base_copy : List Round → Bool → ℕ → Daemon → Daemon
  unfolding base_copy_loop
  base_copy rounds stopped seq_next d =
      let (d', off) = base_copy_loop rounds 0 (record d { base_progress = some 0 }) in
      if stopped
      then record d' { base_progress = none }
      else record d' { base_progress = none; base_end_seq = some seq_next }

module _ (fallocate : ℕ → ℕ → Image → Option Image) where
  -- The inner loop of recover, over one extent: the state, and the rounds that are left to the
  -- next extents. With no round left, a signal has set `stop`.
  unfoldable pub recover_extent : List Round → ℕ → ℕ → Daemon → Daemon × List Round
  recover_extent [] off remaining d = (d, [])
  recover_extent (r ∷ rounds) off remaining d =
      let n = min remaining copy_chunk_bytes in
      let (d', got) =
        copy_chunk fallocate false r.dev off n r.got r.early r.late
          (apply_all fallocate r.idle d) in
      let more = recover_extent rounds (off + got) (remaining - got) d' in
      if remaining == 0 then (d, r ∷ rounds) else (if got == 0 then (d', rounds) else more)

  -- for sector, nsect in rec["extents"]
  unfoldable pub recover_loop : List (ℕ × ℕ) → List Round → Daemon → Daemon × List Round
  recover_loop [] rounds d = (d, rounds)
  recover_loop ((sector, nsect) ∷ extents) rounds d =
      let (d', left) = recover_extent rounds (sector * 512) (nsect * 512) d in
      recover_loop extents left d'

  -- recover: the thread ends, and recovery.json is removed unless a signal came.
  unfoldable pub recover : List (ℕ × ℕ) → List Round → Bool → Daemon → Daemon
  unfolding recover_extent recover_loop
  recover extents rounds stopped d =
      let d' = (recover_loop extents rounds d).0 in
      if stopped
      then record d' { recovery_alive = false }
      else record d' { recovery_alive = false; recovery_json = none }
