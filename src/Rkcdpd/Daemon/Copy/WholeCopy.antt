-- ===== src/Rkcdpd/Daemon/Copy/WholeCopy.antt =====
-- On the replica after a whole base copy (Daemon.base_copy of rkcdp/rkcdpd.py).
use io_filter_driver_for_lin.Base.{
  ℕ, ◌+◌, ◌-◌, ◌≤◌, ◌<◌, ◌≡◌, inl, inr, sym, ◌∙◌, true, false, Option, none, some, List, [], ◌∷◌,
  ◌++◌, arith, append_assoc, Bool-cases, min,
}
use io_filter_driver_for_lin.Image.{Image, within}
use io_filter_driver_for_lin.Dmcdp.{Item}
use io_filter_driver_for_lin.Rkcdpd.Replica.Effect.{PunchesZeros}
use io_filter_driver_for_lin.Rkcdpd.Daemon.{Daemon, apply_all}
use io_filter_driver_for_lin.Rkcdpd.Daemon.Copy.{copy_chunk_bytes, Round, base_copy_loop, base_copy}
use io_filter_driver_for_lin.Rkcdpd.Daemon.Copy.Loop.{effects, effects-append, fd-apply_all}
use io_filter_driver_for_lin.Rkcdpd.Daemon.Copy.BaseCopy.{
  size-apply_all, size-copy_chunk, read-copy_chunk,
}
use io_filter_driver_for_lin.Rkcdpd.Daemon.Copy.Settle.{
  records_of, log_of, IsFair, IsNear, Settles, after_round, copying-after_round, round-IsNear,
  round-Settles_outside, round-Settles, effects_assoc,
}

-- The rounds of a base copy of a disk of `size` bytes from `off` on, each of them fair.
abbrev pub AreFair : Image → ℕ → ℕ → List Round → List Item → Type 0
AreFair disk size off [] rest = Unit
AreFair disk size off (r ∷ rounds) rest =
    (off < size)
    × IsFair disk off (min copy_chunk_bytes (size - off)) r (log_of rounds ++ rest)
    × AreFair (effects (records_of r) disk) size (off + r.got) rounds rest

-- The bytes that the reads return.
abbrev pub read_total : List Round → ℕ
read_total [] = 0
read_total (r ∷ rounds) = r.got + read_total rounds

module _ (fallocate : ℕ → ℕ → Image → Option Image) (zeros : PunchesZeros fallocate) where
  base_copy_loop-step :
      (r : Round) (rounds : List Round) (off : ℕ) (d : Daemon)
      → off < d.size
      → 0 < r.got
      → let n = min copy_chunk_bytes (d.size - off) in
        base_copy_loop fallocate (r ∷ rounds) off d
        ≡ base_copy_loop fallocate rounds
            (off + r.got)
            (record (after_round fallocate zeros true off n r d) {
              base_progress = some (off + r.got);
            })
  unfolding base_copy_loop
  base_copy_loop-step r rounds off d l g =
      let n = min copy_chunk_bytes (d.size - off) in
      let read =
        read-copy_chunk fallocate true r.dev off n r.got r.early r.late
          (apply_all fallocate r.idle d) in
      ground (arith, read)

  size-after_round :
      (r : Round) (off n : ℕ) (d : Daemon)
      → (after_round fallocate zeros true off n r d).size ≡ d.size
  size-after_round r off n d =
      size-copy_chunk fallocate true r.dev off n r.got r.early r.late (apply_all fallocate r.idle d)
      ∙ size-apply_all fallocate r.idle d

  -- At `off` the bytes below settle, and those above are near.
  base_copy_loop_lem :
      (rounds : List Round) (rest : List Item) (disk : Image) (off : ℕ) (d : Daemon) (i : ℕ)
      → AreFair disk d.size off rounds rest
      → d.copying ≡ none
      → (i < off → Settles (log_of rounds ++ rest) disk d.replica.fd i)
      → (off ≤ i → IsNear disk d.replica.fd i)
      → i < off + read_total rounds
      → let d' = (base_copy_loop fallocate rounds off d).0 in
        (d'.copying ≡ none) × Settles rest (effects (log_of rounds) disk) d'.replica.fd i
  base_copy_loop_lem [] rest disk off d i fair c below above h =
      unfold base_copy_loop in (c, below (omega arith))
  base_copy_loop_lem (r ∷ rounds) rest disk off d i (l, fair, later) c below above h =
      let n = min copy_chunk_bytes (d.size - off) in
      let after = after_round fallocate zeros true off n r d in
      let d1 = record after { base_progress = some (off + r.got) } in
      let disk1 = effects (records_of r) disk in
      let assoc = append_assoc (records_of r) (log_of rounds) rest in
      let left : within off r.got i ≡ false
          → IsNear disk d.replica.fd i
          → IsNear disk1 after.replica.fd i =
        round-IsNear fallocate zeros true off n r d disk (log_of rounds ++ rest) fair c i in
      let kept : within off r.got i ≡ false
          → Settles (log_of (r ∷ rounds) ++ rest) disk d.replica.fd i
          → Settles (log_of rounds ++ rest) disk1 after.replica.fd i =
        λ w s.
          round-Settles_outside fallocate zeros true off n r d disk (log_of rounds ++ rest) fair c i
            w (rw assoc at s) in
      let copied : within off r.got i ≡ true
          → IsNear disk d.replica.fd i
          → Settles (log_of rounds ++ rest) disk1 after.replica.fd i =
        λ w p.
          round-Settles fallocate zeros true off n r d disk (log_of rounds ++ rest) fair c i w
            (inr p) in
      let step = base_copy_loop-step r rounds off d l fair.returns in
      let result =
        base_copy_loop_lem rounds rest disk1 (off + r.got) d1 i
          (rw (size-after_round r off n d) later)
          (copying-after_round fallocate zeros true off n r d)
          (λ b. elim (Bool-cases (within off r.got i)) [
            | inl inside ↦ copied inside (above (ground arith))
            | inr outside ↦ kept outside (below (ground arith))
          ])
          (λ b. left (ground arith) (above (omega arith))) (omega arith) in
      rw (step, effects-append (records_of r) (log_of rounds) disk) result

  -- A base copy into an empty replica, whose rounds read the whole disk and are fair (IsFair: the
  -- device is ahead by some of the records to come, and a record that arrives meanwhile lies within
  -- the chunk or apart from it), beside the records that the apply loop handles: once the records
  -- that follow are applied too, every byte of the replica is that of the disk after all those
  -- records, chunks of zeros that were skipped included.
  pub base_copy_converges :
      (rounds : List Round) (rest : List Item) (disk : Image) (seq_next : ℕ) (d : Daemon) (i : ℕ)
      → ((j : ℕ) → d.replica.fd j ≡ 0)
      → d.copying ≡ none
      → AreFair disk d.size 0 rounds rest
      → d.size ≤ read_total rounds
      → i < d.size
      → (apply_all fallocate rest (base_copy fallocate rounds false seq_next d)).replica.fd i
        ≡ effects (log_of rounds ++ rest) disk i
  unfolding base_copy
  base_copy_converges rounds rest disk seq_next d i empty c fair all h =
      let d0 = record d { base_progress = some 0 } in
      let done = base_copy fallocate rounds false seq_next d in
      let (idle, settled) =
        base_copy_loop_lem rounds rest disk 0 d0 i fair c (λ b. absurd (omega arith))
          (λ b. inr (empty i)) (omega arith) in
      fd-apply_all fallocate zeros rest done i idle
      ∙ settled
      ∙ sym (effects_assoc (log_of rounds) rest disk i)
