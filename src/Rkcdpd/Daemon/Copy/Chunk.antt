-- ===== src/Rkcdpd/Daemon/Copy/Chunk.antt =====
-- One copied chunk beside the live records (Daemon.copy_chunk of rkcdp/rkcdpd.py).
use io_filter_driver_for_lin.Base.{
  ℕ, ◌≤◌, ◌≡◌, refl, sym, ap, ◌∙◌, Bool, true, false, ◌&&◌, not, Option, List, ◌++◌, arith, All,
  All-append, if◌then◌else◌, Bool-cases, inl, inr,
}
use io_filter_driver_for_lin.Image.{Image, pread, any, within, pwrite-pread, length-pread}
use io_filter_driver_for_lin.Dmcdp.{Item}
use io_filter_driver_for_lin.Rkcdpd.Replica.{replica_pwrite}
use io_filter_driver_for_lin.Rkcdpd.Replica.Effect.{PunchesZeros}
use io_filter_driver_for_lin.Rkcdpd.Daemon.{Daemon, apply_all}
use io_filter_driver_for_lin.Rkcdpd.Daemon.Copy.{flag_chunk, land_chunk, release_chunk, copy_chunk}
use io_filter_driver_for_lin.Rkcdpd.Daemon.Copy.Loop.{
  effects, IsSized, IsInOrOut, effects_local, held, Flagged, copying-apply_all, fd-apply_all,
  fd-apply_all_inside, fd-apply_all_outside, deferred-apply_all, effects-held_inside,
  effects-held_outside, effects-append, held-append,
}

-- The replica once the bytes that were read are written, with no record counted.
abbrev pub landed : Bool → Image → ℕ → ℕ → Image → Image
landed skip_zero dev off got old i =
    if within off got i && not (skip_zero && not (any (pread got off dev))) then dev i else old i

pub fd-land_chunk :
    (skip_zero : Bool) (dev : Image) (off got : ℕ) (d : Daemon) (i : ℕ)
    → (land_chunk skip_zero (pread got off dev) off d).replica.fd i
      ≡ landed skip_zero dev off got d.replica.fd i
unfolding land_chunk replica_pwrite
fd-land_chunk skip_zero dev off got d i =
    ground (arith, pwrite-pread got off dev d.replica.fd i, length-pread got off dev)

pub copying-land_chunk :
    (skip_zero : Bool) (buf : List ℕ) (off : ℕ) (d : Daemon)
    → ((land_chunk skip_zero buf off d).copying ≡ d.copying)
      × ((land_chunk skip_zero buf off d).deferred ≡ d.deferred)
unfolding land_chunk
copying-land_chunk skip_zero buf off d = ground arith

-- A byte outside the chunk is not written by the copy.
pub landed_outside :
    (skip_zero : Bool) (dev : Image) (off n got : ℕ) (old : Image) (i : ℕ)
    → got ≤ n
    → within off n i ≡ false
    → landed skip_zero dev off got old i ≡ old i
landed_outside skip_zero dev off n got old i h w = ground arith

landed_local :
    (skip_zero : Bool) (dev : Image) (off got : ℕ) (a b : Image) (i : ℕ)
    → a i ≡ b i
    → landed skip_zero dev off got a i ≡ landed skip_zero dev off got b i
landed_local skip_zero dev off got a b i h = ground arith

module _ (fallocate : ℕ → ℕ → Image → Option Image) (zeros : PunchesZeros fallocate)
    (skip_zero : Bool) (dev : Image) (off n got : ℕ) (early late : List Item) (d : Daemon) where
  abbrev flagged : Daemon
  flagged = apply_all fallocate early (flag_chunk off n d)

  abbrev landing : Daemon
  landing = land_chunk skip_zero (pread got off dev) off flagged

  abbrev handled : Daemon
  handled = apply_all fallocate late landing

  flagged-Flagged : Flagged off n flagged
  unfolding flag_chunk
  flagged-Flagged = copying-apply_all fallocate zeros early (flag_chunk off n d)

  landing-Flagged : Flagged off n landing
  landing-Flagged =
      (copying-land_chunk skip_zero (pread got off dev) off flagged).0 ∙ flagged-Flagged

  deferred-handled : handled.deferred ≡ held off n (early ++ late)
  unfolding flag_chunk
  deferred-handled =
      deferred-apply_all fallocate zeros off n late landing landing-Flagged
      ∙ ap (λ t. t ++ held off n late)
          ((copying-land_chunk skip_zero (pread got off dev) off flagged).1
            ∙ deferred-apply_all fallocate zeros off n early (flag_chunk off n d) refl)
      ∙ sym (held-append off n early late)

  -- At the end, the deferred records are applied to what the apply loop and the copy have left.
  fd-released :
      (i : ℕ)
      → (copy_chunk fallocate skip_zero dev off n got early late d).0.replica.fd i
        ≡ effects (held off n (early ++ late)) handled.replica.fd i
  unfolding copy_chunk release_chunk
  fd-released i =
      fd-apply_all fallocate zeros handled.deferred (release_chunk handled) i refl
      ∙ ap (λ xs. effects xs handled.replica.fd i) deferred-handled

  module _ (i : ℕ) (se : All IsSized early) (sl : All IsSized late) where
    handled_inside :
        within off n i ≡ true → handled.replica.fd i ≡ landed skip_zero dev off got d.replica.fd i
    unfolding flag_chunk
    handled_inside w =
        fd-apply_all_inside fallocate zeros off n late landing i landing-Flagged sl w
        ∙ fd-land_chunk skip_zero dev off got flagged i
        ∙ landed_local skip_zero dev off got flagged.replica.fd d.replica.fd i
            (fd-apply_all_inside fallocate zeros off n early (flag_chunk off n d) i refl se w)

    handled_outside :
        got ≤ n
        → All (IsInOrOut off n) early
        → All (IsInOrOut off n) late
        → within off n i ≡ false
        → handled.replica.fd i
          ≡ effects (early ++ late) (landed skip_zero dev off got d.replica.fd) i
    unfolding flag_chunk
    handled_outside g fe fl w =
        let base = landed skip_zero dev off got d.replica.fd in
        let before : landing.replica.fd i ≡ effects early base i =
          fd-land_chunk skip_zero dev off got flagged i
          ∙ landed_outside skip_zero dev off n got flagged.replica.fd i g w
          ∙ fd-apply_all_outside fallocate zeros off n early (flag_chunk off n d) i refl se fe w
          ∙ effects_local early d.replica.fd base i
              (sym (landed_outside skip_zero dev off n got d.replica.fd i g w)) in
        fd-apply_all_outside fallocate zeros off n late landing i landing-Flagged sl fl w
        ∙ effects_local late landing.replica.fd (effects early base) i before
        ∙ ap (λ (t : Image). t i) (sym (effects-append early late base))

  -- One chunk copied while the apply loop handles the records `early` and `late`: every byte of
  -- the replica ends as if the bytes read from the device had been written first and all those
  -- records had then been applied in order, so a record that arrived for the chunk meanwhile is
  -- not lost to the older bytes of the copy. Each record either lies within the chunk or does not
  -- meet it, and no more bytes are read than were asked for.
  pub fd-copy_chunk :
      (i : ℕ)
      → got ≤ n
      → All IsSized early
      → All IsSized late
      → All (IsInOrOut off n) early
      → All (IsInOrOut off n) late
      → (copy_chunk fallocate skip_zero dev off n got early late d).0.replica.fd i
        ≡ effects (early ++ late) (landed skip_zero dev off got d.replica.fd) i
  fd-copy_chunk i g se sl fe fl =
      let both = early ++ late in
      let base = landed skip_zero dev off got d.replica.fd in
      let sized = All-append IsSized early late se sl in
      elim (Bool-cases (within off n i)) [
        | inl inside ↦
            fd-released i
            ∙ effects-held_inside fallocate zeros off n both handled.replica.fd i sized inside
            ∙ effects_local both handled.replica.fd base i (handled_inside i se sl inside)
        | inr outside ↦
            fd-released i
            ∙ effects-held_outside fallocate zeros off n both handled.replica.fd i sized
                (All-append (IsInOrOut off n) early late fe fl) outside
            ∙ handled_outside i se sl g fe fl outside
      ]
