-- ===== src/Rkcdpd/Threads.antt =====
-- The copy thread (Daemon.copy_chunk of rkcdp/rkcdpd.py, called by base_copy and recover) and the
-- apply loop of main, interleaved in any order. A step is what happens under `self.lock`, or one
-- read or write of a file.
pub mod Handled
pub mod Invariant
pub mod Runs
pub mod Seeded
use io_filter_driver_for_lin.Base.{
  ℕ, ◌≤◌, ◌≡◌, Bool, ◌&&◌, not, Option, List, [], ◌∷◌, ◌++◌, if◌then◌else◌,
}
use io_filter_driver_for_lin.Image.{Image, pread, any}
use io_filter_driver_for_lin.Dmcdp.{Item}
use io_filter_driver_for_lin.Rkcdpd.Replica.Effect.{effect}
use io_filter_driver_for_lin.Rkcdpd.Daemon.{Daemon, apply_one}
use io_filter_driver_for_lin.Rkcdpd.Daemon.Copy.{flag_chunk, land_chunk, release_chunk}
use io_filter_driver_for_lin.Rkcdpd.Daemon.Copy.Loop.{effects}

-- Where the copy thread is: between two chunks; a chunk is flagged; `got` bytes of the device have
-- been read; they are written; the records that were deferred are applied one by one.
pub data Copier : Type 0 where
  resting : Copier
  flagged : ℕ → ℕ → Copier
  holding : ℕ → ℕ → ℕ → Image → Copier
  written : ℕ → ℕ → Copier
  catching_up : List Item → Copier

-- `disk`: the disk with the records that the apply loop has handled; `to_come`: those that it has
-- still to handle; `copied`: the ranges that the copy thread has written.
pub record System : Type 0 where
  pub daemon : Daemon
  pub copier : Copier
  pub disk : Image
  pub to_come : List Item
  pub copied : List (ℕ × ℕ)

-- Whether land_chunk writes what was read.
abbrev pub lands : Bool → Image → ℕ → ℕ → Bool
lands skip_zero dev off got = not (skip_zero && not (any (pread got off dev)))

abbrev pub note_copied : Bool → ℕ → ℕ → List (ℕ × ℕ) → List (ℕ × ℕ)
note_copied written_now off got copied = if written_now then (off, got) ∷ copied else copied

-- `Allowed` tells which records the apply loop meets in which state of the copy thread.
module _ (fallocate : ℕ → ℕ → Image → Option Image) (Allowed : Copier → Item → Type 0) where
  pub data Step (s : System) : System → Type 0 where
    -- apply_one, called by the apply loop
    handle :
        (x : Item) (rest : List Item)
        → s.to_come ≡ x ∷ rest
        → Allowed s.copier x
        → Step s (record s {
          daemon = apply_one fallocate x s.daemon;
          disk = effect x s.disk;
          to_come = rest;
        })
    -- with self.lock: self.copying = (off, off + n); self.deferred = []
    flag :
        (off n : ℕ)
        → s.copier ≡ resting
        → Step s (record s { daemon = flag_chunk off n s.daemon; copier = flagged off n })
    -- buf = dev.read(n); the device is ahead by some of the records to come
    read :
        (off n got : ℕ) (ahead behind : List Item)
        → s.copier ≡ flagged off n
        → got ≤ n
        → s.to_come ≡ ahead ++ behind
        → Step s (record s { copier = holding off n got (effects ahead s.disk) })
    -- self.replica.pwrite(buf, off), unless the chunk is zeros and skipped
    land :
        (skip_zero : Bool) (off n got : ℕ) (dev : Image)
        → s.copier ≡ holding off n got dev
        → Step s (record s {
          daemon = land_chunk skip_zero (pread got off dev) off s.daemon;
          copier = written off n;
          copied = note_copied (lands skip_zero dev off got) off got s.copied;
        })
    -- with self.lock: self.copying = None; late, self.deferred = self.deferred, []
    release :
        (off n : ℕ)
        → s.copier ≡ written off n
        → Step s
            (record s { daemon = release_chunk s.daemon; copier = catching_up s.daemon.deferred })
    -- for r, payload in late: self.apply_one(r, payload)
    catch_up :
        (x : Item) (late : List Item)
        → s.copier ≡ catching_up (x ∷ late)
        → Step s (record s { daemon = apply_one fallocate x s.daemon; copier = catching_up late })
    finish : s.copier ≡ catching_up [] → Step s (record s { copier = resting })

  pub data Reach (s : System) : System → Type 0 where
    here : Reach s s
    after : {t u : System} → Reach s t → Step t u → Reach s u
