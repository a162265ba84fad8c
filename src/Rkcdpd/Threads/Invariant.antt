-- ===== src/Rkcdpd/Threads/Invariant.antt =====
-- What every interleaving of the copy thread and the apply loop keeps (Daemon.copy_chunk and apply_one
-- of rkcdp/rkcdpd.py).
use io_filter_driver_for_lin.Base.{
  ℕ, ◌+◌, ◌≤◌, ◌≡◌, ◌⊎◌, inl, inr, refl, sym, ◌∙◌, Bool, true, ◌&&◌, Option, none, some, List, [],
  ◌∷◌, arith, All, Bool-cases,
}
use io_filter_driver_for_lin.Image.{Image, within, pread}
use io_filter_driver_for_lin.Dmcdp.{Item}
use io_filter_driver_for_lin.Dmcdp.Extents.Covered.{covered}
use io_filter_driver_for_lin.Rkcdpd.Replica.Effect.{effect, PunchesZeros}
use io_filter_driver_for_lin.Rkcdpd.Daemon.{in_flight, apply_one}
use io_filter_driver_for_lin.Rkcdpd.Daemon.Copy.{flag_chunk, land_chunk, release_chunk}
use io_filter_driver_for_lin.Rkcdpd.Daemon.Copy.Loop.{effects, copying-apply_one, fd-apply_one}
use io_filter_driver_for_lin.Rkcdpd.Daemon.Copy.Chunk.{fd-land_chunk, copying-land_chunk}
use io_filter_driver_for_lin.Rkcdpd.Daemon.Copy.Settle.{Settles}
use io_filter_driver_for_lin.Rkcdpd.Threads.{
  Copier, resting, flagged, holding, written, catching_up, System, lands, note_copied, Step, handle,
  flag, read, land, release, catch_up, finish, Reach, here, after,
}
use io_filter_driver_for_lin.Rkcdpd.Threads.Handled.{
  IsInside, IsCalm, owed, Comes, Keeps-IsApart, Comes-read, Comes-local, handled, handled_free,
}

-- The bookkeeping of a chunk in flight; at a byte of it, what is deferred is in the disk already.
abbrev InFlight : ℕ → ℕ → System → ℕ → Type 0
InFlight off n s i =
    (s.daemon.copying ≡ some (off, off + n))
    × All (IsInside off n) s.daemon.deferred
    × (within off n i ≡ true → effects s.daemon.deferred s.disk i ≡ s.disk i)

abbrev Phase : Copier → System → ℕ → Type 0
Phase resting s i = s.daemon.copying ≡ none
Phase (flagged off n) s i = InFlight off n s i
Phase (holding off n got dev) s i =
    InFlight off n s i
    × (got ≤ n)
    × (within off n i ≡ true → Comes s.to_come s.daemon.deferred s.disk dev i)
Phase (written off n) s i = InFlight off n s i
Phase (catching_up late) s i = s.daemon.copying ≡ none

pub record Inv (i : ℕ) (Given : Type 0) (s : System) : Type 0 where
  pub phase : Phase s.copier s i
  pub comes :
      Given ⊎ (covered s.copied i ≡ true)
      → Comes s.to_come (owed s.copier s.daemon) s.disk s.daemon.replica.fd i

module _ (fallocate : ℕ → ℕ → Image → Option Image) (zeros : PunchesZeros fallocate) (i : ℕ)
    (Given : Type 0) where
  handle-Inv :
      (c : Copier) (x : Item) (rest : List Item) (s : System)
      → s.copier ≡ c
      → s.to_come ≡ x ∷ rest
      → IsCalm c x
      → Inv i Given s
      → Inv i Given (record s {
        daemon = apply_one fallocate x s.daemon;
        disk = effect x s.disk;
        to_come = rest;
      })
  handle-Inv resting x rest s e q calm inv =
      let p : Phase resting s i = rw e at inv.phase in
      record {
        phase = rw e (copying-apply_one fallocate zeros x s.daemon ∙ p);
        comes = λ g. rw e (
            handled_free fallocate zeros i x rest [] s.disk s.daemon p (inr (λ a. refl))
              (rw (e, q) at (inv.comes g)));
      }
  handle-Inv (flagged off n) x rest s e q (sized, placed) inv =
      let (c, inside, held) : Phase (flagged off n) s i = rw e at inv.phase in
      let h = handled fallocate zeros i x rest off n s.disk s.daemon sized c inside held placed in
      record {
        phase = rw e (h.copying_kept, h.all_inside, h.disk_kept);
        comes = λ g. rw e (h.replica_comes (rw (e, q) at (inv.comes g)));
      }
  handle-Inv (holding off n got dev) x rest s e q (sized, placed) inv =
      let ((c, inside, held), fits, reads) : Phase (holding off n got dev) s i =
        rw e at inv.phase in
      let h = handled fallocate zeros i x rest off n s.disk s.daemon sized c inside held placed in
      record {
        phase = rw e (
          (h.copying_kept, h.all_inside, h.disk_kept),
          fits,
          λ w. h.read_comes dev w (rw q at (reads w)),
        );
        comes = λ g. rw e (h.replica_comes (rw (e, q) at (inv.comes g)));
      }
  handle-Inv (written off n) x rest s e q (sized, placed) inv =
      let (c, inside, held) : Phase (written off n) s i = rw e at inv.phase in
      let h = handled fallocate zeros i x rest off n s.disk s.daemon sized c inside held placed in
      record {
        phase = rw e (h.copying_kept, h.all_inside, h.disk_kept);
        comes = λ g. rw e (h.replica_comes (rw (e, q) at (inv.comes g)));
      }
  handle-Inv (catching_up late) x rest s e q calm inv =
      let p : Phase (catching_up late) s i = rw e at inv.phase in
      record {
        phase = rw e (copying-apply_one fallocate zeros x s.daemon ∙ p);
        comes = λ g. rw e (
            handled_free fallocate zeros i x rest late s.disk s.daemon p
              (Keeps-IsApart x late i calm) (rw (e, q) at (inv.comes g)));
      }

  land-Inv :
      (skip_zero : Bool) (off n got : ℕ) (dev : Image) (s : System)
      → s.copier ≡ holding off n got dev
      → Inv i Given s
      → Inv i Given (record s {
        daemon = land_chunk skip_zero (pread got off dev) off s.daemon;
        copier = written off n;
        copied = note_copied (lands skip_zero dev off got) off got s.copied;
      })
  land-Inv skip_zero off n got dev s e inv =
      let ((c, inside, held), fits, reads) : Phase (holding off n got dev) s i =
        rw e at inv.phase in
      let d' = land_chunk skip_zero (pread got off dev) off s.daemon in
      let (same_copying, same) = copying-land_chunk skip_zero (pread got off dev) off s.daemon in
      let put = fd-land_chunk skip_zero dev off got s.daemon i in
      let late = s.daemon.deferred in
      record {
        phase = (same_copying ∙ c, rw same inside, λ w. rw same (held w));
        comes = λ g. rw same (elim (Bool-cases (within off got i && lands skip_zero dev off got)) [
          | inl hit ↦
              Comes-local s.to_come late s.disk dev d'.replica.fd i (sym (put ∙ ground arith))
                (reads (ground arith))
          | inr miss ↦
              Comes-local s.to_come late s.disk s.daemon.replica.fd d'.replica.fd i
                (sym (put ∙ ground arith))
                (rw e at (inv.comes (elim g [ inl h ↦ inl h | inr k ↦ inr (ground arith) ])))
        ]);
      }

  -- Every step keeps the invariant.
  Step-Inv : {s t : System} → Step fallocate IsCalm s t → Inv i Given s → Inv i Given t
  unfolding flag_chunk release_chunk
  Step-Inv {s} (handle x rest q calm) inv = handle-Inv s.copier x rest s refl q calm inv
  Step-Inv {s} (flag off n e) inv = record {
    phase = (refl, tt, λ w. refl);
    comes = λ g. rw e at (inv.comes g);
  }
  Step-Inv {s} (read off n got ahead behind e g q) inv =
      let (c, inside, held) : Phase (flagged off n) s i = rw e at inv.phase in
      record {
        phase = (
          (c, inside, held),
          g,
          λ w. rw q (Comes-read ahead behind s.daemon.deferred s.disk i (held w)),
        );
        comes = λ h. rw e at (inv.comes h);
      }
  Step-Inv {s} (land skip_zero off n got dev e) inv = land-Inv skip_zero off n got dev s e inv
  Step-Inv {s} (release off n e) inv = record { phase = refl; comes = λ g. rw e at (inv.comes g) }
  Step-Inv {s} (catch_up x late e) inv =
      let p : Phase (catching_up (x ∷ late)) s i = rw e at inv.phase in
      let applied : (apply_one fallocate x s.daemon).replica.fd i ≡ effect x s.daemon.replica.fd i =
        fd-apply_one fallocate zeros x s.daemon i ∙ unfold in_flight in rw p refl in
      record {
        phase = copying-apply_one fallocate zeros x s.daemon ∙ p;
        comes = λ g.
            Comes-local s.to_come late s.disk (effect x s.daemon.replica.fd)
              (apply_one fallocate x s.daemon).replica.fd i (sym applied) (rw e at (inv.comes g));
      }
  Step-Inv {s} (finish e) inv = record {
    phase = rw e at inv.phase;
    comes = λ g. rw e at (inv.comes g);
  }

  pub Reach-Inv : {s t : System} → Reach fallocate IsCalm s t → Inv i Given s → Inv i Given t
  Reach-Inv here inv = inv
  Reach-Inv (after r st) inv = Step-Inv st (Reach-Inv r inv)

-- However copies of chunks and the apply loop are interleaved, from a resting copy thread to a
-- resting one, in calm order (while a chunk is in flight the records that are handled lie within it
-- or apart from it, and none that is handled while deferred ones are applied meets one of those): a
-- byte that would have come up to date before still will, and so will every byte that was copied.
-- The device that is read is ahead of the apply loop by some of the records to come.
pub Reach-Settles :
    (fallocate : ℕ → ℕ → Image → Option Image) (s t : System) (i : ℕ)
    → PunchesZeros fallocate
    → s.copier ≡ resting
    → s.daemon.copying ≡ none
    → s.copied ≡ []
    → Reach fallocate IsCalm s t
    → t.copier ≡ resting
    → Settles s.to_come s.disk s.daemon.replica.fd i ⊎ (covered t.copied i ≡ true)
    → Settles t.to_come t.disk t.daemon.replica.fd i
Reach-Settles fallocate s t i zeros rests free fresh r rested g =
    let Given = Settles s.to_come s.disk s.daemon.replica.fd i in
    let begun : Inv i Given s = record {
      phase = rw rests free;
      comes = λ h. elim h [
        | inl given ↦ rw rests given
        | inr k ↦ absurd (let c : covered [] i ≡ true = rw fresh at k in ground (arith, c))
      ];
    } in
    rw rested at ((Reach-Inv fallocate zeros i Given r begun).comes g)
