-- ===== src/Rkcdpd/Status/Alone.antt =====
-- On a main loop beside which nothing runs: no recovery and no base copy (Daemon.note_gap, recovery_queue
-- and the end of a turn of Daemon.main, of rkcdp/rkcdpd.py).
use io_filter_driver_for_lin.Base.{
  ℕ, bit_and, ◌≡◌, refl, ap, ◌∙◌, false, Option, List, [], ◌∷◌, ◌++◌, arith, All,
}
use io_filter_driver_for_lin.Image.{Image}
use io_filter_driver_for_lin.Dmcdp.{Item, f_gap_before}
use io_filter_driver_for_lin.Rkcdpd.Daemon.{Daemon, apply_one, apply_all, note_gap, append_pending}
use io_filter_driver_for_lin.Rkcdpd.Daemon.Park.{note_gaps}
use io_filter_driver_for_lin.Rkcdpd.Status.{present, next_recovery}

-- No recovery runs or waits, and no base copy runs.
pub record IsAlone (d : Daemon) : Type 0 where
  pub none_queued : d.recovery_queue ≡ []
  pub none_running : d.recovery_alive ≡ false
  pub no_base : present d.base_progress ≡ false

-- None of the records tells of a gap before it.
abbrev pub HasNoGap : List Item → Type 0
HasNoGap = All (λ (x : Item). bit_and x.0.flags f_gap_before ≡ 0)

pub HasNoGap-append : (xs ys : List Item) → HasNoGap (xs ++ ys) → HasNoGap xs × HasNoGap ys
HasNoGap-append [] ys h = (tt, h)
HasNoGap-append (x ∷ xs) ys (here, later) =
    let (front, back) = HasNoGap-append xs ys later in ((here, front), back)

pub note_gaps-none : (xs : List Item) (d : Daemon) → HasNoGap xs → note_gaps xs d ≡ d
note_gaps-none [] d h = refl
note_gaps-none (x ∷ xs) d (none_here, later) =
    let same : note_gap x.0 d ≡ d = unfold note_gap in ground arith in
    ap (note_gaps xs) same ∙ note_gaps-none xs d later

pub append_pending-IsAlone :
    (parked : List ℕ) (d : Daemon) → IsAlone d → IsAlone (append_pending parked d)
unfolding append_pending
append_pending-IsAlone [] d alone = alone
append_pending-IsAlone (b ∷ parked) d alone = record {
  none_queued = alone.none_queued;
  none_running = alone.none_running;
  no_base = alone.no_base;
}

pub next_recovery-none :
    (extents : List (ℕ × ℕ)) (d : Daemon) → IsAlone d → next_recovery d.recovery_queue extents d ≡ d
unfolding next_recovery
next_recovery-none extents d alone = rw alone.none_queued refl

pub next_recovery-IsAlone :
    (extents : List (ℕ × ℕ)) (d : Daemon)
    → IsAlone d
    → IsAlone (next_recovery d.recovery_queue extents d)
next_recovery-IsAlone extents d alone = rw (next_recovery-none extents d alone) alone

pub apply_all-IsAlone :
    (fallocate : ℕ → ℕ → Image → Option Image) (xs : List Item) (d : Daemon)
    → IsAlone d
    → IsAlone (apply_all fallocate xs d)
unfolding apply_all
apply_all-IsAlone fallocate [] d alone = alone
apply_all-IsAlone fallocate (x ∷ xs) d alone =
    let first : IsAlone (apply_one fallocate x d) =
      unfold apply_one in
      record {
        none_queued = ground (arith, alone.none_queued);
        none_running = ground (arith, alone.none_running);
        no_base = ground (arith, alone.no_base);
      } in
    apply_all-IsAlone fallocate xs (apply_one fallocate x d) first
