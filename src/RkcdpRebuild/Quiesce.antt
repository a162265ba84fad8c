-- ===== src/RkcdpRebuild/Quiesce.antt =====
-- Step 2 of rkcdp/rkcdp-rebuild.py: the wait for the daemon to park its writes, beside the states that
-- the daemon reports (Daemon.write_status of rkcdp/rkcdpd.py).
use Prim.Native.String.{String}
use text.Mathlib.Text.{◌==◌ as str_eq}
use io_filter_driver_for_lin.Base.{
  ℕ, zero, suc, ◌+◌, ◌≤◌, ◌<◌, ◌≡◌, ◌⊎◌, inl, inr, Bool, true, false, ◌||◌, Option, none, some, ltb,
  arith, Bool-cases, if◌then◌else◌,
}
use io_filter_driver_for_lin.ApiRkcdp.{is_text}
use io_filter_driver_for_lin.Rkcdpd.Daemon.{Daemon}

-- A look at status.json: its state and its age in seconds.
pub record Look : Type 0 where
  pub state : Option String
  pub age : ℕ

-- st.get("state") == "PAUSED" or time.time() - st.get("time", 0) > 30; a missing file is as old as
-- time itself.
unfoldable pub is_quiet : Option Look → Bool
is_quiet none = true
is_quiet (some look) = is_text look.state "PAUSED" || ltb 30 look.age

pub data Quiesced : Type 0 where
  quiet_at : ℕ → Quiesced
  gave_up : Quiesced

-- The rounds of the loop from round `k` on; the step goes on to the copy however it ends.
unfoldable pub quiesce_loop : ℕ → ℕ → (ℕ → Option Look) → Quiesced
quiesce_loop zero k looks = gave_up
quiesce_loop (suc rounds) k looks =
    let rest = quiesce_loop rounds (suc k) looks in if is_quiet (looks k) then quiet_at k else rest

-- for _ in range(30)
unfoldable pub quiesce : (ℕ → Option Look) → Quiesced
quiesce looks = quiesce_loop 30 0 looks

-- What each end of the loop tells of the rounds from `k` on.
abbrev pub Tells : ℕ → ℕ → (ℕ → Option Look) → Quiesced → Type 0
Tells rounds k looks (quiet_at j) =
    (k ≤ j)
    × (j < k + rounds)
    × (is_quiet (looks j) ≡ true)
    × ((m : ℕ) → k ≤ m → m < j → is_quiet (looks m) ≡ false)
Tells rounds k looks gave_up = (m : ℕ) → k ≤ m → m < k + rounds → is_quiet (looks m) ≡ false

Tells-later :
    (rounds k : ℕ) (looks : ℕ → Option Look) (q : Quiesced)
    → is_quiet (looks k) ≡ false
    → Tells rounds (suc k) looks q
    → Tells (suc rounds) k looks q
Tells-later rounds k looks (quiet_at j) h (past, before, quiet, noisy) = (
  omega (arith, past),
  omega (arith, before),
  quiet,
  λ m l u. elim (k_or_later m l) [ inl same ↦ rw same h | inr later ↦ noisy m later u ],
)
  where
    k_or_later : (m : ℕ) → k ≤ m → (m ≡ k) ⊎ (suc k ≤ m)
    k_or_later m l = grind arith
Tells-later rounds k looks gave_up h noisy = λ m l u. elim (k_or_later m l) [
  | inl same ↦ rw same h
  | inr later ↦ noisy m later (omega (arith, u))
]
  where
    k_or_later : (m : ℕ) → k ≤ m → (m ≡ k) ⊎ (suc k ≤ m)
    k_or_later m l = grind arith

quiesce_loop-Tells :
    (rounds k : ℕ) (looks : ℕ → Option Look) → Tells rounds k looks (quiesce_loop rounds k looks)
unfolding quiesce_loop
quiesce_loop-Tells zero k looks = λ m l u. absurd (omega arith)
quiesce_loop-Tells (suc rounds) k looks = elim (Bool-cases (is_quiet (looks k))) [
  | inl quiet ↦ rw quiet (omega arith, omega arith, quiet, λ m l u. absurd (omega arith))
  | inr noisy ↦ rw noisy (
      Tells-later rounds k looks (quiesce_loop rounds (suc k) looks) noisy
        (quiesce_loop-Tells rounds (suc k) looks))
]

-- The wait takes thirty rounds at most. It ends early at the first look that shows the daemon
-- paused or silent for more than 30 s, and runs out only if no look did.
pub quiesce-Tells : (looks : ℕ → Option Look) → Tells 30 0 looks (quiesce looks)
unfolding quiesce
quiesce-Tells looks = quiesce_loop-Tells 30 0 looks
