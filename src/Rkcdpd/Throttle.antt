-- ===== src/Rkcdpd/Throttle.antt =====
-- class Throttle of rkcdp/rkcdpd.py, which holds a copy to its rate. A time is a number of nanoseconds
-- since the throttle was made. `ahead` is a quotient by the rate; it is kept here as its numerator, in
-- parts of a nanosecond.
pub mod Rate
use io_filter_driver_for_lin.Base.{ℕ, ◌+◌, ◌-◌, ◌*◌, List, [], ◌∷◌, min, if◌then◌else◌, ◌==◌}

abbrev pub second : ℕ
second = 1000000000

-- self.rate in bytes per second, 0 where it is unlimited; self.done
pub record Throttle : Type 0 where
  pub rate : ℕ
  pub done : ℕ

-- Throttle(mbps); 0 is what `mbps or 0` makes of a missing one.
unfoldable pub throttle : ℕ → Throttle
throttle mbps = record { rate = mbps * 1048576; done = 0 }

-- self.done / self.rate - elapsed, times the rate; 0 where it is not positive.
abbrev pub ahead : ℕ → Throttle → ℕ
ahead elapsed t = t.done * second - elapsed * t.rate

-- account(n) at the time `elapsed`: the throttle, and min(ahead, 1.0) times the rate, which time.sleep
-- is called with.
unfoldable pub account : ℕ → ℕ → Throttle → Throttle × ℕ
account n elapsed t =
    let t' = record t { done = t.done + n } in
    (t', if t'.rate == 0 then 0 else min (ahead elapsed t') (second * t'.rate))

-- A call of account: its bytes, when it is made, and when it returns.
pub record Call : Type 0 where
  pub bytes : ℕ
  pub called : ℕ
  pub returned : ℕ

unfoldable pub account_all : List Call → Throttle → Throttle
account_all [] t = t
account_all (c ∷ calls) t = account_all calls (account c.bytes c.called t).0
