-- ===== src/Rkcdpd/Throttle/Rate.antt =====
-- On the rate that class Throttle of rkcdp/rkcdpd.py keeps.
use io_filter_driver_for_lin.Base.{ℕ, zero, suc, ◌+◌, ◌*◌, ◌≤◌, ◌<◌, ◌≡◌, List, [], ◌∷◌, All, arith}
use native.Mathlib.Nat.{add-mul, mul-le-mul_right}
use io_filter_driver_for_lin.Rkcdpd.Throttle.{
  second, Throttle, throttle, account, Call, account_all,
}

-- The calls follow one another from the time `since`, and each returns once time.sleep has slept as
-- long as it was told to, or longer.
abbrev pub AreTimed : ℕ → List Call → Throttle → Type 0
AreTimed since [] t = Unit
AreTimed since (c ∷ calls) t =
    let (t', slept) = account c.bytes c.called t in
    (since ≤ c.called)
    × (c.called * t.rate + slept ≤ c.returned * t.rate)
    × AreTimed c.returned calls t'

-- When the last call returns.
abbrev pub last_return : ℕ → List Call → ℕ
last_return since [] = since
last_return since (c ∷ calls) = last_return c.returned calls

-- What has been accounted for by a time is no more than the rate allows.
abbrev pub IsWithinRate : ℕ → Throttle → Type 0
IsWithinRate elapsed t = t.done * second ≤ elapsed * t.rate

account-IsWithinRate :
    (since : ℕ) (c : Call) (t : Throttle)
    → c.bytes ≤ t.rate
    → since ≤ c.called
    → c.called * t.rate + (account c.bytes c.called t).1 ≤ c.returned * t.rate
    → IsWithinRate since t
    → IsWithinRate c.returned (account c.bytes c.called t).0
unfolding account
account-IsWithinRate since c t small later slept h =
    let later_too = mul-le-mul_right t.rate later in ground (arith, later_too)

-- Where no call accounts for more than a second's worth of bytes, the throttle keeps its rate: when
-- the last of any calls returns, no more has been accounted for, from the start, than the rate
-- allows for the time that has gone by.
pub account_all-IsWithinRate :
    (calls : List Call) (since : ℕ) (t : Throttle)
    → IsWithinRate since t
    → All (λ c. c.bytes ≤ t.rate) calls
    → AreTimed since calls t
    → IsWithinRate (last_return since calls) (account_all calls t)
unfolding account_all account
account_all-IsWithinRate [] since t h small timed = h
account_all-IsWithinRate (c ∷ calls) since t h (fits, rest) (later, slept, timed) =
    account_all-IsWithinRate calls c.returned (account c.bytes c.called t).0
      (account-IsWithinRate since c t fits later slept h) rest timed

-- `k` calls of `n` bytes, each made at once and each returning after a second.
abbrev pub each_second : ℕ → ℕ → ℕ → List Call
each_second n since zero = []
each_second n since (suc k) =
    record { bytes = n; called = since; returned = since + second }
    ∷ each_second n (since + second) k

each_second_lem :
    (n since lead k : ℕ) (t : Throttle)
    → t.rate < n
    → since * t.rate + lead ≤ t.done * second
    → let calls = each_second n since k in
      AreTimed since calls t
      × (last_return since calls * t.rate + lead + k ≤ (account_all calls t).done * second)
unfolding account_all account
each_second_lem n since lead zero t big behind = (tt, omega (arith, behind))
each_second_lem n since lead (suc k) t big behind =
    let t' = (account n since t).0 in
    let longer : (since + second) * t.rate ≡ since * t.rate + second * t.rate =
      add-mul since second t.rate in
    let (timed, ended) =
      each_second_lem n (since + second) (suc lead) k t' big (omega (arith, longer, behind, big)) in
    ((omega arith, ground (arith, longer), timed), omega (arith, ended))

-- Where each call accounts for more bytes than the rate allows for a second, the throttle does not keep
-- its rate: calls of `n` bytes made at once, with every sleep as long as it was told to be, are
-- timed as they should be, and when the last of any number of them returns, more has been accounted
-- for than the rate allows, since no sleep is longer than a second.
pub account_all_overruns :
    (mbps n k : ℕ)
    → 0 < mbps
    → mbps * 1048576 < n
    → let calls = each_second n 0 (suc k) in
      let t = throttle mbps in
      AreTimed 0 calls t × (last_return 0 calls * t.rate < (account_all calls t).done * second)
unfolding throttle
account_all_overruns mbps n k limited big =
    let (timed, over) = each_second_lem n 0 0 (suc k) (throttle mbps) big (omega arith) in
    (timed, omega (arith, over))
