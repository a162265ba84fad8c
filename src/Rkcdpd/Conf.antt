-- ===== src/Rkcdpd/Conf.antt =====
-- load_conf of rkcdp/rkcdpd.py, and what Daemon.__init__ makes of the configuration. A time is a number
-- of milliseconds; a key is missing or has a value of its type.
use Prim.Native.String.{String}
use io_filter_driver_for_lin.Base.{
  ℕ, ◌+◌, ◌≡◌, refl, Bool, true, Option, none, some, arith, if◌then◌else◌, ◌==◌, ◌≤◌,
}
use io_filter_driver_for_lin.Rkcdpd.Status.{present}
use io_filter_driver_for_lin.Rkcdpd.Throttle.{Throttle, throttle}
use io_filter_driver_for_lin.Rkcdpd.Timers.{Periods, Main, point_due}

-- /etc/rkcdp/rkcdp.conf
pub record ConfFile : Type 0 where
  pub device : Option String
  pub dm_name : Option String
  pub journal : Option String
  pub node : Option String
  pub cycle_sec : Option ℕ
  pub base_copy_mbps : Option ℕ
  pub consistent_sec : Option ℕ
  pub freeze_cap_sec : Option ℕ
  pub seed_required : Option Bool

-- The dictionary `conf`: the keys with a default are there.
pub record Conf : Type 0 where
  pub device : Option String
  pub dm_name : String
  pub journal : String
  pub node : String
  pub cycle_sec : ℕ
  pub base_copy_mbps : ℕ
  pub consistent_sec : Option ℕ
  pub freeze_cap_sec : Option ℕ
  pub seed_required : Option Bool

-- What conf.update leaves of a default.
abbrev pub updated {ℓ} : {A : Type ℓ} → Option A → A → A
updated none default = default
updated (some a) default = a

unfoldable pub load_conf : String → Option ConfFile → Conf
load_conf hostname none = record {
  device = none;
  dm_name = "rkcdp";
  journal = "/replication/_kvmdr/rkcdp";
  node = hostname;
  cycle_sec = 1000;
  base_copy_mbps = 15;
  consistent_sec = none;
  freeze_cap_sec = none;
  seed_required = none;
}
load_conf hostname (some file) = record {
  device = file.device;
  dm_name = updated file.dm_name "rkcdp";
  journal = updated file.journal "/replication/_kvmdr/rkcdp";
  node = updated file.node hostname;
  cycle_sec = updated file.cycle_sec 1000;
  base_copy_mbps = updated file.base_copy_mbps 15;
  consistent_sec = file.consistent_sec;
  freeze_cap_sec = file.freeze_cap_sec;
  seed_required = file.seed_required;
}

-- conf.get(key) or default
abbrev pub or_default : Option ℕ → ℕ → ℕ
or_default none default = default
or_default (some n) default = if n == 0 then default else n

-- self.cycle_sec and self.consistent_sec
unfoldable pub periods_of : Conf → Periods
periods_of conf = record {
  cycle_period = conf.cycle_sec;
  consistent_period = or_default conf.consistent_sec 3600000;
}

-- Throttle(self.mbps), where self.mbps = conf.get("base_copy_mbps") or 0
unfoldable pub copy_throttle : Conf → Throttle
copy_throttle conf = throttle conf.base_copy_mbps

-- A configuration cannot switch the consistent points off with a consistent_sec of 0: from a disk whose
-- base copy is complete, a point is due an hour after the last one, as it is with no configuration.
pub load_conf-point_due :
    (hostname : String) (file : ConfFile) (now : ℕ) (m : Main)
    → file.consistent_sec ≡ some 0
    → present m.daemon.base_end_seq ≡ true
    → m.clock.last_consistent + 3600000 ≤ now
    → let p = periods_of (load_conf hostname (some file)) in
      (point_due p now m ≡ true)
      × (p.consistent_period ≡ (periods_of (load_conf hostname none)).consistent_period)
unfolding load_conf periods_of
load_conf-point_due hostname file now m off based hour = rw (off, based) (ground arith, refl)
