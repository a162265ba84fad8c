-- ===== src/Rkcdpd/Status/Document.antt =====
-- status.json as Daemon.write_status of rkcdp/rkcdpd.py writes it.
use Prim.Native.String.{String}
use io_filter_driver_for_lin.Base.{ℕ, Option, ℤ, length}
use io_filter_driver_for_lin.Dmcdp.Driver.{DriverStatus}
use io_filter_driver_for_lin.Rkcdpd.Daemon.{Daemon}
use io_filter_driver_for_lin.Rkcdpd.Daemon.Reads.{bytes_of}
use io_filter_driver_for_lin.Rkcdpd.Status.{status_state}

pub record StatusDoc : Type 0 where
  pub node : String
  pub state : String
  pub time : ℕ
  pub boot_id : Option String
  pub last_seq : Option ℕ
  pub last_time : Option ℕ
  pub seq_next : ℕ
  pub ring_used : ℕ
  pub ring_size : ℕ
  pub overflows : ℕ
  pub records : ℕ
  pub bytes : ℕ
  pub base_copy : Option ℕ  -- the bytes done
  pub recovery_gap_seq : Option ℤ
  pub consistent : Option (Option ℕ)  -- its seq
  pub pending_bytes : ℕ

-- What write_status takes from elsewhere: the configuration, the clock, the boot, last_time, and the
-- gap of recovery.json.
pub record Reporter : Type 0 where
  pub node : String
  pub boot_id : Option String
  pub time : ℕ
  pub last_time : Option ℕ
  pub gap_seq : Option ℤ

unfoldable pub write_status : Reporter → DriverStatus → Daemon → StatusDoc
write_status r st d = record {
  node = r.node;
  state = status_state st.flags d;
  time = r.time;
  boot_id = r.boot_id;
  last_seq = d.last_seq;
  last_time = r.last_time;
  seq_next = st.seq_next;
  ring_used = st.ring_used;
  ring_size = st.ring_size;
  overflows = st.overflows;
  records = d.records;
  bytes = d.bytes;
  base_copy = d.base_progress;
  recovery_gap_seq = r.gap_seq;
  consistent = d.consistent;
  pending_bytes = length (bytes_of d.pending_bin);
}
