-- ===== src/Rkcdpd/Daemon.antt =====
-- class Daemon of rkcdp/rkcdpd.py: its fields, with the files of the node's directory that they
-- stand for, and the apply path: apply_one, consume, apply_pending.
pub mod Park
pub mod Reads
pub mod Order
pub mod Copy
use io_filter_driver_for_lin.Base.{
  ℕ, zero, suc, ◌+◌, ◌*◌, Bool, true, false, ◌&&◌, not, Option, none, some, List, [], ◌∷◌, ◌++◌, ℤ,
  pos, if◌then◌else◌, ◌==◌, ltb, length, take, drop, bit_and,
}
use io_filter_driver_for_lin.Image.{Image}
use io_filter_driver_for_lin.Dmcdp.{
  Rec, Item, rec_write, f_gap_before, Outcome, done, bad_magic, spins, iter_records,
}
use io_filter_driver_for_lin.Rkcdpd.Replica.{Replica, replica_write}

abbrev pub read_sz : ℕ
read_sz = 16777216

pub record Daemon : Type 0 where
  pub size : ℕ
  pub replica : Replica
  pub copying : Option (ℕ × ℕ)
  pub deferred : List Item
  pub base_progress : Option ℕ  -- {} or the bytes done
  pub recovery_alive : Bool  -- recovery_thread
  pub recovery_queue : List ℤ  -- gap seqs, and -1 for a seed drain
  pub gap_seen : Option ℕ
  pub last_seq : Option ℕ
  pub records : ℕ
  pub bytes : ℕ
  pub seed_required : Bool
  pub base_end_seq : Option ℕ  -- manifest.json
  pub consistent : Option (Option ℕ)  -- manifest.json: consistent.seq
  pub recovery_json : Option (List (ℕ × ℕ))  -- the extents of recovery.json, if the file exists
  pub pending_bin : Option (List ℕ)  -- the bytes of pending.bin, if the file exists
  pub rebuild_lock : Bool  -- .rebuild.lock exists

abbrev pub recovery_active : Daemon → Bool
recovery_active d = d.recovery_alive

abbrev pub paused : Daemon → Bool
paused d = d.rebuild_lock

-- c is not None and start < c[1] and end > c[0]
unfoldable pub in_flight : Option (ℕ × ℕ) → Rec → Bool
in_flight none r = false
in_flight (some (c0, c1)) r = ltb (r.sector * 512) c1 && ltb c0 (r.sector * 512 + r.len)

module _ (fallocate : ℕ → ℕ → Image → Option Image) where
  unfoldable pub apply_one : Item → Daemon → Daemon
  apply_one (r, payload) d =
      if in_flight d.copying r
      then record d { deferred = d.deferred ++ (r, payload) ∷ [] }
      else record d {
        replica = replica_write fallocate (r, payload) d.replica;
        last_seq = some r.seq;
        records = d.records + 1;
        bytes = if r.type == rec_write then d.bytes + r.len else d.bytes;
      }

  -- for r, payload in …: self.apply_one(r, payload)
  unfoldable pub apply_all : List Item → Daemon → Daemon
  apply_all [] d = d
  apply_all (x ∷ items) d = apply_all items (apply_one x d)

-- self.gap_seen == seq, where the field may be None
abbrev pub seen : Option ℕ → ℕ → Bool
seen none seq = false
seen (some s) seq = s == seq

unfoldable pub note_gap : Rec → Daemon → Daemon
note_gap r d =
    if not (bit_and r.flags f_gap_before == 0) && not (seen d.gap_seen r.seq)
    then record d { gap_seen = some r.seq; recovery_queue = d.recovery_queue ++ pos r.seq ∷ [] }
    else d

-- What a call that scans records comes back with: a value, the ValueError of `Rec`, or nothing.
pub data Returned {ℓ} (A : Type ℓ) : Type ℓ where
  value : A → Returned A
  value_error : Returned A
  never : Returned A

-- with open(self.pending_path, "ab") as f: f.write(parked), if there is anything to write
unfoldable pub append_pending : List ℕ → Daemon → Daemon
append_pending [] d = d
append_pending (b ∷ parked) d = record d {
  pending_bin = elim d.pending_bin [
    | none ↦ some (b ∷ parked)
    | some old ↦ some (old ++ b ∷ parked)
  ];
}

consume_end : List ℕ → Outcome → Daemon × ℕ × List ℕ → Returned (List ℕ) × Daemon
consume_end buf (done e) (d, off, parked) = (value (drop off buf), append_pending parked d)
consume_end buf (bad_magic e) (d, off, parked) = (value_error, d)
consume_end buf spins (d, off, parked) = (never, d)

-- off after the loop over the items
unfoldable pub consumed : List Item → ℕ → ℕ
consumed [] off = off
consumed ((r, payload) ∷ items) off = consumed items (off + r.rec_len)

-- The loop goes on unless the scan raised or never ended.
after_scan : Outcome → Returned (Unit {0}) × Daemon → Daemon → Returned (Unit {0}) × Daemon
after_scan (done e) more d = more
after_scan (bad_magic e) more d = (value_error, d)
after_scan spins more d = (never, d)

module _ (fallocate : ℕ → ℕ → Image → Option Image) where
  -- The loop of `consume`: the state, `off` and `parked` after it.
  unfoldable pub consume_loop :
      Bool → List ℕ → List Item → ℕ → List ℕ → Daemon → Daemon × ℕ × List ℕ
  consume_loop park buf [] off parked d = (d, off, parked)
  consume_loop park buf ((r, payload) ∷ items) off parked d =
      consume_loop park buf items (off + r.rec_len)
        (if park then parked ++ take r.rec_len (drop off buf) else parked)
        (let d' = note_gap r d in if park then d' else apply_one fallocate (r, payload) d')

  unfoldable pub consume : List ℕ → Daemon → Returned (List ℕ) × Daemon
  unfolding consume_end
  consume buf d =
      let (items, outcome) = iter_records buf in
      consume_end buf outcome (consume_loop (paused d) buf items 0 [] d)

  -- The loop of `apply_pending` over the bytes of pending.bin that are still to be read.
  unfoldable pub pending_loop : ℕ → List ℕ → List ℕ → Daemon → Returned (Unit {0}) × Daemon
  unfolding after_scan
  pending_loop zero tail file d = (never, d)
  pending_loop (suc fuel) tail file d = elim (take read_sz file) [
    | [] ↦ (value tt, record d { pending_bin = none })
    | b ∷ bs ↦
        let buf = tail ++ b ∷ bs in
        let items = (iter_records buf).0 in
        let d' = apply_all fallocate items d in
        let more = pending_loop fuel (drop (consumed items 0) buf) (drop read_sz file) d' in
        after_scan (iter_records buf).1 more d'
  ]

  unfoldable pub apply_pending_file : Option (List ℕ) → Daemon → Returned (Unit {0}) × Daemon
  apply_pending_file none d = (value tt, d)
  apply_pending_file (some file) d = pending_loop (suc (length file)) [] file d

  unfoldable pub apply_pending : Daemon → Returned (Unit {0}) × Daemon
  unfolding apply_pending_file
  apply_pending d = apply_pending_file d.pending_bin d
