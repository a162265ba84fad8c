-- ===== src/Tests/Streams.antt =====
-- The theorems on streams of records, their order and consistent points, applied to two writes.
use io_filter_driver_for_lin.Base.{
  ℕ, ◌≡◌, refl, true, false, none, some, List, [], ◌∷◌, ◌++◌, map, drop, arith, All,
}
use io_filter_driver_for_lin.Dmcdp.{done, iter_records, iter_loop, rec_init, pack_rec}
use io_filter_driver_for_lin.Dmcdp.Stream.{Fits}
use io_filter_driver_for_lin.Dmcdp.RoundTrip.{Args, item_of, pack_all, iter_records-pack_all}
use io_filter_driver_for_lin.Rkcdpd.Daemon.{value, consume, apply_pending}
use io_filter_driver_for_lin.Rkcdpd.Daemon.Reads.{with_files}
use io_filter_driver_for_lin.Rkcdpd.Daemon.Order.{apply_pending-consume}
use io_filter_driver_for_lin.Rkcdpd.Daemon.Copy.Loop.{effects}
use io_filter_driver_for_lin.Rkcdpd.Status.{Turn, cycle}
use io_filter_driver_for_lin.Rkcdpd.Status.Cycle.{cycle_out_of_order}
use io_filter_driver_for_lin.Rkcdpd.Status.{main_loop}
use io_filter_driver_for_lin.Rkcdpd.Status.MainLoop.{IsLive, stream_of, main_loop-iter_records}
use io_filter_driver_for_lin.Rkcdpd.Consistent.{froze, marked, mark_consistent}
use io_filter_driver_for_lin.Rkcdpd.Consistent.Point.{
  items_of, last_of, IsWholeRead, mark_consistent_point,
}
use io_filter_driver_for_lin.Tests.{punching, punching-PunchesZeros, blank, idle_daemon}

-- The bytes of a write of two bytes, behind the first byte of its magic.
abbrev packet_tail : ℕ → ℕ → List ℕ
packet_tail seq b =
    68 ∷ 80 ∷ 82 ∷ 1 ∷ 0 ∷ 1 ∷ 0 ∷ 0 ∷ 0 ∷ 0 ∷ 0 ∷ 2 ∷ 0 ∷ 0 ∷ 0 ∷ seq ∷ 0 ∷ 0 ∷ 0 ∷ 0 ∷ 0 ∷ 0 ∷ 0
    ∷ 0 ∷ 0 ∷ 0 ∷ 0 ∷ 0 ∷ 0 ∷ 0 ∷ 0 ∷ 2 ∷ 0 ∷ 0 ∷ 0 ∷ 64 ∷ 0 ∷ 0 ∷ 0 ∷ 0 ∷ 0 ∷ 0 ∷ 0 ∷ 0 ∷ 0 ∷ 0 ∷ 0
    ∷ 0 ∷ 0 ∷ 0 ∷ 0 ∷ 0 ∷ 0 ∷ 0 ∷ 0 ∷ b ∷ b ∷ 0 ∷ 0 ∷ 0 ∷ 0 ∷ 0 ∷ 0 ∷ []

abbrev packet : ℕ → ℕ → List ℕ
packet seq b = 67 ∷ packet_tail seq b

-- A read that ends in the first byte of the next record.
abbrev pub cut_read : List ℕ
cut_read = packet 1 8 ++ 67 ∷ []

scan_cut_read : (iter_records cut_read).1 ≡ done 64
unfolding iter_records iter_loop rec_init
scan_cut_read = refl

cut_read-Fits : All Fits (iter_records cut_read).0
unfolding iter_records iter_loop rec_init
cut_read-Fits = (omega arith, tt)

scan_packet : (iter_records (packet 1 8)).1 ≡ done 64
unfolding iter_records iter_loop rec_init
scan_packet = refl

packet-Fits : All Fits (iter_records (packet 1 8)).0
unfolding iter_records iter_loop rec_init
packet-Fits = (omega arith, tt)

abbrev pub next_read : List ℕ
next_read = packet_tail 2 9

apply_pending-consume_example :
    let parked = (consume punching cut_read (with_files (some (packet 1 8)) true idle_daemon)).1 in
    let applied = (apply_pending punching (with_files (some (packet 1 8)) false idle_daemon)).1 in
    apply_pending punching (with_files parked.pending_bin false parked)
    ≡ (value tt, (consume punching cut_read applied).1)
apply_pending-consume_example =
    apply_pending-consume punching (some (packet 1 8)) cut_read 64 idle_daemon scan_packet
      packet-Fits scan_cut_read cut_read-Fits

abbrev one_write : Args
one_write = record {
  rtype = 1;
  flags = 0;
  seq = 1;
  sector = 0;
  len = 2;
  ts_ns = 0;
  payload = 8 ∷ 8 ∷ [];
}

pack_one_write : pack_all (one_write ∷ []) ≡ some (packet 1 8)
unfolding pack_all pack_rec
pack_one_write = refl

iter_records-pack_all_example :
    iter_records (packet 1 8 ++ 67 ∷ []) ≡ (map item_of (one_write ∷ []), done 64)
iter_records-pack_all_example =
    iter_records-pack_all (one_write ∷ []) (packet 1 8) (67 ∷ []) pack_one_write ((λ h. refl), tt)
      (omega arith)

abbrev turn : Turn
turn = record { read = packet 2 9; seeded = none; seed_file = none; boot_id = "b"; extents = [] }

scan_read : (iter_records (packet 2 9)).1 ≡ done 64
unfolding iter_records iter_loop rec_init
scan_read = refl

cycle_out_of_order_example :
    (cycle punching [] turn (with_files (some (packet 1 8)) false idle_daemon)).1.replica.fd 0
    ≡ effects (iter_records (packet 1 8)).0 (effects (iter_records (packet 2 9)).0 blank) 0
cycle_out_of_order_example =
    cycle_out_of_order punching punching-PunchesZeros [] (packet 1 8) 67 (packet_tail 2 9) turn
      (with_files (some (packet 1 8)) false idle_daemon) 64 64 0 refl refl refl refl refl
      scan_packet packet-Fits scan_read

-- The stream of two writes, cut within the second.
abbrev pub turn_of : List ℕ → Turn
turn_of bytes = record turn { read = bytes }

abbrev two_turns : List Turn
two_turns = turn_of cut_read ∷ turn_of next_read ∷ []

scan_stream : (iter_records (stream_of two_turns)).1 ≡ done 128
unfolding iter_records iter_loop rec_init
scan_stream = refl

stream-Fits : All Fits (iter_records (stream_of two_turns)).0
unfolding iter_records iter_loop rec_init
stream-Fits = (omega arith, (omega arith, tt))

pub idle-IsLive : IsLive idle_daemon
idle-IsLive = record { seeded = refl; unlocked = refl; nothing_parked = refl; no_chunk = refl }

main_loop-iter_records_example :
    let r = main_loop punching two_turns (value [], idle_daemon) in
    (r.0 ≡ value (drop 128 (stream_of two_turns)))
    × IsLive r.1
    × (r.1.replica.fd 0 ≡ effects (iter_records (stream_of two_turns)).0 blank 0)
main_loop-iter_records_example =
    main_loop-iter_records punching punching-PunchesZeros two_turns 128 idle_daemon 0 idle-IsLive
      scan_stream stream-Fits

packet-IsWholeRead : IsWholeRead (packet 1 8)
unfolding iter_records iter_loop rec_init
packet-IsWholeRead = (omega arith, refl, (omega arith, tt), (refl, tt))

two_effects :
    (i : ℕ)
    → effects (items_of (packet 1 8 ∷ []) ++ (iter_records (packet 2 9)).0) blank i
      ≡ effects
          (items_of (packet 1 8 ∷ []) ++ (iter_records (packet 2 9)).0)
          idle_daemon.replica.fd
          i
two_effects i = refl

-- The deadline leaves the second packet in the ring.
mark_consistent_point_example :
    let rest = (iter_records (packet 2 9)).0 in
    let disk = effects (items_of (packet 1 8 ∷ []) ++ rest) blank in
    let e = mark_consistent punching (froze (packet 1 8 ∷ [])) idle_daemon in
    (e.attempt ≡ marked)
    × (e.daemon.consistent ≡ some (last_of (items_of (packet 1 8 ∷ [])) none))
    × ((i : ℕ) → effects rest e.daemon.replica.fd i ≡ disk i)
    × (rest ≡ [] → (i : ℕ) → e.daemon.replica.fd i ≡ disk i)
mark_consistent_point_example =
    mark_consistent_point punching punching-PunchesZeros (packet 1 8 ∷ [])
      (iter_records (packet 2 9)).0 idle_daemon
      (effects (items_of (packet 1 8 ∷ []) ++ (iter_records (packet 2 9)).0) blank) two_effects
      idle-IsLive refl refl (packet-IsWholeRead, tt)
