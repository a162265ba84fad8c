-- ===== src/Dmcdp/Records.antt =====
-- `iter_records` (rkcdp/dmcdp.py) over streams that are cut, joined and replayed.
use native.Mathlib.Nat.{add-zero}
use io_filter_driver_for_lin.Base.{
  ℕ, suc, ◌+◌, ◌-◌, ◌≤◌, ◌≡◌, ◌≢◌, sym, ap, ◌∙◌, List, [], ◌++◌, arith, length, take, drop,
  length-append, All, All-append,
}
use io_filter_driver_for_lin.Dmcdp.{Outcome, done, bad_magic, spins, iter_loop, iter_records}
use io_filter_driver_for_lin.Dmcdp.Stream.{Fits, iter_loop-append, iter_loop_end}
use io_filter_driver_for_lin.Dmcdp.Loop.{
  add_end, shifted, iter_loop_shift, iter_loop_enough, end_of_done, iter_loop-Split, iter_loop_rest,
  iter_loop_consumed,
}

sub-zero : (e : ℕ) → e - 0 ≡ e
sub-zero e = omega arith

add_end-spins : (k : ℕ) (o : Outcome) → add_end k o ≡ spins → o ≡ spins
add_end-spins k o h = ground arith

loop_from : (fuel e : ℕ) (rest : List ℕ) → iter_loop fuel e rest ≡ shifted e (iter_loop fuel 0 rest)
loop_from fuel e rest = rw add-zero at (iter_loop_shift fuel e 0 rest)

-- Scanning a stream in two reads is scanning it whole: where a first read ends without an error,
-- the scan of the tail that it left with the next bytes behind it yields exactly the rest of the
-- records.
pub iter_records-append :
    (a b : List ℕ) (e : ℕ)
    → (iter_records a).1 ≡ done e
    → All Fits (iter_records a).0
    → let next = iter_records (drop e a ++ b) in
      next.1 ≢ spins
      → All Fits next.0
      → iter_records (a ++ b) ≡ ((iter_records a).0 ++ next.0, add_end e next.1)
unfolding iter_records
iter_records-append a b e d f n g =
    let tail = drop e a ++ b in
    let m = suc (length tail) in
    let first = iter_loop (suc (length a)) 0 a in
    let next = iter_loop m 0 tail in
    let moved : iter_loop m e tail ≡ shifted e next = loop_from m e tail in
    let ends : (iter_loop m e (drop (e - 0) a ++ b)).1 ≢ spins =
      rw (sub-zero e, moved) (λ s. n (add_end-spins e next.1 s)) in
    let joined : iter_loop (suc (length a) + m) 0 (a ++ b) ≡ (first.0 ++ next.0, add_end e next.1) =
      iter_loop-append (suc (length a)) m 0 e a b d f ends ∙ rw (sub-zero e, moved) in
    iter_loop_enough (suc (length a) + m) (suc (length (a ++ b))) 0 (a ++ b)
      (rw joined (λ s. n (add_end-spins e next.1 s)))
      (rw joined (All-append Fits first.0 next.0 f g)) (omega arith)
    ∙ joined

-- Scanning the consumed part of a buffer yields the same records.
pub iter_records-take :
    (a : List ℕ) (e : ℕ)
    → (iter_records a).1 ≡ done e
    → All Fits (iter_records a).0
    → iter_records (take e a) ≡ iter_records a
unfolding iter_records
iter_records-take a e d f =
    let whole = iter_loop (suc (length a)) 0 a in
    let same : iter_loop (suc (length a)) 0 (take e a) ≡ whole =
      ap (λ n. iter_loop (suc (length a)) 0 (take n a)) (sym (sub-zero e))
      ∙ iter_loop_consumed (suc (length a)) 0 e a d f in
    iter_loop_enough (suc (length a)) (suc (length (take e a))) 0 (take e a)
      (rw same (rw d (λ s. cc))) (rw same f) (omega arith)
    ∙ same

add_end-done : (k e : ℕ) (o : Outcome) → add_end k o ≡ done e → o ≡ done (e - k)
add_end-done k e (done x) h = let s = end_of_done (k + x) e h in ap done (omega arith)
add_end-done k e (bad_magic x) h = cc
add_end-done k e spins h = cc

-- A stream of whole records cut anywhere: its first part is scanned without an error, what is left
-- over is scanned with the second part, and together they yield the records of the stream in order.
pub iter_records-split :
    (a b : List ℕ) (e : ℕ)
    → (iter_records (a ++ b)).1 ≡ done e
    → All Fits (iter_records (a ++ b)).0
    → (e' : ℕ) × ((iter_records a).1 ≡ done e')
      × All Fits (iter_records a).0
      × ((iter_records (drop e' a ++ b)).1 ≡ done (e - e'))
      × All Fits (iter_records (drop e' a ++ b)).0
      × ((iter_records (a ++ b)).0 ≡ (iter_records a).0 ++ (iter_records (drop e' a ++ b)).0)
unfolding iter_records
iter_records-split a b e d f =
    let fuel = suc (length (a ++ b)) in
    let (e', g, ends, fits_a, rest, fits_b, join) = iter_loop-Split fuel 0 e a b d f in
    let tail = drop e' a ++ b in
    let whole : drop (e' - 0) a ≡ drop e' a = ap (λ n. drop n a) (sub-zero e') in
    let same : iter_loop (suc (length a)) 0 a ≡ iter_loop fuel 0 a =
      iter_loop_enough fuel (suc (length a)) 0 a (rw ends (λ s. cc)) fits_a
        (omega (arith, length-append a b)) in
    let moved : iter_loop g e' tail ≡ shifted e' (iter_loop g 0 tail) = loop_from g e' tail in
    let ends_b : (iter_loop g 0 tail).1 ≡ done (e - e') =
      add_end-done e' e (iter_loop g 0 tail).1 (rw (whole, moved) at rest) in
    let same_b : iter_loop (suc (length tail)) 0 tail ≡ iter_loop g 0 tail =
      iter_loop_enough g (suc (length tail)) 0 tail (rw ends_b (λ s. cc))
        (rw (whole, moved) at fits_b) (omega arith) in
    rw same (
      e',
      ends,
      fits_a,
      rw same_b ends_b,
      rw same_b (rw (whole, moved) at fits_b),
      rw same_b (rw (whole, moved) at join),
    )

-- What a scan leaves over yields nothing by itself.
pub iter_records-rest :
    (a : List ℕ) (e : ℕ) → (iter_records a).1 ≡ done e → iter_records (drop e a) ≡ ([], done 0)
unfolding iter_records
iter_records-rest a e d =
    rw sub-zero at (iter_loop_rest (suc (length a)) 0 e (length (drop e a)) a d)

pub iter_records_end : (a : List ℕ) (e : ℕ) → (iter_records a).1 ≡ done e → e ≤ length a
unfolding iter_records
iter_records_end a e d = omega (arith, iter_loop_end (suc (length a)) 0 e a d)
