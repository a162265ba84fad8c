-- ===== src/Dmcdp/Stream.antt =====
-- Reading the ring in pieces (rkcdp/dmcdp.py, iter_records): fuel, and cutting the stream anywhere.
use native.Mathlib.Nat.{suc-add, add_comm}
use io_filter_driver_for_lin.Base.{
  ℕ, zero, suc, ◌+◌, ◌-◌, ◌≤◌, ◌≡◌, ◌≢◌, refl, sym, ap, ◌∙◌, none, some, List, [], ◌∷◌, ◌++◌, arith,
  length, drop, length-append, length-drop, take-append, drop-append, drop-drop, All, ◌==◌,
  if◌then◌else◌, le,
}
use io_filter_driver_for_lin.Dmcdp.{
  Rec, Item, rec_magic, rec_size, rec_write, field, unpack_rec, rec_init, payload, Outcome, done,
  bad_magic, spins, yields, iter_loop,
}
use io_filter_driver_for_lin.Dmcdp.Scan.{
  short, foreign, cut, full, step_view, iter_loop-short, iter_loop-foreign, iter_loop-cut,
  iter_loop-full,
}

-- More fuel does not change what a loop that ends gives.
pub iter_loop-fuel :
    (fuel more off : ℕ) (rest : List ℕ)
    → (iter_loop fuel off rest).1 ≢ spins
    → iter_loop (fuel + more) off rest ≡ iter_loop fuel off rest
iter_loop-fuel zero more off rest h = absurd (h (unfold iter_loop in refl))
iter_loop-fuel (suc fuel) more off rest h = rw suc-add (elim (step_view rest) [
  | short k ↦ iter_loop-short (fuel + more) off rest k ∙ sym (iter_loop-short fuel off rest k)
  | foreign k e ↦
      iter_loop-foreign (fuel + more) off rest k e ∙ sym (iter_loop-foreign fuel off rest k e)
  | cut r k e l ↦
      iter_loop-cut (fuel + more) off rest r k e l ∙ sym (iter_loop-cut fuel off rest r k e l)
  | full r k e l ↦
      iter_loop-full (fuel + more) off rest r k e l
      ∙ ap (yields (r, payload r rest)) (
          iter_loop-fuel fuel more (off + r.rec_len) (drop r.rec_len rest) (λ s.
            h (ap (λ (t : List Item × Outcome). t.1) (iter_loop-full fuel off rest r k e l) ∙ s)))
      ∙ sym (iter_loop-full fuel off rest r k e l)
])

field-append : (w k : ℕ) (a b : List ℕ) → k + w ≤ length a → field w k (a ++ b) ≡ field w k a
field-append w k a b h =
    rw (drop-append k a b (omega arith))
      (ap le (take-append w (drop k a) b (omega (arith, length-drop k a))))

-- A header is decoded from its 56 bytes alone.
pub unpack_rec-append : (a b : List ℕ) → rec_size ≤ length a → unpack_rec (a ++ b) ≡ unpack_rec a
unfolding unpack_rec
unpack_rec-append a b h = λ i. record {
  magic = field-append 4 0 a b (omega arith) i;
  version = field-append 2 4 a b (omega arith) i;
  type = field-append 2 6 a b (omega arith) i;
  flags = field-append 4 8 a b (omega arith) i;
  state = field-append 4 12 a b (omega arith) i;
  seq = field-append 8 16 a b (omega arith) i;
  sector = field-append 8 24 a b (omega arith) i;
  len = field-append 4 32 a b (omega arith) i;
  rec_len = field-append 4 36 a b (omega arith) i;
  ts_ns = field-append 8 40 a b (omega arith) i;
  reserved = field-append 8 48 a b (omega arith) i;
}

pub rec_init-append : (a b : List ℕ) → rec_size ≤ length a → rec_init (a ++ b) ≡ rec_init a
unfolding rec_init
rec_init-append a b h =
    ap (λ (r : Rec). if r.magic == rec_magic then some r else none) (unpack_rec-append a b h)

-- The header and the payload of a record lie within its claimed length.
abbrev pub Fits : Item → Type 0
Fits x = rec_size + (if x.0.type == rec_write then x.0.len else 0) ≤ x.0.rec_len

pub payload-append :
    (r : Rec) (p a b : List ℕ)
    → rec_size ≤ length a
    → r.rec_len ≤ length a
    → Fits (r, p)
    → payload r (a ++ b) ≡ payload r a
unfolding payload
payload-append r p a b h l f = rw (drop-append rec_size a b h) (
    take-append (if r.type == rec_write then r.len else 0) (drop rec_size a) b
      (omega (arith, length-drop rec_size a)))

abbrev end_of : Outcome → ℕ
end_of (done e) = e
end_of (bad_magic e) = e
end_of spins = 0

drop_self : (n : ℕ) (xs : List ℕ) → drop (n - n) xs ≡ xs
drop_self n xs = let none_left : n - n ≡ 0 = omega arith in rw none_left

-- The loop has stopped at `off` itself: all of `a` is the tail.
append_stopped :
    (fuel more off e : ℕ) (a b : List ℕ)
    → iter_loop fuel off a ≡ ([], done off)
    → (iter_loop fuel off a).1 ≡ done e
    → (iter_loop more e (drop (e - off) a ++ b)).1 ≢ spins
    → iter_loop (fuel + more) off (a ++ b) ≡ (
      (iter_loop fuel off a).0 ++ (iter_loop more e (drop (e - off) a ++ b)).0,
      (iter_loop more e (drop (e - off) a ++ b)).1,
    )
append_stopped fuel more off e a b q d h =
    let same : e ≡ off = ap end_of (sym d ∙ ap (λ (t : List Item × Outcome). t.1) q) in
    let ends : (iter_loop more off (a ++ b)).1 ≢ spins = rw (same, drop_self off a) at h in
    rw (same, drop_self off a, q)
      (rw (add_comm fuel more) (iter_loop-fuel more fuel off (a ++ b) ends))

-- A loop that ends stops at a place in the buffer.
pub iter_loop_end :
    (fuel off e : ℕ) (rest : List ℕ)
    → (iter_loop fuel off rest).1 ≡ done e
    → (off ≤ e) × (e ≤ off + length rest)
iter_loop_end zero off e rest d = absurd (unfold iter_loop in cc)
iter_loop_end (suc fuel) off e rest d = elim (step_view rest) [
  | short k ↦
      let same : off ≡ e =
        ap end_of
          (sym (ap (λ (t : List Item × Outcome). t.1) (iter_loop-short fuel off rest k)) ∙ d) in
      omega arith
  | foreign k m ↦ cc (iter_loop-foreign fuel off rest k m)
  | cut r k m l ↦
      let same : off ≡ e =
        ap end_of
          (sym (ap (λ (t : List Item × Outcome). t.1) (iter_loop-cut fuel off rest r k m l)) ∙ d) in
      omega arith
  | full r k m l ↦
      let ends : (iter_loop fuel (off + r.rec_len) (drop r.rec_len rest)).1 ≡ done e =
        rw (iter_loop-full fuel off rest r k m l) at d in
      omega (
        arith,
        iter_loop_end fuel (off + r.rec_len) e (drop r.rec_len rest) ends,
        length-drop r.rec_len rest,
      )
]

-- The first record is whole in `a`, so it is read alike from `a` and from `a ++ b`.
append_full :
    (fuel more off : ℕ) (a b : List ℕ) (r : Rec)
    → rec_size ≤ length a
    → rec_init a ≡ some r
    → r.rec_len ≤ length a
    → Fits (r, payload r a)
    → (t : List Item × Outcome)
    → iter_loop (fuel + more) (off + r.rec_len) (drop r.rec_len a ++ b) ≡ t
    → iter_loop (suc fuel + more) off (a ++ b) ≡ yields (r, payload r a) t
append_full fuel more off a b r k m l f t qt = rw suc-add (
    iter_loop-full (fuel + more) off (a ++ b) r (omega (arith, length-append a b))
      (rec_init-append a b k ∙ m) (omega (arith, length-append a b))
    ∙ rw (payload-append r (payload r a) a b k l f, drop-append r.rec_len a b l, qt))

pub regroup : (off n e : ℕ) → off + n ≤ e → n + (e - (off + n)) ≡ e - off
regroup off n e h = omega arith

-- What one loop over `a ++ b` gives is what a loop over `a` gives, followed by what a second loop
-- gives over the tail that the first left, with `b` behind it.
pub iter_loop-append :
    (fuel more off e : ℕ) (a b : List ℕ)
    → (iter_loop fuel off a).1 ≡ done e
    → All Fits (iter_loop fuel off a).0
    → (iter_loop more e (drop (e - off) a ++ b)).1 ≢ spins
    → iter_loop (fuel + more) off (a ++ b) ≡ (
      (iter_loop fuel off a).0 ++ (iter_loop more e (drop (e - off) a ++ b)).0,
      (iter_loop more e (drop (e - off) a ++ b)).1,
    )
iter_loop-append zero more off e a b d f h = absurd (unfold iter_loop in cc)
iter_loop-append (suc fuel) more off e a b d f h = elim (step_view a) [
  | short k ↦ append_stopped (suc fuel) more off e a b (iter_loop-short fuel off a k) d h
  | foreign k m ↦ cc (iter_loop-foreign fuel off a k m)
  | cut r k m l ↦ append_stopped (suc fuel) more off e a b (iter_loop-cut fuel off a r k m l) d h
  | full r k m l ↦
      let q = iter_loop-full fuel off a r k m l in
      let ends : (iter_loop fuel (off + r.rec_len) (drop r.rec_len a)).1 ≡ done e = rw q at d in
      let fits : All Fits
          ((r, payload r a) ∷ (iter_loop fuel (off + r.rec_len) (drop r.rec_len a)).0) =
        rw q at f in
      let past : off + r.rec_len ≤ e =
        (iter_loop_end fuel (off + r.rec_len) e (drop r.rec_len a) ends).0 in
      let rest : drop (e - (off + r.rec_len)) (drop r.rec_len a) ≡ drop (e - off) a =
        drop-drop (e - (off + r.rec_len)) r.rec_len a
        ∙ ap (λ n. drop n a) (regroup off r.rec_len e past) in
      let later : (iter_loop more e (drop (e - (off + r.rec_len)) (drop r.rec_len a) ++ b)).1
          ≢ spins =
        rw rest h in
      let ih =
        iter_loop-append fuel more (off + r.rec_len) e (drop r.rec_len a) b ends fits.1 later in
      append_full fuel more off a b r k m l fits.0 _ (rw rest at ih) ∙ rw q
]
