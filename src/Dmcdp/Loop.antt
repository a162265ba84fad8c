-- ===== src/Dmcdp/Loop.antt =====
-- The loop of `iter_records` (rkcdp/dmcdp.py): where it begins, how much fuel it takes, and what a cut
-- of its buffer changes.
use native.Mathlib.Nat.{add_assoc}
use io_filter_driver_for_lin.Base.{
  ℕ, zero, suc, ◌+◌, ◌-◌, ◌≤◌, ◌<◌, ◌≡◌, ◌≢◌, refl, sym, ap, ◌∙◌, some, List, [], ◌∷◌, ◌++◌, arith,
  length, take, drop, length-append, length-drop, drop-append, drop-drop, All, length-take,
  take-append-drop, drop-take,
}
use io_filter_driver_for_lin.Dmcdp.{
  Item, rec_size, rec_init, payload, Outcome, done, bad_magic, spins, yields, iter_loop,
}
use io_filter_driver_for_lin.Dmcdp.Scan.{
  short, foreign, cut, full, step_view, iter_loop-short, iter_loop-foreign, iter_loop-cut,
  iter_loop-full,
}
use io_filter_driver_for_lin.Dmcdp.Stream.{
  Fits, rec_init-append, iter_loop_end, payload-append, regroup,
}

-- The outcome of a loop that began `k` bytes further on.
abbrev pub add_end : ℕ → Outcome → Outcome
add_end k (done e) = done (k + e)
add_end k (bad_magic e) = bad_magic (k + e)
add_end k spins = spins

abbrev pub shifted : ℕ → List Item × Outcome → List Item × Outcome
shifted k t = (t.0, add_end k t.1)

pub iter_loop_shift :
    (fuel k off : ℕ) (rest : List ℕ)
    → iter_loop fuel (k + off) rest ≡ shifted k (iter_loop fuel off rest)
iter_loop_shift zero k off rest = unfold iter_loop in refl
iter_loop_shift (suc fuel) k off rest = elim (step_view rest) [
  | short h ↦ rw (iter_loop-short fuel (k + off) rest h, iter_loop-short fuel off rest h)
  | foreign h m ↦
      rw (iter_loop-foreign fuel (k + off) rest h m, iter_loop-foreign fuel off rest h m)
  | cut r h m l ↦
      rw (iter_loop-cut fuel (k + off) rest r h m l, iter_loop-cut fuel off rest r h m l)
  | full r h m l ↦
      rw (iter_loop-full fuel (k + off) rest r h m l, iter_loop-full fuel off rest r h m l)
        (rw (add_assoc k off r.rec_len) (
          ap (yields (r, payload r rest))
            (iter_loop_shift fuel k (off + r.rec_len) (drop r.rec_len rest))))
]

-- Where every record fits its claimed length, fuel above the length of the buffer is enough.
pub iter_loop_enough :
    (fuel other off : ℕ) (rest : List ℕ)
    → (iter_loop fuel off rest).1 ≢ spins
    → All Fits (iter_loop fuel off rest).0
    → length rest < other
    → iter_loop other off rest ≡ iter_loop fuel off rest
iter_loop_enough zero other off rest n f l = absurd (n (unfold iter_loop in refl))
iter_loop_enough (suc fuel) zero off rest n f l = elim l [ ]
iter_loop_enough (suc fuel) (suc other) off rest n f l = elim (step_view rest) [
  | short h ↦ rw (iter_loop-short other off rest h, iter_loop-short fuel off rest h)
  | foreign h m ↦ rw (iter_loop-foreign other off rest h m, iter_loop-foreign fuel off rest h m)
  | cut r h m k ↦ rw (iter_loop-cut other off rest r h m k, iter_loop-cut fuel off rest r h m k)
  | full r h m k ↦
      let q = iter_loop-full fuel off rest r h m k in
      let fits : All Fits
          (yields (r, payload r rest) (iter_loop fuel (off + r.rec_len) (drop r.rec_len rest))).0 =
        rw q at f in
      rw (iter_loop-full other off rest r h m k, q)
        (ap (yields (r, payload r rest)) (
          iter_loop_enough fuel other (off + r.rec_len) (drop r.rec_len rest) (rw q at n) fits.1
            (omega (arith, fits.0, length-drop r.rec_len rest))))
]

pub end_of_done : (x y : ℕ) → done x ≡ done y → x ≡ y
end_of_done x y h = cc

-- A scan of `a ++ b` that ends without an error is one of `a`, and then one of the tail with `b`.
abbrev Split : ℕ → ℕ → ℕ → List ℕ → List ℕ → List Item → Type 0
Split fuel off e a b xs =
    (e' g : ℕ) × ((iter_loop fuel off a).1 ≡ done e')
    × All Fits (iter_loop fuel off a).0
    × ((iter_loop g e' (drop (e' - off) a ++ b)).1 ≡ done e)
    × All Fits (iter_loop g e' (drop (e' - off) a ++ b)).0
    × (xs ≡ (iter_loop fuel off a).0 ++ (iter_loop g e' (drop (e' - off) a ++ b)).0)

Split-here :
    (fuel off e : ℕ) (a b : List ℕ)
    → iter_loop (suc fuel) off a ≡ ([], done off)
    → (iter_loop (suc fuel) off (a ++ b)).1 ≡ done e
    → All Fits (iter_loop (suc fuel) off (a ++ b)).0
    → Split (suc fuel) off e a b (iter_loop (suc fuel) off (a ++ b)).0
Split-here fuel off e a b q d f =
    let none_left : off - off ≡ 0 = omega arith in
    rw q (off, suc fuel, refl, tt, rw none_left d, rw none_left f, rw none_left)

pub iter_loop-Split :
    (fuel off e : ℕ) (a b : List ℕ)
    → (iter_loop fuel off (a ++ b)).1 ≡ done e
    → All Fits (iter_loop fuel off (a ++ b)).0
    → Split fuel off e a b (iter_loop fuel off (a ++ b)).0
iter_loop-Split zero off e a b d f = absurd (unfold iter_loop in cc)
iter_loop-Split (suc fuel) off e a b d f = elim (step_view a) [
  | short h ↦ Split-here fuel off e a b (iter_loop-short fuel off a h) d f
  | foreign h m ↦ cc (
      iter_loop-foreign fuel off (a ++ b) (omega (arith, length-append a b))
        (rec_init-append a b h ∙ m))
  | cut r h m k ↦ Split-here fuel off e a b (iter_loop-cut fuel off a r h m k) d f
  | full r h m k ↦
      let off' = off + r.rec_len in
      let a' = drop r.rec_len a in
      let q : iter_loop (suc fuel) off (a ++ b)
          ≡ yields (r, payload r (a ++ b)) (iter_loop fuel off' (a' ++ b)) =
        rw (← drop-append r.rec_len a b k) (
          iter_loop-full fuel off (a ++ b) r (omega (arith, length-append a b))
            (rec_init-append a b h ∙ m) (omega (arith, length-append a b))) in
      let fits : All Fits (yields (r, payload r (a ++ b)) (iter_loop fuel off' (a' ++ b))).0 =
        rw q at f in
      let (e', g, ends, fits_a, rest, fits_b, join) =
        iter_loop-Split fuel off' e a' b (rw q at d) fits.1 in
      let (past, before) = iter_loop_end fuel off' e' a' ends in
      let same : drop (e' - off') a' ≡ drop (e' - off) a =
        drop-drop (e' - off') r.rec_len a ∙ ap (λ n. drop n a) (regroup off r.rec_len e' past) in
      let pay : payload r (a ++ b) ≡ payload r a = payload-append r (payload r a) a b h k fits.0 in
      rw (iter_loop-full fuel off a r h m k, q, pay)
        (
          e',
          g,
          ends,
          (fits.0, fits_a),
          rw same at rest,
          rw same at fits_b,
          ap (λ t. (r, payload r a) ∷ t) (rw same at join),
        )
]

-- What a scan leaves over yields nothing by itself.
pub iter_loop_rest :
    (fuel off e g : ℕ) (a : List ℕ)
    → (iter_loop fuel off a).1 ≡ done e
    → iter_loop (suc g) 0 (drop (e - off) a) ≡ ([], done 0)
iter_loop_rest zero off e g a d = absurd (unfold iter_loop in cc)
iter_loop_rest (suc fuel) off e g a d = elim (step_view a) [
  | short h ↦
      let q = iter_loop-short fuel off a h in
      let none_left : e - off ≡ 0 = let s = end_of_done off e (rw q at d) in omega arith in
      rw none_left (iter_loop-short g 0 a h)
  | foreign h m ↦ cc (iter_loop-foreign fuel off a h m)
  | cut r h m k ↦
      let q = iter_loop-cut fuel off a r h m k in
      let none_left : e - off ≡ 0 = let s = end_of_done off e (rw q at d) in omega arith in
      rw none_left (iter_loop-cut g 0 a r h m k)
  | full r h m k ↦
      let off' = off + r.rec_len in
      let ends : (iter_loop fuel off' (drop r.rec_len a)).1 ≡ done e =
        rw (iter_loop-full fuel off a r h m k) at d in
      let (past, before) = iter_loop_end fuel off' e (drop r.rec_len a) ends in
      let same : drop (e - off') (drop r.rec_len a) ≡ drop (e - off) a =
        drop-drop (e - off') r.rec_len a ∙ ap (λ n. drop n a) (regroup off r.rec_len e past) in
      rw same at (iter_loop_rest fuel off' e g (drop r.rec_len a) ends)
]

sub_sub : (e off n : ℕ) → e - off - n ≡ e - (off + n)
sub_sub e off n = omega arith

consumed_nothing :
    (fuel off e : ℕ) (a : List ℕ)
    → iter_loop (suc fuel) off a ≡ ([], done off)
    → (iter_loop (suc fuel) off a).1 ≡ done e
    → iter_loop (suc fuel) off (take (e - off) a) ≡ iter_loop (suc fuel) off a
consumed_nothing fuel off e a q d =
    let same : off ≡ e = end_of_done off e (rw q at d) in
    let nothing : e - off ≡ 0 = omega arith in
    rw (nothing, q) (iter_loop-short fuel off [] (omega arith))

-- The consumed part of a buffer alone is scanned like the whole buffer.
pub iter_loop_consumed :
    (fuel off e : ℕ) (a : List ℕ)
    → (iter_loop fuel off a).1 ≡ done e
    → All Fits (iter_loop fuel off a).0
    → iter_loop fuel off (take (e - off) a) ≡ iter_loop fuel off a
iter_loop_consumed zero off e a d f = absurd (unfold iter_loop in cc)
iter_loop_consumed (suc fuel) off e a d f = elim (step_view a) [
  | short h ↦ consumed_nothing fuel off e a (iter_loop-short fuel off a h) d
  | foreign h m ↦ cc (iter_loop-foreign fuel off a h m)
  | cut r h m k ↦ consumed_nothing fuel off e a (iter_loop-cut fuel off a r h m k) d
  | full r h m k ↦
      let q = iter_loop-full fuel off a r h m k in
      let ends : (iter_loop fuel (off + r.rec_len) (drop r.rec_len a)).1 ≡ done e = rw q at d in
      let fits : All Fits
          (yields (r, payload r a) (iter_loop fuel (off + r.rec_len) (drop r.rec_len a))).0 =
        rw q at f in
      let (past, before) = iter_loop_end fuel (off + r.rec_len) e (drop r.rec_len a) ends in
      let front = take (e - off) a in
      let back = drop (e - off) a in
      let whole : front ++ back ≡ a = take-append-drop (e - off) a in
      let size : r.rec_len ≤ length front = omega (arith, length-take (e - off) a) in
      let header : rec_size ≤ length front = omega (arith, fits.0) in
      let same_rec : rec_init front ≡ some r =
        sym (rec_init-append front back header) ∙ ap rec_init whole ∙ m in
      let fits_front : Fits (r, payload r front) = fits.0 in
      let same_payload : payload r front ≡ payload r a =
        sym (payload-append r (payload r front) front back header size fits_front)
        ∙ ap (payload r) whole in
      let later : drop r.rec_len front ≡ take (e - (off + r.rec_len)) (drop r.rec_len a) =
        drop-take r.rec_len (e - off) a
        ∙ ap (λ n. take n (drop r.rec_len a)) (sub_sub e off r.rec_len) in
      iter_loop-full fuel off front r header same_rec size
      ∙ rw (same_payload, later)
          (ap (yields (r, payload r a))
            (iter_loop_consumed fuel (off + r.rec_len) e (drop r.rec_len a) ends fits.1))
      ∙ sym q
]
