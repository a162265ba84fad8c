-- ===== src/Dmcdp/Scan.antt =====
-- One round of `iter_records` (rkcdp/dmcdp.py), as equations.
use io_filter_driver_for_lin.Base.{
  ℕ, suc, ◌+◌, ◌≤◌, ◌<◌, ◌≡◌, none, some, List, [], arith, leb, ltb, length, drop, inl, inr,
  Bool-cases, Option-cases,
}
use io_filter_driver_for_lin.Dmcdp.{
  Rec, rec_size, rec_init, payload, done, bad_magic, yields, iter_loop,
}

-- What a round meets at the front of the buffer.
pub data StepView (rest : List ℕ) : Type 0 where
  short : length rest < rec_size → StepView rest
  foreign : rec_size ≤ length rest → rec_init rest ≡ none → StepView rest
  cut :
      (r : Rec)
      → rec_size ≤ length rest
      → rec_init rest ≡ some r
      → length rest < r.rec_len
      → StepView rest
  full :
      (r : Rec)
      → rec_size ≤ length rest
      → rec_init rest ≡ some r
      → r.rec_len ≤ length rest
      → StepView rest

pub step_view : (rest : List ℕ) → StepView rest
step_view rest = elim (Bool-cases (leb rec_size (length rest))) [
  | inr few ↦ short (ground arith)
  | inl enough ↦ elim (Option-cases (rec_init rest)) [
    | inl bad ↦ foreign (ground arith) bad
    | inr (r, good) ↦ elim (Bool-cases (ltb (length rest) r.rec_len)) [
      | inl more ↦ cut r (ground arith) good (ground arith)
      | inr all ↦ full r (ground arith) good (ground arith)
    ]
  ]
]

module _ (fuel off : ℕ) (rest : List ℕ) where
  pub iter_loop-short : length rest < rec_size → iter_loop (suc fuel) off rest ≡ ([], done off)
  unfolding iter_loop
  iter_loop-short h = ground arith

  pub iter_loop-foreign :
      rec_size ≤ length rest
      → rec_init rest ≡ none
      → iter_loop (suc fuel) off rest ≡ ([], bad_magic off)
  unfolding iter_loop
  iter_loop-foreign h e = ground arith

  pub iter_loop-cut :
      (r : Rec)
      → rec_size ≤ length rest
      → rec_init rest ≡ some r
      → length rest < r.rec_len
      → iter_loop (suc fuel) off rest ≡ ([], done off)
  unfolding iter_loop
  iter_loop-cut r h e k = ground arith

  pub iter_loop-full :
      (r : Rec)
      → rec_size ≤ length rest
      → rec_init rest ≡ some r
      → r.rec_len ≤ length rest
      → iter_loop (suc fuel) off rest
        ≡ yields (r, payload r rest) (iter_loop fuel (off + r.rec_len) (drop r.rec_len rest))
  unfolding iter_loop
  iter_loop-full r h e k = ground arith
