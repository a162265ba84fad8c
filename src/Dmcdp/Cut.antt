-- ===== src/Dmcdp/Cut.antt =====
-- A stream of records that is cut anywhere (iter_records of rkcdp/dmcdp.py).
use io_filter_driver_for_lin.Base.{
  ℕ, ◌+◌, ◌-◌, ◌≡◌, sym, ap, ◌∙◌, List, ◌++◌, All, take, drop, take-append, drop-append, drop-drop,
  take-add,
}
use io_filter_driver_for_lin.Dmcdp.{Item, Outcome, done, iter_records}
use io_filter_driver_for_lin.Dmcdp.Loop.{add_end, end_of_done}
use io_filter_driver_for_lin.Dmcdp.Stream.{Fits}
use io_filter_driver_for_lin.Dmcdp.Records.{
  iter_records-append, iter_records-split, iter_records_end,
}

-- A buffer cut in two, with what is left over in the end.
pub record Cut (a b : List ℕ) (e : ℕ) : Type 0 where
  pub ends : ℕ
  pub first : (iter_records a).1 ≡ done ends
  pub first_fits : All Fits (iter_records a).0
  pub second : (iter_records (drop ends a ++ b)).1 ≡ done (e - ends)
  pub second_fits : All Fits (iter_records (drop ends a ++ b)).0
  pub joined : (iter_records (a ++ b)).0 ≡ (iter_records a).0 ++ (iter_records (drop ends a ++ b)).0
  pub left_over : drop (e - ends) (drop ends a ++ b) ≡ drop e (a ++ b)
  pub whole_records : take e (a ++ b) ≡ take ends a ++ take (e - ends) (drop ends a ++ b)

pub iter_records-Cut :
    (a b : List ℕ) (e : ℕ)
    → (iter_records (a ++ b)).1 ≡ done e
    → All Fits (iter_records (a ++ b)).0
    → Cut a b e
iter_records-Cut a b e h f =
    let (e', first, first_fits, second, second_fits, joined) = iter_records-split a b e h f in
    let whole = iter_records-append a b e' first first_fits (λ s. cc second) second_fits in
    let total : e ≡ e' + (e - e') =
      end_of_done e (e' + (e - e'))
        (sym h ∙ ap (λ (t : List Item × Outcome). t.1) whole ∙ ap (add_end e') second) in
    record {
      ends = e';
      first = first;
      first_fits = first_fits;
      second = second;
      second_fits = second_fits;
      joined = joined;
      left_over =
          ap (drop (e - e')) (sym (drop-append e' a b (iter_records_end a e' first)))
          ∙ drop-drop (e - e') e' (a ++ b)
          ∙ ap (λ n. drop n (a ++ b)) (sym total);
      whole_records =
          ap (λ n. take n (a ++ b)) total
          ∙ take-add e' (e - e') (a ++ b)
          ∙ ap (λ xs. xs ++ take (e - e') (drop e' (a ++ b)))
              (take-append e' a b (iter_records_end a e' first))
          ∙ ap (λ xs. take e' a ++ take (e - e') xs)
              (drop-append e' a b (iter_records_end a e' first));
    }
