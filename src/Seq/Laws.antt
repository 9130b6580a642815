-- ===== src/Seq/Laws.antt =====
-- What the contract of a sequence says of lengths.
use gpr.Base.{
  [], ◌++◌, false, ℕ, suc, ◌+◌, ◌-◌, ◌≤◌, ◌≡◌, List, ◌∷◌, Bool, arith, length, take, drop,
  length-append, length-take, length-drop, length-set,
}
use gpr.Machine.{Ptr}
use gpr.Seq.{
  NoneOf, Traits, State, Op, push_front, push_back, insert, replace, remove, pop_front, pop_back,
  add, take_out, step, insert_at, remove_at,
}

length-insert_at : (xs : List Ptr) (i : ℕ) (x : Ptr) → length (insert_at xs i x) ≡ length xs + 1
length-insert_at xs i x =
    omega (arith, length-append (take i xs) (x ∷ drop i xs), length-take i xs, length-drop i xs)

length-remove_at : (xs : List Ptr) (i : ℕ) → length (remove_at xs i) ≤ length xs
length-remove_at xs i =
    omega
      (arith, length-append (take i xs) (drop (suc i) xs), length-take i xs, length-drop (suc i) xs)

module _ (t : Traits) (debug granted frees : Bool) (s : State) where
  add_grows :
      (x : Ptr) (i : ℕ) → length (add t debug granted frees s x i).1.items ≤ length s.items + 1
  unfolding add
  add_grows x i = ground (arith, length-insert_at s.items i x)

  take_out_shrinks : (i : ℕ) → length (take_out t debug granted frees s i).1.items ≤ length s.items
  unfolding take_out
  take_out_shrinks i = ground (arith, length-remove_at s.items i)

  -- An operation adds one element at most.
  pub step_grows : (op : Op) → length (step t debug granted frees s op).1.items ≤ length s.items + 1
  unfolding step
  step_grows (push_front x) = add_grows x 0
  step_grows (push_back x) = add_grows x (length s.items)
  step_grows (insert x i) = add_grows x i
  step_grows (replace x i) = ground (arith, length-set s.items i x)
  step_grows (remove i) = ground (arith, take_out_shrinks i)
  step_grows pop_front = omega (arith, take_out_shrinks 0)
  step_grows pop_back = omega (arith, take_out_shrinks (length s.items - 1))

pub NoneOf-append :
    (p : Ptr → Bool) (ys : List Ptr) (x : Ptr)
    → NoneOf p ys
    → p x ≡ false
    → NoneOf p (ys ++ (x ∷ []))
NoneOf-append p [] x n e = (e, tt)
NoneOf-append p (y ∷ ys) x n e = (n.0, NoneOf-append p ys x n.1 e)
