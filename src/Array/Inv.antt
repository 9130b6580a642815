-- ===== src/Array/Inv.antt =====
-- The representation invariant of `struct gpr_array`.
use gpr.Base.{
  ℕ, ◌≤◌, ◌+◌, ◌<◌, ◌≡◌, ◌≢◌, List, [], ◌∷◌, ◌++◌, none, some, true, length, ◌%◌, arith, append-nil,
  sym, length-append,
}
use gpr.Machine.{Ptr, null, World}
use gpr.Err.{codes, gpr_err_msg_len}
use gpr.Seq.{Traits}
use gpr.Array.{GprArray, Arr, size_max}
use gpr.Array.Block.{Stores, max_cells}

abbrev pub NoNull : List Ptr → Type 0
NoNull [] = Unit
NoNull (x ∷ xs) = (x ≢ null) × NoNull xs

pub record IsArray (a : GprArray) (xs : List Ptr) : Type 0 where
  pub size : a.size ≡ length xs
  pub block : Stores a.elem xs
  pub fits : length xs < max_cells
  pub elements : NoNull xs

-- What the heap's array stands for.
abbrev pub Holds : Arr → List Ptr → Type 0
Holds none xs = ⊥
Holds (some a) xs = IsArray a xs

-- Another element would fit in memory.
abbrev pub HasRoom : List Ptr → Type 0
HasRoom xs = length xs + 1 < max_cells

abbrev pub world : List ℕ → List Ptr → GprArray → World Arr
world msg calls a = record { msg = msg; calls = calls; heap = some a }

abbrev pub array_traits : Traits
array_traits = record {
  empty_text = "Empty array";
  item_text = "Invalid element";
  index_text = "Invalid index";
  memory_text = "Array allocation failed";
  removal_allocates = true;
  replace_clears = true;
}

pub NoNull-insert :
    (ys zs : List Ptr) (x : Ptr) → NoNull (ys ++ zs) → x ≢ null → NoNull (ys ++ (x ∷ zs))
NoNull-insert [] zs x h ne = (ne, h)
NoNull-insert (y ∷ ys) zs x h ne = (h.0, NoNull-insert ys zs x h.1 ne)

pub NoNull-remove :
    (ys zs : List Ptr) (x : Ptr) → NoNull (ys ++ (x ∷ zs)) → (x ≢ null) × NoNull (ys ++ zs)
NoNull-remove [] zs x h = h
NoNull-remove (y ∷ ys) zs x h = let (ne, rest) = NoNull-remove ys zs x h.1 in (ne, (h.0, rest))

pub append-ne-nil : (ys zs : List Ptr) (x : Ptr) → ys ++ (x ∷ zs) ≢ []
append-ne-nil [] zs x = cc
append-ne-nil (y ∷ ys) zs x = cc

-- A block that holds one more element than `xs` did.
pub inserted-IsArray :
    (ys zs : List Ptr) (x : Ptr) (n : ℕ)
    → n ≡ length (ys ++ zs)
    → HasRoom (ys ++ zs)
    → NoNull (ys ++ zs)
    → x ≢ null
    → IsArray (record { size = (n + 1) % size_max; elem = some (ys ++ (x ∷ zs)) }) (ys ++ (x ∷ zs))
inserted-IsArray ys zs x n e room elements ne = record {
  size = omega (arith, length-append ys zs, length-append ys (x ∷ zs));
  block = ([], sym (append-nil _), append-ne-nil ys zs x);
  fits = omega (arith, length-append ys zs, length-append ys (x ∷ zs));
  elements = NoNull-insert ys zs x elements ne;
}

pub memory_short : length (codes "Array allocation failed") ≤ gpr_err_msg_len
unfolding codes
memory_short = omega arith

pub empty_short : length (codes "Empty array") ≤ gpr_err_msg_len
unfolding codes
empty_short = omega arith

pub item_short : length (codes "Invalid element") ≤ gpr_err_msg_len
unfolding codes
item_short = omega arith

pub index_short : length (codes "Invalid index") ≤ gpr_err_msg_len
unfolding codes
index_short = omega arith
