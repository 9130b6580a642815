-- ===== src/Array/Reset.antt =====
-- gpr_array_reset and gpr_array_free call the callback on each element, and drop the block.
use gpr.Base.{
  ℕ, ◌+◌, ◌≡◌, ◌≢◌, refl, ◌∙◌, sym, ap, List, [], ◌∷◌, ◌++◌, Option, none, some, Bool, not, ◌&&◌,
  ◌==◌, inl, inr, ne→not-==, eq→==, arith, length, length-append, append-nil, append_assoc,
  get_elem?-length_append, Bool-cases, and-false,
}
use gpr.Machine.{when, call_back, Ptr, null, World, Returns, and_then, done}
use gpr.Seq.{freed}
use gpr.Array.{GprArray, Arr, cell, free_loop, gpr_array_reset}
use gpr.Array.Block.{block_of}
use gpr.Array.Inv.{IsArray, Holds, NoNull, world}

module _ (elem_free : Bool) (a : GprArray) (msg : List ℕ) where
  free_one :
      (calls : List Ptr) (x : Ptr)
      → x ≢ null
      → when (not (x == null) && elem_free) (call_back x) (world msg calls a)
        ≡ done tt (world msg (calls ++ freed elem_free (x ∷ [])) a)
  free_one calls x ne = elim (Bool-cases elem_free) [
    | inl f ↦ rw (ne→not-== x null ne, f)
    | inr f ↦ rw (ne→not-== x null ne, f, append-nil calls)
  ]

  freed-cons :
      (calls : List Ptr) (x : Ptr) (xs : List Ptr)
      → (calls ++ freed elem_free (x ∷ [])) ++ freed elem_free xs
        ≡ calls ++ freed elem_free (x ∷ xs)
  freed-cons calls x xs = elim (Bool-cases elem_free) [
    | inl f ↦ rw (f, append_assoc calls (x ∷ []) xs)
    | inr f ↦ rw f (append_assoc calls [] [])
  ]

  freed-nil : (calls : List Ptr) → calls ++ freed elem_free [] ≡ calls
  freed-nil calls = elim (Bool-cases elem_free) [
    | inl f ↦ rw (f, append-nil calls)
    | inr f ↦ rw (f, append-nil calls)
  ]

  -- The loop from index `length ys` on calls the callback on each element that is left, in order.
  free_loop-eq :
      (ys xs rest calls : List Ptr) (elem : Option (List Ptr)) (i : ℕ)
      → NoNull xs
      → elem ≡ some (ys ++ (xs ++ rest))
      → i ≡ length ys
      → free_loop elem_free elem (length xs) i (world msg calls a)
        ≡ done tt (world msg (calls ++ freed elem_free xs) a)
  unfolding free_loop
  free_loop-eq ys [] rest calls elem i n e at = rw (freed-nil calls)
  free_loop-eq ys (x ∷ xs) rest calls elem i n e at =
      rw (here, and_then)
        (rw (free_one calls x n.0, and_then)
          (free_loop-eq (ys ++ (x ∷ [])) xs rest (calls ++ freed elem_free (x ∷ [])) elem (i + 1)
              n.1 (e ∙ ap some (sym (append_assoc ys (x ∷ []) (xs ++ rest))))
              (omega (arith, length-append ys (x ∷ [])))
            ∙ ap (λ c. done tt (world msg c a)) (freed-cons calls x xs)))
    where
      here : cell elem i ≡ some x
      here = rw (e, at) (get_elem?-length_append ys (xs ++ rest) x)

-- What a reset array is.
abbrev pub empty_array : GprArray
empty_array = record { size = 0; elem = none }

pub empty-IsArray : IsArray empty_array []
empty-IsArray = record { size = refl; block = refl; fits = omega arith; elements = tt }

-- The contents are gone, and the callback had each of them; the error message is not touched.
abbrev pub Cleared : List ℕ → List Ptr → Unit {0} → World Arr → Type 0
Cleared msg calls _ w = Holds w.heap [] × (w.msg ≡ msg) × (w.calls ≡ calls)

module _ (debug elem_free : Bool) (arr : Ptr) (arr_valid : arr ≢ null) (msg calls : List Ptr)
    (a : GprArray) where
  pub reset-cons :
      (x : Ptr) (xs : List Ptr)
      → IsArray a (x ∷ xs)
      → gpr_array_reset debug elem_free arr (world msg calls a)
        ≡ done tt (world msg (calls ++ freed elem_free (x ∷ xs)) empty_array)
  unfolding gpr_array_reset
  reset-cons x xs v =
      rw (ne→not-== arr null arr_valid, and-false debug)
        (rw (ne→not-== a.size 0 (omega (arith, v.size)), and-false debug) (rw (loop, and_then)))
    where
      loop :
          free_loop elem_free a.elem a.size 0 (world msg calls a)
          ≡ done tt (world msg (calls ++ freed elem_free (x ∷ xs)) a)
      loop =
          let (rest, e) = block_of a.elem (x ∷ xs) v.block (cc) in
          ap (λ n. free_loop elem_free a.elem n 0 (world msg calls a)) v.size
          ∙ free_loop-eq elem_free a msg [] (x ∷ xs) rest calls a.elem 0 v.elements e refl

  reset-nil :
      IsArray a []
      → Returns (Cleared msg calls) (gpr_array_reset debug elem_free arr (world msg calls a))
  unfolding gpr_array_reset
  reset-nil v = elim (Bool-cases debug) [
    | inl d ↦ rw (d, ne→not-== arr null arr_valid) (rw (eq→== a.size 0 v.size) (v, refl, refl))
    | inr d ↦ rw (d, ne→not-== arr null arr_valid) (rw (loop, and_then) (empty-IsArray, refl, refl))
  ]
    where
      loop : free_loop elem_free a.elem a.size 0 (world msg calls a) ≡ done tt (world msg calls a)
      loop = ap (λ n. free_loop elem_free a.elem n 0 (world msg calls a)) v.size

  pub reset-Cleared :
      (xs : List Ptr)
      → IsArray a xs
      → Returns
          (Cleared msg (calls ++ freed elem_free xs))
          (gpr_array_reset debug elem_free arr (world msg calls a))
  reset-Cleared [] v = rw (freed-nil elem_free a msg calls) (reset-nil v)
  reset-Cleared (x ∷ xs) v = rw (reset-cons x xs v) (empty-IsArray, refl, refl)
