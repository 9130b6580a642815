-- ===== src/Array/Remove.antt =====
-- The functions that take an element out, and gpr_array_replace, meet the contract of a sequence.
use mathlib.Core.Path.{subst}
use gpr.Base.{
  ℕ, ◌-◌, ◌<◌, ◌≡◌, ◌≢◌, refl, sym, ap, List, [], ◌∷◌, ◌++◌, Bool, true, false, ◌==◌, inl, inr,
  ne→not-==, eq→==, lt→ltb, arith, length, length-append, append-nil, and-false, ne_nil_length,
  ==→eq, Bool-cases, take-length_append, ltb, not-==→ne, drop-suc-length_append,
  get_elem?-length_append, split_last, split_elem, le→not-leb, leb,
}
use gpr.Machine.{Ptr, null, Returns}
use gpr.Err.{ko, raise}
use gpr.Seq.{item, Reply, Shows, freed, take_out}
use gpr.Array.{GprArray, Alloc, gpr_array_pop_front, gpr_array_pop_back, gpr_array_remove}
use gpr.Array.Inv.{IsArray, Holds, world, array_traits, empty_short}
use gpr.Array.Insert.{state, raise-Shows}
use gpr.Array.Shrink.{left, remove_inside-Shows}
use gpr.Array.Pop.{emptied, pop_front_last, pop_back_last, pop_front-Shows, pop_back-Shows}

module _ (debug : Bool) (alloc : Alloc) (elem_free : Bool) (arr : Ptr) (a : GprArray) (msg : List ℕ)
    (calls : List Ptr) (arr_valid : arr ≢ null) where
  abbrev pub contract : List Ptr → ℕ → Reply
  contract xs i = take_out array_traits debug alloc.granted elem_free (state xs msg calls) i

  contract-left :
      (ys zs : List Ptr) (x : Ptr)
      → ys ++ zs ≢ []
      → contract (ys ++ (x ∷ zs)) (length ys)
        ≡ left alloc (ys ++ zs) (calls ++ freed elem_free (x ∷ []))
  unfolding take_out
  contract-left ys zs x many =
      rw
        (
          some_left,
          several,
          take-length_append ys (x ∷ zs),
          drop-suc-length_append ys zs x,
          get_elem?-length_append ys zs x,
          item,
        )
        (elim (Bool-cases alloc.granted) [ inl g ↦ rw g | inr g ↦ rw g ])
    where
      some_left : (length (ys ++ (x ∷ zs)) == 0) ≡ false
      some_left = ne→not-== _ 0 (omega (arith, length-append ys (x ∷ zs)))

      several : ltb 1 (length (ys ++ (x ∷ zs))) ≡ true
      several = lt→ltb 1 _ (
          omega
            (arith, length-append ys (x ∷ zs), length-append ys zs, ne_nil_length (ys ++ zs) many))

  contract-emptied :
      (x : Ptr) → contract (x ∷ []) 0 ≡ emptied debug alloc elem_free arr a msg calls arr_valid x
  unfolding take_out
  contract-emptied x = refl

  pub none_left :
      (i : ℕ)
      → IsArray a []
      → Returns (Shows Holds (contract [] i)) (raise ko "Empty array" (world msg calls a))
  unfolding take_out
  none_left i v = raise-Shows ko "Empty array" msg calls a [] empty_short v

  pub pop_front_refines :
      (xs : List Ptr)
      → IsArray a xs
      → Returns
          (Shows Holds (contract xs 0))
          (gpr_array_pop_front debug alloc elem_free arr (world msg calls a))
  unfolding gpr_array_pop_front
  pop_front_refines [] v =
      rw (ne→not-== arr null arr_valid, and-false debug)
        (rw (eq→== a.size 0 v.size) (none_left 0 v))
  pop_front_refines (x ∷ []) v =
      rw (contract-emptied x) (pop_front_last debug alloc elem_free arr a msg calls arr_valid x v)
  pop_front_refines (x ∷ (z ∷ zs)) v =
      rw (contract-left [] (z ∷ zs) x (cc))
        (pop_front-Shows debug alloc elem_free arr a msg calls arr_valid x (z ∷ zs) v (cc))

  -- At the last of several.
  pop_back_several :
      (ys xs : List Ptr) (x : Ptr)
      → xs ≡ ys ++ (x ∷ [])
      → ys ≢ []
      → IsArray a xs
      → Returns
          (Shows Holds (contract xs (length xs - 1)))
          (gpr_array_pop_back debug alloc elem_free arr (world msg calls a))
  pop_back_several ys xs x e many v =
      let last : length xs - 1 ≡ length ys =
        omega (arith, ap length e, length-append ys (x ∷ [])) in
      let many' : ys ++ [] ≢ [] = rw (append-nil ys) many in
      rw (last, e, contract-left ys [] x many')
        (pop_back-Shows debug alloc elem_free arr a msg calls arr_valid x ys (subst (IsArray a) e v)
          many')

  pub pop_back_refines :
      (xs : List Ptr)
      → IsArray a xs
      → Returns
          (Shows Holds (contract xs (length xs - 1)))
          (gpr_array_pop_back debug alloc elem_free arr (world msg calls a))
  unfolding gpr_array_pop_back
  pop_back_refines [] v =
      rw (ne→not-== arr null arr_valid, and-false debug)
        (rw (eq→== a.size 0 v.size) (none_left _ v))
  pop_back_refines (x ∷ []) v =
      rw (contract-emptied x) (pop_back_last debug alloc elem_free arr a msg calls arr_valid x v)
  pop_back_refines (x ∷ (z ∷ zs)) v =
      let (ys, y, e) = split_last z zs in
      pop_back_several (x ∷ ys) (x ∷ (z ∷ zs)) y (ap (λ us. x ∷ us) e) (cc) v

  abbrev pub Removes : List Ptr → ℕ → Type 0
  Removes xs index =
      Returns (Shows Holds (contract xs index))
        (gpr_array_remove debug alloc elem_free arr index (world msg calls a))

  -- Neither end.
  remove_between :
      (ys zs xs : List Ptr) (x : Ptr) (index : ℕ)
      → xs ≡ ys ++ (x ∷ zs)
      → length ys ≡ index
      → index ≢ 0
      → index ≢ length xs - 1
      → IsArray a xs
      → Removes xs index
  unfolding gpr_array_remove
  remove_between ys zs xs x index e l first last v =
      rw (ne→not-== arr null arr_valid, and-false debug)
        (rw (near, and-false debug, ne→not-== a.size 0 (omega (arith, some_here)))
          (rw (ne→not-== index 0 first, ne→not-== index (a.size - 1) (omega (arith, last, v.size)))
            (rw (e, ← l, contract-left ys zs x many)
              (remove_inside-Shows debug alloc elem_free arr a msg calls arr_valid ys zs x
                (subst (IsArray a) e v) many))))
    where
      some_here : index < a.size
      some_here = omega (arith, v.size, l, ap length e, length-append ys (x ∷ zs))

      near : leb a.size index ≡ false
      near = le→not-leb a.size index some_here

      many : ys ++ zs ≢ []
      many z = first (omega (arith, l, ap length z, length-append ys zs))

  remove_last :
      (xs : List Ptr) (index : ℕ)
      → index ≡ length xs - 1
      → index ≢ 0
      → IsArray a xs
      → Removes xs index
  unfolding gpr_array_remove
  remove_last xs index e first v =
      rw (ne→not-== arr null arr_valid, and-false debug)
        (rw
          (
            le→not-leb a.size index (omega (arith, v.size)),
            and-false debug,
            ne→not-== a.size 0 (omega (arith, v.size)),
            ne→not-== index 0 first,
          )
          (rw (eq→== index (a.size - 1) (omega (arith, v.size)), e) (pop_back_refines xs v)))

  remove_first : (xs : List Ptr) → xs ≢ [] → IsArray a xs → Removes xs 0
  unfolding gpr_array_remove
  remove_first xs ne v =
      let some_here : 0 < a.size = omega (arith, v.size, ne_nil_length xs ne) in
      rw (ne→not-== arr null arr_valid, and-false debug)
        (rw
          (
            le→not-leb a.size 0 some_here,
            and-false debug,
            ne→not-== a.size 0 (omega (arith, some_here)),
          )
          (pop_front_refines xs v))

  pub remove_at_index :
      (xs : List Ptr) (index : ℕ) → index < length xs → IsArray a xs → Removes xs index
  remove_at_index xs index near v = elim (Bool-cases (index == 0)) [
    | inl first ↦
        subst (Removes xs) (sym (==→eq _ _ first))
          (remove_first xs (λ e. absurd (omega (arith, ap length e))) v)
    | inr not_first ↦ elim (Bool-cases (index == length xs - 1)) [
      | inl last ↦ remove_last xs index (==→eq _ _ last) (not-==→ne _ _ not_first) v
      | inr not_last ↦
          let (ys, y, zs, e, l) = split_elem xs index near in
          remove_between ys zs xs y index e l (not-==→ne _ _ not_first) (not-==→ne _ _ not_last) v
    ]
  ]
