-- ===== src/Array/Replace.antt =====
-- gpr_array_replace meets the contract of a sequence.
use mathlib.Core.Path.{subst}
use gpr.Base.{
  ℕ, ◌<◌, ◌≡◌, ◌≢◌, refl, sym, ap, List, ◌∷◌, ◌++◌, Bool, false, inl, inr, ne→not-==, eq→==, arith,
  length, length-append, append_assoc, and-false, Bool-cases, some, get_elem?-length_append,
  set-length_append, split_elem, le→leb, le→not-leb, leb, leb→le, not-leb→lt,
}
use gpr.Machine.{Ptr, null, Returns, and_then}
use gpr.Err.{ko, invalid_parameter, gpr_err_raise}
use gpr.Seq.{item, Shows, replace, step, Legal}
use gpr.Array.{GprArray, gpr_array_replace}
use gpr.Array.Block.{block_of, set_cell_at}
use gpr.Array.Inv.{
  append-ne-nil, IsArray, Holds, NoNull-insert, NoNull-remove, world, array_traits, item_short,
  index_short, empty_short,
}
use gpr.Array.Insert.{state, raise-Shows, item_cases}
use gpr.Array.Shrink.{release}

module _ (debug granted elem_free : Bool) (arr y : Ptr) (a : GprArray) (msg : List ℕ)
    (calls : List Ptr) (arr_valid : arr ≢ null) where
  abbrev Replaces : List Ptr → ℕ → Type 0
  Replaces xs index =
      Returns
        (Shows Holds
          (step array_traits debug granted elem_free (state xs msg calls) (replace y index)))
        (gpr_array_replace debug elem_free arr y index (world msg calls a))

  exchanged :
      (ys zs rest : List Ptr) (x : Ptr)
      → y ≢ null
      → IsArray a (ys ++ (x ∷ zs))
      → IsArray (record a { elem = some (ys ++ (y ∷ (zs ++ rest))) }) (ys ++ (y ∷ zs))
  exchanged ys zs rest x ne v = record {
    size = omega (arith, v.size, length-append ys (x ∷ zs), length-append ys (y ∷ zs));
    block = (rest, sym (append_assoc ys (y ∷ zs) rest), append-ne-nil ys zs y);
    fits = omega (arith, v.fits, length-append ys (x ∷ zs), length-append ys (y ∷ zs));
    elements = NoNull-insert ys zs y (NoNull-remove ys zs x v.elements).1 ne;
  }

  replace_here :
      (ys zs xs : List Ptr) (x : Ptr) (index : ℕ)
      → xs ≡ ys ++ (x ∷ zs)
      → length ys ≡ index
      → y ≢ null
      → IsArray a xs
      → Replaces xs index
  unfolding gpr_array_replace step gpr_err_raise
  replace_here ys zs xs x index e l ne v =
      let v' : IsArray a (ys ++ (x ∷ zs)) = subst (IsArray a) e v in
      let (rest, b) = block_of a.elem (ys ++ (x ∷ zs)) v'.block (append-ne-nil ys zs x) in
      rw (ne→not-== arr null arr_valid, ne→not-== y null ne, and-false debug)
        (rw
          (
            near,
            near',
            and-false debug,
            ne→not-== a.size 0 (omega (arith, some_here)),
            ne→not-== (length xs) 0 (omega (arith, some_here, v.size)),
          )
          (rw (e, ← l, release debug elem_free arr a msg calls arr_valid ys zs x v', and_then)
            (rw (b, and_then)
              (rw
                (
                  append_assoc ys (x ∷ zs) rest,
                  set_cell_at ys (zs ++ rest) x y (length ys) refl,
                  and_then,
                )
                (rw (set-length_append ys zs x y, get_elem?-length_append ys zs x, item)
                  (record {
                    code = refl;
                    holds = exchanged ys zs rest x ne v';
                    message = refl;
                    log = refl;
                  }))))))
    where
      some_here : index < a.size
      some_here = omega (arith, v.size, l, ap length e, length-append ys (x ∷ zs))

      near : leb a.size index ≡ false
      near = le→not-leb a.size index some_here

      near' : leb (length xs) index ≡ false
      near' = le→not-leb (length xs) index (omega (arith, some_here, v.size))

  -- Every other branch.
  pub replace_refines :
      (xs : List Ptr) (index : ℕ)
      → Legal debug xs (replace y index)
      → IsArray a xs
      → Replaces xs index
  unfolding gpr_array_replace step
  replace_refines xs index h v = elim (item_cases debug y (ground arith)) [
    | inl (d, e) ↦
        rw (d, ne→not-== arr null arr_valid, eq→== y null e)
          (raise-Shows invalid_parameter "Invalid element" msg calls a xs item_short v)
    | inr ne ↦ elim (Bool-cases (leb (length xs) index)) [
      | inr near ↦
          let (ys, x, zs, e, l) = split_elem xs index (not-leb→lt _ _ near) in
          replace_here ys zs xs x index e l ne v
      | inl far ↦ elim (Bool-cases debug) [
        | inl d ↦
            rw (d, ne→not-== arr null arr_valid, ne→not-== y null ne)
              (rw (far, le→leb a.size index (omega (arith, v.size, leb→le (length xs) index far)))
                (raise-Shows invalid_parameter "Invalid index" msg calls a xs index_short v))
        | inr d ↦
            let none_here : length xs ≡ 0 = ground (arith, leb→le (length xs) index far) in
            rw (d, ne→not-== arr null arr_valid)
              (rw (eq→== a.size 0 (omega (arith, v.size, none_here)), eq→== (length xs) 0 none_here)
                (raise-Shows ko "Empty array" msg calls a xs empty_short v))
      ]
    ]
  ]
