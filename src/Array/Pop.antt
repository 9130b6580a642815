-- ===== src/Array/Pop.antt =====
-- gpr_array_pop_front and gpr_array_pop_back, on one element and on several.
use gpr.Base.{
  ℕ, ◌-◌, ◌≡◌, ◌≢◌, refl, List, [], ◌∷◌, ◌++◌, Bool, ne→not-==, eq→==, arith, length, length-append,
  append-nil, append_assoc, and-false, ne_nil_length,
}
use gpr.Machine.{Ptr, null, Returns, and_then}
use gpr.Err.{ok, gpr_err_raise}
use gpr.Seq.{Reply, Shows, freed}
use gpr.Array.{GprArray, Alloc, cells, gpr_array_pop_front, gpr_array_pop_back}
use gpr.Array.Block.{cells-eq, memmove_left, block_of}
use gpr.Array.Inv.{append-ne-nil, IsArray, Holds, world}
use gpr.Array.Reset.{reset-cons, empty-IsArray}
use gpr.Array.Shrink.{gone, close, release}

module _ (debug : Bool) (alloc : Alloc) (elem_free : Bool) (arr : Ptr) (a : GprArray)
    (msg calls : List ℕ) (arr_valid : arr ≢ null) where
  abbrev pub emptied : Ptr → Reply
  emptied x = (ok, record { items = []; msg = []; calls = calls ++ freed elem_free (x ∷ []) })

  pub pop_front_last :
      (x : Ptr)
      → IsArray a (x ∷ [])
      → Returns
          (Shows Holds (emptied x))
          (gpr_array_pop_front debug alloc elem_free arr (world msg calls a))
  unfolding gpr_array_pop_front gpr_err_raise
  pop_front_last x v =
      rw (ne→not-== arr null arr_valid, and-false debug)
        (rw (ne→not-== a.size 0 (omega (arith, v.size)), eq→== a.size 1 v.size)
          (rw (reset-cons debug elem_free arr arr_valid msg calls a x [] v, and_then)
            (record { code = refl; holds = empty-IsArray; message = refl; log = refl })))

  pub pop_back_last :
      (x : Ptr)
      → IsArray a (x ∷ [])
      → Returns
          (Shows Holds (emptied x))
          (gpr_array_pop_back debug alloc elem_free arr (world msg calls a))
  unfolding gpr_array_pop_back gpr_err_raise
  pop_back_last x v =
      rw (ne→not-== arr null arr_valid, and-false debug)
        (rw (ne→not-== a.size 0 (omega (arith, v.size)), eq→== a.size 1 v.size)
          (rw (reset-cons debug elem_free arr arr_valid msg calls a x [] v, and_then)
            (record { code = refl; holds = empty-IsArray; message = refl; log = refl })))

  pub pop_front-Shows :
      (x : Ptr) (zs : List Ptr) (v : IsArray a (x ∷ zs)) (many : zs ≢ [])
      → Returns
          (Shows Holds (gone debug alloc elem_free arr a msg calls arr_valid [] zs x v many))
          (gpr_array_pop_front debug alloc elem_free arr (world msg calls a))
  unfolding gpr_array_pop_front
  pop_front-Shows x zs v many =
      let (rest, e) = block_of a.elem (x ∷ zs) v.block (cc) in
      let (rest', m) = memmove_left [] zs rest x in
      rw (ne→not-== arr null arr_valid, and-false debug)
        (rw
          (
            ne→not-== a.size 0 (omega (arith, v.size)),
            ne→not-== a.size 1 (omega (arith, v.size, ne_nil_length zs many)),
          )
          (rw (release debug elem_free arr a msg calls arr_valid [] zs x v, and_then)
            (rw (e, and_then)
              (rw (back, m, and_then)
                (close debug alloc elem_free arr a msg calls arr_valid [] zs x v many _ _ rest'
                  less)))))
    where
      less : a.size - 1 ≡ length zs
      less = omega (arith, v.size)

      back : cells (a.size - 1) ≡ length zs
      back = rw less (cells-eq (length zs) (omega (arith, v.fits)))

  pub pop_back-Shows :
      (x : Ptr) (ys : List Ptr) (v : IsArray a (ys ++ (x ∷ []))) (many : ys ++ [] ≢ [])
      → Returns
          (Shows Holds (gone debug alloc elem_free arr a msg calls arr_valid ys [] x v many))
          (gpr_array_pop_back debug alloc elem_free arr (world msg calls a))
  unfolding gpr_array_pop_back
  pop_back-Shows x ys v many =
      let (rest, e) = block_of a.elem (ys ++ (x ∷ [])) v.block (append-ne-nil ys [] x) in
      rw (ne→not-== arr null arr_valid, and-false debug)
        (rw
          (
            ne→not-== a.size 0 (omega (arith, v.size, length-append ys (x ∷ []))),
            ne→not-== a.size 1 (
                omega (
                  arith,
                  v.size,
                  length-append ys (x ∷ []),
                  length-append ys [],
                  ne_nil_length (ys ++ []) many,
                )),
          )
          (rw (at_last) (
            rw (release debug elem_free arr a msg calls arr_valid ys [] x v, and_then)
              (rw (e, and_then)
                (rw (regroup rest) (
                  close debug alloc elem_free arr a msg calls arr_valid ys [] x v many _ _
                    (x ∷ rest) less))))))
    where
      regroup : (rest : List Ptr) → (ys ++ (x ∷ [])) ++ rest ≡ (ys ++ []) ++ (x ∷ rest)
      regroup rest = rw (append_assoc ys (x ∷ []) rest, append-nil ys)

      less : a.size - 1 ≡ length (ys ++ [])
      less = omega (arith, v.size, length-append ys (x ∷ []), length-append ys [])

      at_last : a.size - 1 ≡ length ys
      at_last = omega (arith, v.size, length-append ys (x ∷ []))
