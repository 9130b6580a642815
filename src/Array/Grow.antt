-- ===== src/Array/Grow.antt =====
-- gpr_array_push_front, gpr_array_push_back and gpr_array_insert put one element in.
use gpr.Base.{
  ℕ, ◌+◌, ◌-◌, ◌≡◌, ◌≢◌, refl, ◌∙◌, ap, List, [], ◌∷◌, ◌++◌, none, some, Bool, true, false,
  ne→not-==, arith, length, append_assoc, append-nil, ltb, ne_nil_length, ◌%◌, if◌then◌else◌, inl,
  inr, Bool-cases, and-false, length-append,
}
use gpr.Machine.{Ptr, null, Returns, and_then, ◌>>◌}
use gpr.Err.{ok, memory_failure, gpr_err_raise, codes, raise, success}
use gpr.Err.Raise.{raise_short}
use gpr.Seq.{Shows, Reply}
use gpr.Array.{
  GprArray, Alloc, cells, realloc, insert_inside, gpr_array_push_back, gpr_array_push_front, save,
  size_max,
}
use gpr.Array.Block.{memmove_right, set_cell_at, cells-eq, realloc_grow, realloc_refused}
use gpr.Array.Inv.{memory_short, IsArray, Holds, HasRoom, world, inserted-IsArray}

-- The last lines of each of the three functions: the error message is cleared.
module _ (alloc : Alloc) (x : Ptr) (ys zs : List Ptr) (msg : List ℕ) (calls : List Ptr) where
  abbrev pub after : Reply
  after =
      if alloc.granted then (ok, record { items = ys ++ (x ∷ zs); msg = []; calls = calls }) else (
        memory_failure,
        record { items = ys ++ zs; msg = codes "Array allocation failed"; calls = calls },
      )

module _ (alloc : Alloc) (x : Ptr) (a : GprArray) (ys zs : List Ptr) (msg : List ℕ)
    (calls : List Ptr) (x_valid : x ≢ null) (v : IsArray a (ys ++ zs))
    (room : HasRoom (ys ++ zs)) where
  grown :
      alloc.granted ≡ true
      → (y : Ptr) × (realloc alloc a.elem (cells (a.size + 1)) ≡ some ((ys ++ zs) ++ (y ∷ [])))
  grown g =
      let (y, e) = realloc_grow alloc a.elem (ys ++ zs) v.block g in
      (y, rw (v.size, cells-eq (length (ys ++ zs) + 1) room) e)

  refused : alloc.granted ≡ false → realloc alloc a.elem (cells (a.size + 1)) ≡ none
  refused = realloc_refused alloc a.elem _

  finish :
      alloc.granted ≡ true
      → (b : List Ptr) → b ≡ ys ++ (x ∷ zs)
      → Returns (Shows Holds (after alloc x ys zs msg calls)) (
          (save (record { size = (a.size + 1) % size_max; elem = some b }) >> success)
            (world msg calls a))
  unfolding gpr_err_raise
  finish g b e =
      rw (g, e)
        (record {
          code = refl;
          holds = inserted-IsArray ys zs x a.size v.size room v.elements x_valid;
          message = refl;
          log = refl;
        })

  give_up :
      alloc.granted ≡ false
      → Returns
          (Shows Holds (after alloc x ys zs msg calls))
          (raise memory_failure "Array allocation failed" (world msg calls a))
  give_up g =
      rw (g, raise_short memory_failure "Array allocation failed" (world msg calls a) memory_short)
        (record { code = refl; holds = v; message = refl; log = refl })

  pub insert_inside-Shows :
      (arr : Ptr)
      → arr ≢ null
      → zs ≢ []
      → Returns
          (Shows Holds (after alloc x ys zs msg calls))
          (insert_inside alloc arr x (length ys) (world msg calls a))
  unfolding insert_inside
  insert_inside-Shows arr arr_valid ne = elim (Bool-cases alloc.granted) [
    | inr g ↦ rw (ne→not-== arr null arr_valid) (rw (refused g, and_then) (give_up g))
    | inl g ↦
        let (y, e) = grown g in
        let (z, m) = memmove_right ys zs y in
        rw (ne→not-== arr null arr_valid) (
          rw (e, and_then)
            (rw (nonempty, back, append_assoc ys zs (y ∷ []), m, and_then)
              (rw (set_cell_at ys zs z x (length ys) refl, and_then) (finish g _ refl))))
  ]
    where
      back_size : (a.size + size_max - length ys) % size_max ≡ length zs
      back_size = omega (arith, v.size, v.fits, length-append ys zs)

      nonempty : ltb 0 ((a.size + size_max - length ys) % size_max) ≡ true
      nonempty = ground (arith, back_size, ne_nil_length zs ne)

      back : cells ((a.size + size_max - length ys) % size_max) ≡ length zs
      back = rw back_size (cells-eq (length zs) (omega (arith, v.fits, length-append ys zs)))

module _ (debug : Bool) (alloc : Alloc) (arr x : Ptr) (a : GprArray) (xs : List Ptr) (msg : List ℕ)
    (calls : List Ptr) (arr_valid : arr ≢ null) (x_valid : x ≢ null) where
  pub push_front-Shows :
      (v : IsArray a xs) (room : HasRoom xs)
      → Returns
          (Shows Holds (after alloc x [] xs msg calls))
          (gpr_array_push_front debug alloc arr x (world msg calls a))
  unfolding gpr_array_push_front
  push_front-Shows v room = elim (Bool-cases alloc.granted) [
    | inr g ↦
        rw (ne→not-== arr null arr_valid, ne→not-== x null x_valid, and-false debug)
          (rw (refused alloc x a [] xs msg calls x_valid v room g, and_then)
            (give_up alloc x a [] xs msg calls x_valid v room g))
    | inl g ↦
        let (y, e) = grown alloc x a [] xs msg calls x_valid v room g in
        let (z, m) = memmove_right [] xs y in
        rw (ne→not-== arr null arr_valid, ne→not-== x null x_valid, and-false debug)
          (rw (e, and_then)
            (rw (sized, m, and_then)
              (rw (set_cell_at [] xs z x 0 refl, and_then)
                (finish alloc x a [] xs msg calls x_valid v room g _ refl))))
  ]
    where
      sized : cells a.size ≡ length xs
      sized = rw v.size (cells-eq (length xs) v.fits)

  pub push_back-Shows :
      (v : IsArray a (xs ++ [])) (room : HasRoom (xs ++ []))
      → Returns
          (Shows Holds (after alloc x xs [] msg calls))
          (gpr_array_push_back debug alloc arr x (world msg calls a))
  unfolding gpr_array_push_back
  push_back-Shows v room = elim (Bool-cases alloc.granted) [
    | inr g ↦
        rw (ne→not-== arr null arr_valid, ne→not-== x null x_valid, and-false debug)
          (rw (refused alloc x a xs [] msg calls x_valid v room g, and_then)
            (give_up alloc x a xs [] msg calls x_valid v room g))
    | inl g ↦
        let (y, e) = grown alloc x a xs [] msg calls x_valid v room g in
        rw (ne→not-== arr null arr_valid, ne→not-== x null x_valid, and-false debug)
          (rw (e' y e, and_then)
            (rw
              (set_cell_at xs [] y x a.size (omega (arith, v.size, length-append xs [])), and_then)
              (finish alloc x a xs [] msg calls x_valid v room g _ refl)))
  ]
    where
      e' :
          (y : Ptr)
          → realloc alloc a.elem (cells (a.size + 1)) ≡ some ((xs ++ []) ++ (y ∷ []))
          → realloc alloc a.elem (cells (a.size + 1)) ≡ some (xs ++ (y ∷ []))
      e' y h = h ∙ ap (λ zs. some (zs ++ (y ∷ []))) (append-nil xs)
