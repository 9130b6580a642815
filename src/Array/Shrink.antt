-- ===== src/Array/Shrink.antt =====
-- gpr_array_pop_front, gpr_array_pop_back and gpr_array_remove take one of several elements out.
use gpr.Base.{
  ℕ, ◌+◌, ◌-◌, ◌<◌, ◌≡◌, ◌≢◌, refl, sym, List, [], ◌∷◌, ◌++◌, some, Bool, true, false, ◌%◌,
  if◌then◌else◌, inl, inr, leb, ne→not-==, arith, length, length-append, append-nil, append_assoc,
  get_elem?-length_append, Bool-cases, and-false, le→not-leb,
}
use gpr.Machine.{when, call_back, Ptr, null, Returns, and_then, done, ◌>>=◌, ◌>>◌}
use gpr.Err.{ok, memory_failure, gpr_err_raise, codes, raise}
use gpr.Err.Raise.{raise_short}
use gpr.Seq.{Reply, Shows, freed}
use gpr.Array.{
  save, GprArray, Alloc, cells, realloc, shrink, cell, gpr_array_get_elem, gpr_array_get_size,
  remove_inside, size_max,
}
use gpr.Array.Block.{cells-eq, realloc_shrink, realloc_refused, memmove_left, block_of, max_cells}
use gpr.Array.Inv.{append-ne-nil, IsArray, Holds, NoNull, NoNull-remove, world, memory_short}

module _ (alloc : Alloc) (xs : List Ptr) (calls : List Ptr) where
  -- What is left of a removal: a refused reallocation is reported, and the element is gone.
  abbrev pub left : Reply
  left = if alloc.granted then (ok, record { items = xs; msg = []; calls = calls }) else (
    memory_failure,
    record { items = xs; msg = codes "Array allocation failed"; calls = calls },
  )

  keep-Shows :
      (a b : GprArray) (rest msg : List ℕ)
      → a.size ≡ length xs
      → length xs < max_cells
      → NoNull xs
      → xs ≢ []
      → alloc.granted ≡ false
      → Returns (Shows Holds left) (
          (save (record a { elem = some (xs ++ rest) })
              >> raise memory_failure "Array allocation failed")
            (world msg calls b))
  keep-Shows a b rest msg size fits elements ne g =
      let kept = world msg calls (record a { elem = some (xs ++ rest) }) in
      rw (raise_short memory_failure "Array allocation failed" kept memory_short, g)
        (record {
          code = refl;
          holds = record {
            size = size;
            block = (rest, refl, ne);
            fits = fits;
            elements = elements;
          };
          message = refl;
          log = refl;
        })

  pub shrink-Shows :
      (a b : GprArray) (rest msg : List ℕ)
      → a.size ≡ length xs
      → length xs < max_cells
      → NoNull xs
      → xs ≢ []
      → Returns (Shows Holds left) (shrink alloc a (xs ++ rest) (world msg calls b))
  unfolding shrink gpr_err_raise
  shrink-Shows a b rest msg size fits elements ne = elim (Bool-cases alloc.granted) [
    | inl g ↦
        rw (fitted g, shrink)
          (rw g (record {
            code = refl;
            holds = record {
              size = size;
              block = ([], sym (append-nil xs), ne);
              fits = fits;
              elements = elements;
            };
            message = refl;
            log = refl;
          }))
    | inr g ↦
        rw (realloc_refused alloc (some (xs ++ rest)) (cells a.size) g, shrink)
          (keep-Shows a b rest msg size fits elements ne g)
  ]
    where
      fitted : alloc.granted ≡ true → realloc alloc (some (xs ++ rest)) (cells a.size) ≡ some xs
      fitted g = rw (size, cells-eq (length xs) fits) (realloc_shrink alloc xs rest g)

module _ (debug elem_free : Bool) (arr : Ptr) (a : GprArray) (msg calls : List ℕ)
    (arr_valid : arr ≢ null) (ys zs : List Ptr) (x : Ptr) (v : IsArray a (ys ++ (x ∷ zs))) where
  pub get_elem-eq :
      gpr_array_get_elem debug arr (length ys) (world msg calls a) ≡ done x (world msg calls a)
  unfolding gpr_array_get_elem gpr_array_get_size
  get_elem-eq =
      let (rest, e) = block_of a.elem (ys ++ (x ∷ zs)) v.block (append-ne-nil ys zs x) in
      rw (ne→not-== arr null arr_valid, inside, and-false debug)
        (rw (e, cell)
          (rw (append_assoc ys (x ∷ zs) rest, get_elem?-length_append ys (zs ++ rest) x)))
    where
      inside : leb a.size (length ys) ≡ false
      inside = le→not-leb a.size (length ys) (omega (arith, v.size, length-append ys (x ∷ zs)))

  pub release :
      when elem_free (gpr_array_get_elem debug arr (length ys) >>= call_back) (world msg calls a)
      ≡ done tt (world msg (calls ++ freed elem_free (x ∷ [])) a)
  release = elim (Bool-cases elem_free) [
    | inl f ↦ rw (f, get_elem-eq)
    | inr f ↦ rw (f, append-nil calls)
  ]

module _ (debug : Bool) (alloc : Alloc) (elem_free : Bool) (arr : Ptr) (a : GprArray)
    (msg calls : List ℕ) (arr_valid : arr ≢ null) (ys zs : List Ptr) (x : Ptr)
    (v : IsArray a (ys ++ (x ∷ zs))) (many : ys ++ zs ≢ []) where
  abbrev pub gone : Reply
  gone = left alloc (ys ++ zs) (calls ++ freed elem_free (x ∷ []))

  -- The moves and the reallocation that follow the call of the callback.
  pub close :
      (b c : GprArray) (rest : List Ptr)
      → b.size ≡ length (ys ++ zs)
      → Returns
          (Shows Holds gone)
          (shrink alloc b ((ys ++ zs) ++ rest) (world msg (calls ++ freed elem_free (x ∷ [])) c))
  close b c rest size =
      shrink-Shows alloc (ys ++ zs) _ b c rest msg size
        (omega (arith, v.fits, length-append ys zs, length-append ys (x ∷ zs)))
        (NoNull-remove ys zs x v.elements).1 many

  pub remove_inside-Shows :
      Returns
        (Shows Holds gone)
        (remove_inside debug alloc elem_free arr (length ys) (world msg calls a))
  unfolding remove_inside
  remove_inside-Shows =
      let (rest, e) = block_of a.elem (ys ++ (x ∷ zs)) v.block (append-ne-nil ys zs x) in
      let (rest', m) = memmove_left ys zs rest x in
      rw (release debug elem_free arr a msg calls arr_valid ys zs x v, and_then)
        (rw (ne→not-== arr null arr_valid) (
          rw (e, and_then)
            (rw (append_assoc ys (x ∷ zs) rest, back, m, and_then) (close _ _ rest' less))))
    where
      back : cells ((a.size - 1 + size_max - length ys) % size_max) ≡ length zs
      back =
          let same : (a.size - 1 + size_max - length ys) % size_max ≡ length zs =
            omega (arith, v.size, v.fits, length-append ys (x ∷ zs)) in
          rw same (cells-eq (length zs) (omega (arith, v.fits, length-append ys (x ∷ zs))))

      less : a.size - 1 ≡ length (ys ++ zs)
      less = omega (arith, v.size, length-append ys zs, length-append ys (x ∷ zs))
