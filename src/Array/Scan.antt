-- ===== src/Array/Scan.antt =====
-- gpr_array_map, gpr_array_search and the life cycle of an array; a `NULL` handle.
use mathlib.Core.Path.{subst}
use gpr.Base.{
  ℕ, ◌+◌, ◌≡◌, ◌≢◌, ◌⊎◌, refl, ◌∙◌, sym, ap, List, [], ◌∷◌, ◌++◌, Option, none, some, Bool, true,
  inl, inr, ne→not-==, arith, length, length-append, append-nil, append_assoc,
  get_elem?-length_append, Bool-cases, and-false,
}
use gpr.Machine.{Ptr, null, World, Returns, and_then, done, fault, out_of_fuel, put_heap, Run}
use gpr.Seq.{NoneOf, freed}
use gpr.Seq.Laws.{NoneOf-append}
use gpr.Array.{
  GprArray, Arr, cell, map_loop, search_loop, gpr_array_map, gpr_array_search, gpr_array_free,
}
use gpr.Array.Block.{block_of}
use gpr.Array.Inv.{IsArray, Holds, world}
use gpr.Array.Reset.{Cleared, reset-Cleared}
use gpr.Array.Shrink.{get_elem-eq}

-- The loop of gpr_array_map from index `length ys` on.
map_loop-eq :
    (a : GprArray) (msg : List ℕ) (ys xs rest calls : List Ptr) (elem : Option (List Ptr)) (i : ℕ)
    → elem ≡ some (ys ++ (xs ++ rest))
    → i ≡ length ys
    → map_loop elem (length xs) i (world msg calls a) ≡ done tt (world msg (calls ++ xs) a)
unfolding map_loop
map_loop-eq a msg ys [] rest calls elem i e at = rw (append-nil calls)
map_loop-eq a msg ys (x ∷ xs) rest calls elem i e at =
    rw (here, and_then)
      (map_loop-eq a msg (ys ++ (x ∷ [])) xs rest (calls ++ (x ∷ [])) elem (i + 1)
          (e ∙ ap some (sym (append_assoc ys (x ∷ []) (xs ++ rest))))
          (omega (arith, length-append ys (x ∷ [])))
        ∙ ap (λ c. done tt (world msg c a)) (append_assoc calls (x ∷ []) xs))
  where
    here : cell elem i ≡ some x
    here = rw (e, at) (get_elem?-length_append ys (xs ++ rest) x)

map_of_array :
    (debug : Bool) (arr : Ptr) (a : GprArray) (msg : List ℕ) (calls xs : List Ptr)
    → arr ≢ null
    → IsArray a xs
    → gpr_array_map debug true arr (world msg calls a) ≡ done tt (world msg (calls ++ xs) a)
unfolding gpr_array_map
map_of_array debug arr a msg calls [] ne v =
    rw (ne→not-== arr null ne, and-false debug)
      (ap (λ n. map_loop a.elem n 0 (world msg calls a)) v.size ∙ map_nothing)
  where
    map_nothing : map_loop a.elem 0 0 (world msg calls a) ≡ done tt (world msg (calls ++ []) a)
    map_nothing = rw (append-nil calls)
map_of_array debug arr a msg calls (x ∷ xs) ne v =
    let (rest, e) = block_of a.elem (x ∷ xs) v.block (cc) in
    rw (ne→not-== arr null ne, and-false debug)
      (ap (λ n. map_loop a.elem n 0 (world msg calls a)) v.size
        ∙ map_loop-eq a msg [] (x ∷ xs) rest calls a.elem 0 e refl)

-- The first element that passes and its index, or `NULL` and 0 where none does.
abbrev pub Finds : (Ptr → Bool) → List Ptr → Ptr × Option ℕ → Type 0
Finds p xs r =
    ((ys : List Ptr) × (x : Ptr) × (zs : List Ptr) × (xs ≡ ys ++ (x ∷ zs))
      × NoneOf p ys
      × (p x ≡ true)
      × (r ≡ (x, some (length ys))))
    ⊎ (NoneOf p xs × (r ≡ (null, some 0)))

module _ (p : Ptr → Bool) (debug : Bool) (arr : Ptr) (a : GprArray) (msg : List ℕ)
    (calls : List Ptr) (arr_valid : arr ≢ null) (xs : List Ptr) (v : IsArray a xs) where
  -- The search returns what it should, and changes nothing.
  abbrev pub Searched : Ptr × Option ℕ → World Arr → Type 0
  Searched r w = Finds p xs r × (w ≡ world msg calls a)

  search_loop-Finds :
      (zs ys : List Ptr) (i : ℕ)
      → xs ≡ ys ++ zs
      → NoneOf p ys
      → i ≡ length ys
      → Returns Searched (search_loop p debug arr (length zs) i (world msg calls a))
  unfolding search_loop
  search_loop-Finds [] ys i e n at = (inr (rw (e, append-nil ys) n, refl), refl)
  search_loop-Finds (z ∷ zs) ys i e n at =
      rw
        (
          at,
          get_elem-eq debug true arr a msg calls arr_valid ys zs z (subst (IsArray a) e v),
          and_then,
        )
        (elim (Bool-cases (p z)) [
          | inl hit ↦ rw hit (inl (ys, z, zs, e, n, hit, refl), refl)
          | inr miss ↦ rw miss (
              search_loop-Finds zs (ys ++ (z ∷ [])) (length ys + 1)
                (e ∙ sym (append_assoc ys (z ∷ []) zs)) (NoneOf-append p ys z n miss)
                (omega (arith, length-append ys (z ∷ []))))
        ])

  search_of_array : Returns Searched (gpr_array_search debug (some p) arr (world msg calls a))
  unfolding gpr_array_search
  search_of_array =
      rw (ne→not-== arr null arr_valid, and-false debug)
        (subst (λ n. Returns Searched (search_loop p debug arr n 0 (world msg calls a)))
          (sym v.size) (search_loop-Finds xs [] 0 refl tt refl))

-- gpr_array_search returns the first element of the array that passes the test, and its index, or
-- `NULL` and 0 if none does; it changes nothing. The handle is not `NULL`.
pub search-Finds :
    (p : Ptr → Bool) (debug : Bool) (arr : Ptr) (w : World Arr) (xs : List Ptr)
    → arr ≢ null
    → Holds w.heap xs
    → Returns (λ r w'. Finds p xs r × (w' ≡ w)) (gpr_array_search debug (some p) arr w)
search-Finds p debug arr w xs ne v = search_at w.heap v
  where
    search_at :
        (h : Arr)
        → Holds h xs
        → Returns
            (λ r w'. Finds p xs r × (w' ≡ record w { heap = h }))
            (gpr_array_search debug (some p) arr (record w { heap = h }))
    search_at none v = absurd v
    search_at (some a) v = search_of_array p debug arr a w.msg w.calls ne xs v

-- gpr_array_map calls the function on each element once, in order, and changes nothing else. The
-- handle is not `NULL`.
pub map-calls :
    (debug : Bool) (arr : Ptr) (w : World Arr) (xs : List Ptr)
    → arr ≢ null
    → Holds w.heap xs
    → gpr_array_map debug true arr w ≡ done tt (record w { calls = w.calls ++ xs })
map-calls debug arr w xs ne v = map_at w.heap v
  where
    map_at :
        (h : Arr)
        → Holds h xs
        → gpr_array_map debug true arr (record w { heap = h })
          ≡ done tt (record w { calls = w.calls ++ xs; heap = h })
    map_at none v = absurd v
    map_at (some a) v = map_of_array debug arr a w.msg w.calls xs ne v

drop-Cleared :
    (msg : List ℕ) (calls : List Ptr) (r : Run Arr (Unit {0}))
    → Returns (Cleared msg calls) r
    → and_then r (λ _. put_heap none) ≡ done tt (record { msg = msg; calls = calls; heap = none })
drop-Cleared msg calls (done u w) (_, m, c) =
    λ i. done tt (record { msg = m i; calls = c i; heap = none })
drop-Cleared msg calls fault h = absurd h
drop-Cleared msg calls out_of_fuel h = absurd h

free_of_array :
    (debug elem_free : Bool) (arr : Ptr) (a : GprArray) (msg : List ℕ) (calls xs : List Ptr)
    → arr ≢ null
    → IsArray a xs
    → gpr_array_free debug elem_free arr (world msg calls a)
      ≡ done tt (record { msg = msg; calls = calls ++ freed elem_free xs; heap = none })
unfolding gpr_array_free
free_of_array debug elem_free arr a msg calls xs ne v =
    rw (ne→not-== arr null ne, and-false debug)
      (drop-Cleared msg _ _ (reset-Cleared debug elem_free arr ne msg calls a xs v))

-- gpr_array_free calls the callback, if one is given, on each element once, in order, and leaves no
-- array and no other change. The handle is not `NULL`.
pub free-calls :
    (debug elem_free : Bool) (arr : Ptr) (w : World Arr) (xs : List Ptr)
    → arr ≢ null
    → Holds w.heap xs
    → gpr_array_free debug elem_free arr w
      ≡ done tt (record w { calls = w.calls ++ freed elem_free xs; heap = none })
free-calls debug elem_free arr w xs ne v = free_at w.heap v
  where
    free_at :
        (h : Arr)
        → Holds h xs
        → gpr_array_free debug elem_free arr (record w { heap = h })
          ≡ done tt (record w { calls = w.calls ++ freed elem_free xs; heap = none })
    free_at none v = absurd v
    free_at (some a) v = free_of_array debug elem_free arr a w.msg w.calls xs ne v
