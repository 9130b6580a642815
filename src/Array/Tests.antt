-- ===== src/Array/Tests.antt =====
-- The scenario of tests/gpr_ut_array.c, and the theorems on arrays at concrete inputs.
use gpr.Base.{ℕ, ◌≡◌, refl, List, [], ◌∷◌, Option, none, some, true, false, arith, ◌==◌, inl, inr}
use gpr.Machine.{Ptr, World, done, Cmd, Returns, ◌>>=◌, ◌>>◌, pure}
use gpr.Err.{ok, invalid_parameter, memory_failure, gpr_err_raise, codes}
use gpr.Seq.{
  Op, push_front, push_back, insert, replace, remove, pop_front, pop_back, step, run, Shows,
}
use gpr.Array.{
  insert_inside, shrink, remove_inside, Arr, Alloc, cells, realloc, memmove, gpr_array_free,
  gpr_array_new, gpr_array_map, gpr_array_search, gpr_array_push_front, gpr_array_push_back,
  gpr_array_insert, gpr_array_pop_front, gpr_array_pop_back, gpr_array_remove, gpr_array_replace,
  gpr_array_reset, gpr_array_get_elem,
}
use gpr.Array.Inv.{Holds}
use gpr.Array.Refine.{call, calls_of, call_refines, calls_of_refines, Ran}
use gpr.Array.Scan.{Finds, search-Finds, map-calls, free-calls}

abbrev yes_alloc : Alloc
yes_alloc = record { granted = true; junk = 99 }

abbrev no_alloc : Alloc
no_alloc = record { granted = false; junk = 99 }

abbrev nowhere : World Arr
nowhere = record { msg = []; calls = []; heap = none }

-- 7, 8, 9 in a block with a spare cell
abbrev three : World Arr
three = record {
  msg = [];
  calls = [];
  heap = some (record { size = 3; elem = some (7 ∷ 8 ∷ 9 ∷ 99 ∷ []) });
}

three-Holds : Holds three.heap (7 ∷ 8 ∷ 9 ∷ [])
three-Holds = record {
  size = refl;
  block = (99 ∷ [], refl, cc);
  fits = omega arith;
  elements = omega arith;
}

-- The students of the unit test are the pointers 10 to 15, and the array's address is 1.
scenario : Cmd Arr (Ptr × Option ℕ)
unfolding call gpr_array_push_front gpr_array_push_back gpr_array_insert gpr_array_pop_front
    gpr_array_pop_back gpr_array_remove gpr_array_replace gpr_array_reset gpr_array_new
    gpr_array_search gpr_array_map gpr_array_free realloc memmove cells gpr_err_raise
    gpr_array_get_elem
scenario = do
  arr ← gpr_array_new true 1
  calls_of true true arr (
      (push_back 10, yes_alloc)
      ∷ (push_back 11, yes_alloc)
      ∷ (push_front 12, yes_alloc)
      ∷ (push_front 13, yes_alloc)
      ∷ (insert 14 2, yes_alloc)
      ∷ (push_front 15, yes_alloc)
      ∷ [])
  found ← gpr_array_search true (some (λ p. p == 12)) arr
  calls_of true true arr (
      (pop_front, yes_alloc)
      ∷ (pop_back, yes_alloc)
      ∷ (remove 2, yes_alloc)
      ∷ (replace 16 1, yes_alloc)
      ∷ [])
  gpr_array_map true true arr
  gpr_array_free true true arr
  pure found

scenario_runs :
    scenario nowhere
    ≡ done
        (12, some 2)
        (record {
          msg = [];
          calls = 15 ∷ 11 ∷ 14 ∷ 12 ∷ 13 ∷ 16 ∷ 10 ∷ 13 ∷ 16 ∷ 10 ∷ [];
          heap = none;
        })
unfolding scenario calls_of insert_inside shrink remove_inside
scenario_runs = refl

call_refines_example :
    Returns
      (Shows Holds (
        memory_failure,
        record { items = 7 ∷ 9 ∷ []; msg = codes "Array allocation failed"; calls = 8 ∷ [] },
      ))
      (call false true 1 no_alloc (remove 1) three)
unfolding step
call_refines_example =
    call_refines false true 1 (omega arith) no_alloc (remove 1) three (7 ∷ 8 ∷ 9 ∷ [])
      (inr (inr (omega arith))) (omega arith) three-Holds

abbrev script : List (Op × Alloc)
script =
    (push_back 5, yes_alloc)
    ∷ (insert 6 9, yes_alloc)
    ∷ (pop_front, no_alloc)
    ∷ (replace 4 0, yes_alloc)
    ∷ []

calls_of_refines_example :
    Returns
      (Ran (
        ok ∷ invalid_parameter ∷ memory_failure ∷ ok ∷ [],
        record { items = 4 ∷ 9 ∷ 5 ∷ []; msg = []; calls = 7 ∷ 8 ∷ [] },
      ))
      (calls_of true true 1 script three)
unfolding run step
calls_of_refines_example =
    calls_of_refines true true 1 (omega arith) script three (7 ∷ 8 ∷ 9 ∷ [])
      (inl refl, (inl refl, (tt, (inl refl, tt)))) (omega arith) three-Holds

search-Finds_example :
    Returns
      (λ r w. Finds (λ p. p == 9) (7 ∷ 8 ∷ 9 ∷ []) r × (w ≡ three))
      (gpr_array_search true (some (λ p. p == 9)) 1 three)
search-Finds_example =
    search-Finds (λ p. p == 9) true 1 three (7 ∷ 8 ∷ 9 ∷ []) (omega arith) three-Holds

map-calls_example :
    gpr_array_map false true 1 three ≡ done tt (record three { calls = 7 ∷ 8 ∷ 9 ∷ [] })
map-calls_example = map-calls false 1 three (7 ∷ 8 ∷ 9 ∷ []) (omega arith) three-Holds

free-calls_example :
    gpr_array_free true true 1 three
    ≡ done tt (record { msg = []; calls = 7 ∷ 8 ∷ 9 ∷ []; heap = none })
free-calls_example = free-calls true true 1 three (7 ∷ 8 ∷ 9 ∷ []) (omega arith) three-Holds
