-- ===== src/Dlklist/Tests.antt =====
-- The theorems on doubly linked lists at concrete inputs.
use gpr.Base.{◌≡◌, refl, List, [], ◌∷◌, none, some, true, false, arith, ◌==◌, inl, inr}
use gpr.Machine.{Ptr, null, World, done, Returns}
use gpr.Err.{ok, invalid_parameter, memory_failure, gpr_err_raise, codes}
use gpr.Seq.{Op, push_front, push_back, insert, replace, remove, pop_front, step, run, Shows}
use gpr.Dlklist.{
  Dl, Nodes, set_prev, set_next, free_node, new_node, gpr_dlklist_node_next, gpr_dlklist_node_prev,
  search_node_by_position, walk_prev, walk_next,
}
use gpr.Dlklist.Ops.{
  gpr_dlklist_free, gpr_dlklist_push_front, gpr_dlklist_push_back, gpr_dlklist_insert,
  gpr_dlklist_pop_front, gpr_dlklist_remove, gpr_dlklist_replace, remove_inside,
}
use gpr.Dlklist.Image.{Cells, Fresh}
use gpr.Dlklist.Link.{list_world}
use gpr.Dlklist.Contract.{Holds}
use gpr.Dlklist.Refine.{call, dlklist_refines}
use gpr.Dlklist.Runs.{calls_of, dlklist_runs, Ran}
use gpr.Dlklist.Visit.{
  FindsNode, gpr_dlklist_map, gpr_dlklist_search, dlklist_map-calls, dlklist_search-Finds,
  dlklist_free-calls,
}

abbrev nothing : Nodes
nothing p = none

abbrev cells : Cells
cells = (10, 7) ∷ (20, 8) ∷ (30, 9) ∷ []

abbrev three : World Dl
three = list_world nothing [] [] cells

cells-Fresh : Fresh nothing cells
cells-Fresh = (
  omega arith,
  omega arith,
  refl,
  refl,
  (omega arith, omega arith, refl, refl, (omega arith, omega arith, refl, refl, tt)),
)

three-Holds : Holds nothing three.heap (7 ∷ 8 ∷ 9 ∷ [])
three-Holds = (cells, refl, cells-Fresh, refl)

dlklist_refines_example :
    Returns
      (Shows (Holds nothing) (ok, record { items = 7 ∷ 5 ∷ 8 ∷ 9 ∷ []; msg = []; calls = [] }))
      (call false true 1 40 (insert 5 1) three)
unfolding step
dlklist_refines_example =
    dlklist_refines nothing false true 1 (omega arith) 40 (insert 5 1) three (7 ∷ 8 ∷ 9 ∷ [])
      (inr (omega arith, omega arith)) (omega arith) (λ ne. refl) three-Holds

abbrev script : List (Op × Ptr)
script =
    (push_back 5, 40)
    ∷ (pop_front, null)
    ∷ (insert 6 9, 10)
    ∷ (remove 1, null)
    ∷ (replace 4 0, null)
    ∷ (push_front 3, null)
    ∷ []

dlklist_runs_example :
    Returns
      (Ran nothing (
        ok ∷ ok ∷ invalid_parameter ∷ ok ∷ ok ∷ memory_failure ∷ [],
        record { items = 4 ∷ 5 ∷ []; msg = codes "Node allocation failed"; calls = 7 ∷ 9 ∷ 8 ∷ [] },
      ))
      (calls_of true true 1 script three)
unfolding run step call gpr_dlklist_push_back gpr_dlklist_push_front new_node set_next set_prev
    gpr_err_raise gpr_dlklist_pop_front gpr_dlklist_node_next free_node gpr_dlklist_insert
    gpr_dlklist_remove remove_inside search_node_by_position walk_prev gpr_dlklist_node_prev
    gpr_dlklist_replace walk_next
dlklist_runs_example =
    dlklist_runs nothing true true 1 (omega arith) script three (7 ∷ 8 ∷ 9 ∷ [])
      (inl refl, (tt, (inl refl, (inl refl, (inl refl, (inl refl, tt)))))) (omega arith)
      (
        λ ne. refl,
        (
          λ ne. refl,
          (
            λ ne. refl,
            (λ ne. absurd (ne refl), (λ ne. absurd (ne refl), (λ ne. absurd (ne refl), tt))),
          ),
        ),
      )
      three-Holds

dlklist_map-calls_example :
    gpr_dlklist_map true true 1 three ≡ done tt (record three { calls = 7 ∷ 8 ∷ 9 ∷ [] })
dlklist_map-calls_example =
    dlklist_map-calls nothing true 1 three (7 ∷ 8 ∷ 9 ∷ []) (omega arith) three-Holds

dlklist_search-Finds_example :
    Returns
      (λ r w. FindsNode (λ p. p == 8) cells r × (w ≡ three))
      (gpr_dlklist_search false (some (λ p. p == 8)) 1 three)
dlklist_search-Finds_example =
    dlklist_search-Finds nothing (λ p. p == 8) false 1 three cells (omega arith) (omega arith) refl
      cells-Fresh

dlklist_free-calls_example :
    gpr_dlklist_free true true 1 three
    ≡ done tt (record {
      msg = [];
      calls = 7 ∷ 8 ∷ 9 ∷ [];
      heap = record { list = none; nodes = nothing };
    })
dlklist_free-calls_example =
    dlklist_free-calls nothing true true 1 three (7 ∷ 8 ∷ 9 ∷ []) (omega arith) three-Holds
