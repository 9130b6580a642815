-- ===== src/Klist/Tests.antt =====
-- The theorems on circular lists at a concrete list.
use gpr.Base.{
  ◌≡◌, ◌<◌, refl, [], ◌∷◌, ◌++◌, none, some, Bool, true, false, arith, ◌==◌, if◌then◌else◌,
}
use gpr.Machine.{Ptr, World, done, Cmd, Returns, ◌>>◌, pure}
use gpr.Klist.{
  Entries, gpr_klist_push_front, gpr_klist_push_back, gpr_klist_delete, gpr_klist_is_empty, forward,
  backward, size_max, member_of, gpr_klist_for_each_entry_safe, each_container_safe, list_del_entry,
  set_prev, set_next,
}
use gpr.Err.{gpr_err_raise}
use gpr.Klist.Chain.{has, Ring}
use gpr.Klist.Edit.{Left, klist_push-Ring}
use gpr.Klist.Delete.{Deleted, klist_delete-Deleted}
use gpr.Klist.Visit.{Steady}
use gpr.Klist.Loops.{
  for_each, for_each_entry, for_each_entry_safe, klist_for_each-in_order,
  klist_for_each_entry-in_order, klist_for_each_entry_safe-in_order, klist_is_empty-Ring,
}

-- The head is entry 100; 200 and 300 are in the list and 400 is not.
abbrev entries : Entries
entries p =
    if p == 100
    then some (record { prev = 300; next = 200 })
    else if p == 200
    then some (record { prev = 100; next = 300 })
    else if p == 300
    then some (record { prev = 200; next = 100 })
    else if p == 400
    then some (record { prev = 400; next = 400 })
    else none

abbrev here : World Entries
here = record { msg = []; calls = []; heap = entries }

two-Ring : Ring entries 100 (200 ∷ 300 ∷ [])
two-Ring = (
  ((refl, refl), ((refl, refl), (refl, refl))),
  ((λ e. omega arith), refl, ((λ e. omega arith), refl, ((λ e. omega arith), refl, tt))),
)

klist_push-Ring_example :
    Left here 400 100
      (200 ∷ 300 ∷ [])
      (400 ∷ 200 ∷ 300 ∷ [])
      (gpr_klist_push_front true 400 100 here)
    × Left here 400 100
        (200 ∷ 300 ∷ [])
        (200 ∷ 300 ∷ 400 ∷ [])
        (gpr_klist_push_back true 400 100 here)
klist_push-Ring_example =
    klist_push-Ring true here 400 100 (200 ∷ 300 ∷ []) two-Ring (λ e. omega arith) (_, refl) refl

klist_delete-Deleted_example : Deleted here 300 100 (200 ∷ []) [] (gpr_klist_delete false 300 here)
klist_delete-Deleted_example = klist_delete-Deleted false here 300 100 (200 ∷ []) [] two-Ring

klist_is_empty-Ring_example : gpr_klist_is_empty true 100 here ≡ done false here
klist_is_empty-Ring_example = klist_is_empty-Ring true here 100 (200 ∷ 300 ∷ []) two-Ring

-- A body that notes where it is run.
abbrev note : Ptr → Cmd Entries (Unit {0})
note p w = done tt (record w { calls = w.calls ++ (p ∷ []) })

note-Steady : (safe : Bool) → Steady safe backward 100 note (300 ∷ 200 ∷ []) here
note-Steady safe = (_, refl, (_, refl), (λ r i. refl), (_, refl, (_, refl), (λ r i. refl), tt))

klist_for_each-in_order_example :
    for_each backward note 3 100 here ≡ done tt (record here { calls = 300 ∷ 200 ∷ [] })
klist_for_each-in_order_example =
    klist_for_each-in_order backward note 3 100 here (200 ∷ 300 ∷ []) two-Ring (omega arith)
      (note-Steady false)

small : (r : Ptr) → has r (100 ∷ 200 ∷ 300 ∷ []) ≡ true → r < size_max
small r i = ground arith

klist_for_each_entry-in_order_example :
    for_each_entry forward note 3 100 8 here ≡ done tt (record here { calls = 192 ∷ 292 ∷ [] })
klist_for_each_entry-in_order_example =
    klist_for_each_entry-in_order forward note 3 100 here (200 ∷ 300 ∷ []) two-Ring 8 (omega arith)
      small (omega arith)
      (_, refl, (_, refl), (λ r i. refl), (_, refl, (_, refl), (λ r i. refl), tt))

klist_for_each_entry_safe-in_order_example :
    for_each_entry_safe backward note 4 100 8 here
    ≡ done tt (record here { calls = 292 ∷ 192 ∷ [] })
klist_for_each_entry_safe-in_order_example =
    klist_for_each_entry_safe-in_order backward note 4 100 here (200 ∷ 300 ∷ []) two-Ring 8
      (omega arith) small (omega arith)
      (_, refl, (_, refl), (λ r i. refl), (_, refl, (_, refl), (λ r i. refl), tt))

-- A safe loop whose body deletes the entry empties the list.
abbrev drain : Ptr → Cmd Entries (Unit {0})
drain p = gpr_klist_delete false (member_of 8 p) >> pure tt

abbrev emptied : Cmd Entries Bool
emptied = for_each_entry_safe forward drain 4 100 8 >> gpr_klist_is_empty false 100

drain-empties : Returns (λ b w. b ≡ true) (emptied here)
unfolding gpr_klist_delete gpr_klist_is_empty gpr_klist_for_each_entry_safe each_container_safe
    list_del_entry set_prev set_next gpr_err_raise
drain-empties = refl
