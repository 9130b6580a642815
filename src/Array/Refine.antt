-- ===== src/Array/Refine.antt =====
-- An array behaves as the sequence of its elements: one call, and any number of calls.
use mathlib.Core.Path.{subst}
use gpr.Base.{
  ℕ, ◌+◌, ◌<◌, ◌≡◌, ◌≢◌, refl, List, [], ◌∷◌, none, some, Bool, false, arith, length, map, leb, inl,
  inr, Bool-cases, ne→not-==, and-false, le→leb, leb→le, not-leb→lt, eq→==,
}
use gpr.Machine.{Ptr, null, World, Cmd, Returns, Returns-bind, pure, ◌>>=◌}
use gpr.Err.{GprErr, invalid_parameter}
use gpr.Seq.{
  State, Reply, Shows, Legal, LegalRun, Op, push_front, push_back, insert, replace, remove,
  pop_front, pop_back, step, run, state_of,
}
use gpr.Seq.Laws.{step_grows}
use gpr.Array.{
  GprArray, Arr, Alloc, gpr_array_push_front, gpr_array_push_back, gpr_array_insert,
  gpr_array_pop_front, gpr_array_pop_back, gpr_array_remove, gpr_array_replace,
}
use gpr.Array.Block.{max_cells}
use gpr.Array.Inv.{IsArray, Holds, HasRoom, world, array_traits, index_short}
use gpr.Array.Insert.{state, raise-Shows, push_front_refines, push_back_refines, insert_refines}
use gpr.Array.Remove.{pop_front_refines, pop_back_refines, remove_at_index, none_left}
use gpr.Array.Replace.{replace_refines}

-- A client's call.
unfoldable pub call : Bool → Bool → Ptr → Alloc → Op → Cmd Arr GprErr
call debug elem_free arr alloc (push_front x) = gpr_array_push_front debug alloc arr x
call debug elem_free arr alloc (push_back x) = gpr_array_push_back debug alloc arr x
call debug elem_free arr alloc (insert x i) = gpr_array_insert debug alloc arr x i
call debug elem_free arr alloc (replace x i) = gpr_array_replace debug elem_free arr x i
call debug elem_free arr alloc (remove i) = gpr_array_remove debug alloc elem_free arr i
call debug elem_free arr alloc pop_front = gpr_array_pop_front debug alloc elem_free arr
call debug elem_free arr alloc pop_back = gpr_array_pop_back debug alloc elem_free arr

unfoldable pub calls_of : Bool → Bool → Ptr → List (Op × Alloc) → Cmd Arr (List GprErr)
unfolding call
calls_of debug elem_free arr [] = pure []
calls_of debug elem_free arr ((op, alloc) ∷ ops) = do
  e ← call debug elem_free arr alloc op
  es ← calls_of debug elem_free arr ops
  pure (e ∷ es)

-- The allocator's answers, as the sequence sees them.
abbrev pub answers : List (Op × Alloc) → List (Op × Bool)
answers = map (λ (op, alloc). (op, alloc.granted))

-- The codes of a run, and the world that it leaves.
abbrev pub Ran : List GprErr × State → List GprErr → World Arr → Type 0
Ran (codes, s) es w = (es ≡ codes) × Holds w.heap s.items × (w.msg ≡ s.msg) × (w.calls ≡ s.calls)

module _ (debug elem_free : Bool) (arr : Ptr) (arr_valid : arr ≢ null) where
  remove_from_none :
      (alloc : Alloc) (a : GprArray) (msg : List ℕ) (calls xs : List Ptr) (i : ℕ)
      → debug ≡ false
      → xs ≡ []
      → IsArray a xs
      → Returns
          (Shows Holds
            (step array_traits debug alloc.granted elem_free (state xs msg calls) (remove i)))
          (gpr_array_remove debug alloc elem_free arr i (world msg calls a))
  unfolding step gpr_array_remove
  remove_from_none alloc a msg calls xs i d e v =
      let v' : IsArray a [] = subst (IsArray a) e v in
      rw (d, e, ne→not-== arr null arr_valid)
        (rw (eq→== a.size 0 v'.size)
          (none_left debug alloc elem_free arr a msg calls arr_valid i v'))

  remove_refines :
      (alloc : Alloc) (a : GprArray) (msg : List ℕ) (calls xs : List Ptr) (i : ℕ)
      → Legal debug xs (remove i)
      → IsArray a xs
      → Returns
          (Shows Holds
            (step array_traits debug alloc.granted elem_free (state xs msg calls) (remove i)))
          (gpr_array_remove debug alloc elem_free arr i (world msg calls a))
  unfolding step gpr_array_remove
  remove_refines alloc a msg calls xs i h v = elim (Bool-cases (leb (length xs) i)) [
    | inr near ↦
        rw (near, and-false debug)
          (remove_at_index debug alloc elem_free arr a msg calls arr_valid xs i
            (not-leb→lt _ _ near) v)
    | inl far ↦ elim (Bool-cases debug) [
      | inl d ↦
          rw (d, far, ne→not-== arr null arr_valid)
            (rw (le→leb a.size i (omega (arith, v.size, leb→le (length xs) i far)))
              (raise-Shows invalid_parameter "Invalid index" msg calls a xs index_short v))
      | inr d ↦
          remove_from_none alloc a msg calls xs i d (ground (arith, leb→le (length xs) i far)) v
    ]
  ]

  -- Any one call, at a valid array.
  call_of_array :
      (alloc : Alloc) (op : Op) (a : GprArray) (msg : List ℕ) (calls xs : List Ptr)
      → Legal debug xs op
      → HasRoom xs
      → IsArray a xs
      → Returns
          (Shows Holds (step array_traits debug alloc.granted elem_free (state xs msg calls) op))
          (call debug elem_free arr alloc op (world msg calls a))
  unfolding call step
  call_of_array alloc (push_front x) a msg calls xs h room v =
      push_front_refines debug alloc elem_free arr x a msg calls arr_valid xs h v room
  call_of_array alloc (push_back x) a msg calls xs h room v =
      push_back_refines debug alloc elem_free arr x a msg calls arr_valid xs h v room
  call_of_array alloc (insert x i) a msg calls xs h room v =
      insert_refines debug alloc elem_free arr x a msg calls arr_valid xs i h v room
  call_of_array alloc (replace x i) a msg calls xs h room v =
      replace_refines debug alloc.granted elem_free arr x a msg calls arr_valid xs i h v
  call_of_array alloc (remove i) a msg calls xs h room v = remove_refines alloc a msg calls xs i h v
  call_of_array alloc pop_front a msg calls xs h room v =
      pop_front_refines debug alloc elem_free arr a msg calls arr_valid xs v
  call_of_array alloc pop_back a msg calls xs h room v =
      pop_back_refines debug alloc elem_free arr a msg calls arr_valid xs v

  call_at :
      (alloc : Alloc) (op : Op) (msg : List ℕ) (calls xs : List Ptr) (h : Arr)
      → Legal debug xs op
      → HasRoom xs
      → Holds h xs
      → Returns
          (Shows Holds (step array_traits debug alloc.granted elem_free (state xs msg calls) op))
          (call debug elem_free arr alloc op (record { msg = msg; calls = calls; heap = h }))
  call_at alloc op msg calls xs none legal room v = absurd v
  call_at alloc op msg calls xs (some a) legal room v =
      call_of_array alloc op a msg calls xs legal room v

  -- Every operation of an array returns, without a fault, the code of the abstract sequence, and
  -- leaves the array holding its items, its error message and its calls of the callback: on success,
  -- on an empty array, on a refused allocation, and in a debug build on a bad argument. The handle is
  -- not `NULL`, one more element fits in memory, and outside of a debug build the client passes no
  -- `NULL` element and no index out of range.
  pub call_refines :
      (alloc : Alloc) (op : Op) (w : World Arr) (xs : List Ptr)
      → Legal debug xs op
      → HasRoom xs
      → Holds w.heap xs
      → Returns
          (Shows Holds (step array_traits debug alloc.granted elem_free (state_of w xs) op))
          (call debug elem_free arr alloc op w)
  call_refines alloc op w xs legal room v = call_at alloc op w.msg w.calls xs w.heap legal room v

  calls_from :
      (ops : List (Op × Alloc)) (w : World Arr) (s : State)
      → w.msg ≡ s.msg
      → w.calls ≡ s.calls
      → LegalRun array_traits debug elem_free s (answers ops)
      → length s.items + length ops < max_cells
      → Holds w.heap s.items
      → Returns
          (Ran (run array_traits debug elem_free s (answers ops)))
          (calls_of debug elem_free arr ops w)
  unfolding calls_of run
  calls_from [] w s m c legal room v = (refl, v, m, c)
  calls_from ((op, alloc) ∷ ops) w s m c (legal, rest) room v =
      Returns-bind (Shows Holds s') _ (call debug elem_free arr alloc op w) _ first λ e w' done.
        Returns-bind (Ran (run array_traits debug elem_free s'.1 (answers ops))) _
          (calls_of debug elem_free arr ops w') _
          (calls_from ops w' s'.1 done.message done.log rest
            (omega (arith, step_grows array_traits debug alloc.granted elem_free s op)) done.holds)
          λ es w'' ran. (cc (done.code, ran.0), ran.1, ran.2, ran.3)
    where
      s' : Reply
      s' = step array_traits debug alloc.granted elem_free s op

      same : state_of w s.items ≡ s
      same = λ i. record { items = s.items; msg = m i; calls = c i }

      first : Returns (Shows Holds s') (call debug elem_free arr alloc op w)
      first =
          subst
            (λ t.
              Returns (Shows Holds (step array_traits debug alloc.granted elem_free t op))
                (call debug elem_free arr alloc op w))
            same (call_refines alloc op w s.items legal (omega arith) v)

  -- No sequence of calls tells an array from the abstract sequence: the codes, the contents, the
  -- message and the calls of the callback agree. The handle is not `NULL`, there is memory for an
  -- element a call, and outside of a debug build each call is legal for the sequence at that point.
  pub calls_of_refines :
      (ops : List (Op × Alloc)) (w : World Arr) (xs : List Ptr)
      → LegalRun array_traits debug elem_free (state_of w xs) (answers ops)
      → length xs + length ops < max_cells
      → Holds w.heap xs
      → Returns
          (Ran (run array_traits debug elem_free (state_of w xs) (answers ops)))
          (calls_of debug elem_free arr ops w)
  calls_of_refines ops w xs legal room v = calls_from ops w (state_of w xs) refl refl legal room v
