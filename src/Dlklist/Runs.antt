-- ===== src/Dlklist/Runs.antt =====
-- Any number of calls on a doubly linked list.
use mathlib.Core.Path.{subst}
use gpr.Base.{◌+◌, ◌<◌, ◌≡◌, ◌≢◌, refl, List, [], ◌∷◌, arith, length, map, Bool}
use gpr.Machine.{Ptr, null, World, Cmd, Returns, Returns-bind, Returns-After, After, pure, ◌>>=◌}
use gpr.Err.{GprErr}
use gpr.Seq.{State, Reply, Shows, LegalRun, Op, step, run, state_of}
use gpr.Seq.Laws.{step_grows}
use gpr.Dlklist.{Dl, Nodes, size_max}
use gpr.Dlklist.Link.{dlklist_traits}
use gpr.Dlklist.Contract.{granted, Holds}
use gpr.Dlklist.Refine.{call, Unoccupied, dlklist_refines}

-- The codes of a client's calls, each with what `malloc` answers.
unfoldable pub calls_of : Bool → Bool → Ptr → List (Op × Ptr) → Cmd Dl (List GprErr)
unfolding call
calls_of debug data_free list [] = pure []
calls_of debug data_free list ((op, fresh) ∷ ops) = do
  e ← call debug data_free list fresh op
  es ← calls_of debug data_free list ops
  pure (e ∷ es)

abbrev pub answers : List (Op × Ptr) → List (Op × Bool)
answers = map (λ (op, fresh). (op, granted fresh))

-- At each call `malloc` returns no address in use.
abbrev pub Mallocs : Bool → Bool → Ptr → List (Op × Ptr) → World Dl → Type 0
Mallocs debug data_free list [] w = Unit
Mallocs debug data_free list ((op, fresh) ∷ ops) w =
    Unoccupied w.heap fresh
    × After (call debug data_free list fresh op w) (Mallocs debug data_free list ops)

-- The codes of a run, and the world that it leaves.
abbrev pub Ran : Nodes → List GprErr × State → List GprErr → World Dl → Type 0
Ran base (codes, s) es w =
    (es ≡ codes) × Holds base w.heap s.items × (w.msg ≡ s.msg) × (w.calls ≡ s.calls)

module _ (base : Nodes) (debug data_free : Bool) (list : Ptr) (list_valid : list ≢ null) where
  calls_from :
      (ops : List (Op × Ptr)) (w : World Dl) (s : State)
      → w.msg ≡ s.msg
      → w.calls ≡ s.calls
      → LegalRun dlklist_traits debug data_free s (answers ops)
      → length s.items + length ops < size_max
      → Mallocs debug data_free list ops w
      → Holds base w.heap s.items
      → Returns
          (Ran base (run dlklist_traits debug data_free s (answers ops)))
          (calls_of debug data_free list ops w)
  unfolding calls_of run
  calls_from [] w s m c legal room free v = (refl, v, m, c)
  calls_from ((op, fresh) ∷ ops) w s m c (legal, rest) room (free, later) v =
      Returns-bind (λ e w'. Shows (Holds base) s' e w' × Mallocs debug data_free list ops w') _
        (call debug data_free list fresh op w) _ (Returns-After _ _ _ first later)
        λ e w' (shown, free').
          Returns-bind (Ran base (run dlklist_traits debug data_free s'.1 (answers ops))) _
            (calls_of debug data_free list ops w') _
            (calls_from ops w' s'.1 shown.message shown.log rest
              (omega (arith, step_grows dlklist_traits debug (granted fresh) data_free s op)) free'
              shown.holds)
            λ es w'' ran. (cc (shown.code, ran.0), ran.1, ran.2, ran.3)
    where
      s' : Reply
      s' = step dlklist_traits debug (granted fresh) data_free s op

      same : state_of w s.items ≡ s
      same = λ i. record { items = s.items; msg = m i; calls = c i }

      first : Returns (Shows (Holds base) s') (call debug data_free list fresh op w)
      first =
          subst
            (λ t.
              Returns
                (Shows (Holds base) (step dlklist_traits debug (granted fresh) data_free t op))
                (call debug data_free list fresh op w))
            same
            (dlklist_refines base debug data_free list list_valid fresh op w s.items legal
              (omega arith) free v)

  -- No sequence of calls tells a doubly linked list from the abstract sequence: the codes, the items,
  -- the message and the calls of the callback agree, and the heap always holds exactly the nodes of
  -- the items over what it held before. The handle is not `NULL`, `malloc` returns no address in use,
  -- the count of an element a call fits in a `size_t`, and outside of a debug build each call is
  -- legal for the sequence at that point.
  pub dlklist_runs :
      (ops : List (Op × Ptr)) (w : World Dl) (items : List Ptr)
      → LegalRun dlklist_traits debug data_free (state_of w items) (answers ops)
      → length items + length ops < size_max
      → Mallocs debug data_free list ops w
      → Holds base w.heap items
      → Returns
          (Ran base (run dlklist_traits debug data_free (state_of w items) (answers ops)))
          (calls_of debug data_free list ops w)
  dlklist_runs ops w items legal room free v =
      calls_from ops w (state_of w items) refl refl legal room free v
