-- ===== src/Dlklist/Refine.antt =====
-- A doubly linked list behaves as the sequence of its elements: one call, and any number of calls.
use mathlib.Core.Path.{subst}
use gpr.Base.{
  ℕ, ◌+◌, ◌-◌, ◌<◌, ◌≡◌, ◌≢◌, refl, sym, ap, ◌∙◌, List, [], ◌∷◌, ◌++◌, none, Bool, false, ◌==◌,
  ne→not-==, eq→==, arith, length, length-append, and-false, Bool-cases, inl, inr, le→not-leb, leb,
  not-leb→lt, leb→le, le→leb, split_elem, set, set-length_append, get_elem?-length_append,
}
use gpr.Machine.{Ptr, null, World, Run, done, Cmd, Returns}
use gpr.Err.{GprErr, ok, ko, invalid_parameter}
use gpr.Seq.{
  Shows, Legal, Op, push_front, push_back, insert, replace, remove, pop_front, pop_back, step,
  state_of, take_out, add, freed, item,
}
use gpr.Dlklist.{Dl, Nodes, size_max}
use gpr.Dlklist.Ops.{
  gpr_dlklist_push_front, gpr_dlklist_push_back, gpr_dlklist_insert, gpr_dlklist_pop_front,
  gpr_dlklist_pop_back, gpr_dlklist_remove, gpr_dlklist_replace,
}
use gpr.Dlklist.Image.{Cells, items_of, has, image, Fresh, dl, length-items_of, items_of-append}
use gpr.Dlklist.Link.{list_world, dlklist_traits, item_short, index_short, empty_short}
use gpr.Dlklist.Clear.{replace-eq, Fresh-replace}
use gpr.Dlklist.Contract.{state, granted, Holds, raise-Shows}
use gpr.Dlklist.Push.{HasRoom}
use gpr.Dlklist.Add.{Unused, item_cases, push_front_refines, push_back_refines}
use gpr.Dlklist.Insert.{insert_refines}
use gpr.Dlklist.Take.{pop_front_refines, pop_back_refines, remove_refines, none_left}

-- A client's call.
unfoldable pub call : Bool → Bool → Ptr → Ptr → Op → Cmd Dl GprErr
call debug data_free list fresh (push_front x) = gpr_dlklist_push_front debug fresh list x
call debug data_free list fresh (push_back x) = gpr_dlklist_push_back debug fresh list x
call debug data_free list fresh (insert x i) = gpr_dlklist_insert debug fresh list x i
call debug data_free list fresh (replace x i) = gpr_dlklist_replace debug data_free list x i
call debug data_free list fresh (remove i) = gpr_dlklist_remove debug data_free list i
call debug data_free list fresh pop_front = gpr_dlklist_pop_front debug data_free list
call debug data_free list fresh pop_back = gpr_dlklist_pop_back debug data_free list

-- What `malloc` returns is `NULL` or the address of no node in use.
abbrev pub Unoccupied : Dl → Ptr → Type 0
Unoccupied h fresh = fresh ≢ null → h.nodes fresh ≡ none

unlisted :
    (base : Nodes) (b : Ptr) (xs : Cells) (r : Ptr)
    → image base b null xs r ≡ none
    → (has r xs ≡ false) × (base r ≡ none)
unlisted base b [] r e = (refl, e)
unlisted base b ((p, d) ∷ xs) r e = elim (Bool-cases (r == p)) [
  | inl t ↦ ground (arith)
  | inr f ↦ let (out, free) = unlisted base p xs r (ground arith) in (rw (f, out) refl, free)
]

module _ (base : Nodes) (debug data_free : Bool) (list : Ptr) (list_valid : list ≢ null)
    (fresh : Ptr) (msg : List ℕ) (calls : List Ptr) where
  abbrev Steps : Cells → Op → Run Dl GprErr → Type 0
  Steps xs op r =
      Returns
        (Shows (Holds base)
          (step dlklist_traits debug (granted fresh) data_free (state (items_of xs) msg calls) op))
        r

  -- Outside of a debug build a position past the end is met on an empty list alone.
  remove_from_none :
      (xs : Cells) (i : ℕ)
      → items_of xs ≡ []
      → Fresh base xs
      → debug ≡ false
      → Steps xs
          (remove i)
          (gpr_dlklist_remove debug data_free list i (list_world base msg calls xs))
  unfolding step gpr_dlklist_remove
  remove_from_none [] i e v f =
      rw (ne→not-== list null list_valid, f)
        (none_left base false (granted fresh) data_free list msg calls list_valid i)
  remove_from_none (x ∷ xs) i e v f = absurd (omega (arith, ap length e))

  remove-Steps :
      (xs : Cells) (i : ℕ)
      → Legal debug (items_of xs) (remove i)
      → length xs < size_max
      → Fresh base xs
      → Steps xs
          (remove i)
          (gpr_dlklist_remove debug data_free list i (list_world base msg calls xs))
  unfolding step gpr_dlklist_remove
  remove-Steps xs i h room v = elim (Bool-cases (leb (length (items_of xs)) i)) [
    | inr near ↦
        rw (near, and-false debug)
          (remove_refines base debug (granted fresh) data_free list msg calls list_valid xs i
            (omega (arith, not-leb→lt _ _ near, length-items_of xs)) room v)
    | inl far ↦ elim (Bool-cases debug) [
      | inl t ↦
          rw (t, far, ne→not-== list null list_valid)
            (rw (le→leb (length xs) i (omega (arith, leb→le _ _ far, length-items_of xs))) (
              raise-Shows base debug data_free msg calls invalid_parameter "Invalid position" xs _
                refl index_short v))
      | inr f ↦ remove_from_none xs i (ground (arith, leb→le _ _ far)) v f
    ]
  ]

  replace_in_none :
      (xs : Cells) (x : Ptr) (i : ℕ)
      → items_of xs ≡ []
      → x ≢ null
      → Fresh base xs
      → debug ≡ false
      → Steps xs
          (replace x i)
          (gpr_dlklist_replace debug data_free list x i (list_world base msg calls xs))
  unfolding step gpr_dlklist_replace
  replace_in_none [] x i e nx v f =
      rw (ne→not-== list null list_valid, ne→not-== x null nx, f)
        (raise-Shows base debug data_free msg calls ko "Empty list" [] _ refl empty_short tt)
  replace_in_none (x ∷ xs) y i e nx v f = absurd (omega (arith, ap length e))

  replace_at :
      (xs ys zs : Cells) (p d x : Ptr) (i : ℕ)
      → xs ≡ ys ++ ((p, d) ∷ zs)
      → length ys ≡ i
      → x ≢ null
      → length xs < size_max
      → Fresh base xs
      → Steps xs
          (replace x i)
          (gpr_dlklist_replace debug data_free list x i (list_world base msg calls xs))
  unfolding step
  replace_at xs ys zs p d x i split l nx room v =
      rw (ran, ne→not-== x null nx, and-false debug)
        (rw
          (
            le→not-leb (length (items_of xs)) i within,
            and-false debug,
            ne→not-== (length (items_of xs)) 0 (omega (arith, within)),
          )
          (record {
            code = refl;
            holds = (
              ys ++ ((p, x) ∷ zs),
              refl,
              Fresh-replace base ys zs p d x nx (subst (Fresh base) split v),
              changed,
            );
            message = refl;
            log = ap (λ us. calls ++ freed data_free us) (sym at_i);
          }))
    where
      ran :
          gpr_dlklist_replace debug data_free list x i (list_world base msg calls xs)
          ≡ done ok (list_world base msg (calls ++ freed data_free (d ∷ [])) (ys ++ ((p, x) ∷ zs)))
      ran =
          rw (split, ← l)
            (replace-eq base debug data_free list msg list_valid calls ys zs p d x
              (subst (Fresh base) split v) nx (subst (λ ws. length ws < size_max) split room))

      within : i < length (items_of xs)
      within = omega (arith, length-items_of xs, l, ap length split, length-append ys ((p, d) ∷ zs))

      at : length (items_of ys) ≡ i
      at = length-items_of ys ∙ l

      changed : items_of (ys ++ ((p, x) ∷ zs)) ≡ set (items_of xs) i x
      changed =
          rw
            (
              split,
              items_of-append ys ((p, x) ∷ zs),
              items_of-append ys ((p, d) ∷ zs),
              ← at,
              set-length_append (items_of ys) (items_of zs) d x,
            )
            refl

      at_i : item (items_of xs) i ≡ d ∷ []
      at_i =
          rw
            (
              split,
              items_of-append ys ((p, d) ∷ zs),
              ← at,
              item,
              get_elem?-length_append (items_of ys) (items_of zs) d,
            )
            refl

  replace-Steps :
      (xs : Cells) (x : Ptr) (i : ℕ)
      → Legal debug (items_of xs) (replace x i)
      → length xs < size_max
      → Fresh base xs
      → Steps xs
          (replace x i)
          (gpr_dlklist_replace debug data_free list x i (list_world base msg calls xs))
  unfolding step gpr_dlklist_replace
  replace-Steps xs x i h room v = elim (item_cases debug x (ground arith)) [
    | inl (t, e) ↦
        rw (t, ne→not-== list null list_valid, eq→== x null e)
          (raise-Shows base debug data_free msg calls invalid_parameter "Invalid data" xs _ refl
            item_short v)
    | inr nx ↦ elim (Bool-cases (leb (length (items_of xs)) i)) [
      | inr near ↦
          let (ys, (p, d), zs, e, l) =
            split_elem xs i (omega (arith, not-leb→lt _ _ near, length-items_of xs)) in
          replace_at xs ys zs p d x i e l nx room v
      | inl far ↦ elim (Bool-cases debug) [
        | inl t ↦
            rw (t, far, ne→not-== list null list_valid, ne→not-== x null nx)
              (rw (le→leb (length xs) i (omega (arith, leb→le _ _ far, length-items_of xs))) (
                raise-Shows base debug data_free msg calls invalid_parameter "Invalid position" xs _
                  refl index_short v))
        | inr f ↦ replace_in_none xs x i (ground (arith, leb→le _ _ far)) nx v f
      ]
    ]
  ]

  call-Steps :
      (op : Op) (xs : Cells)
      → Legal debug (items_of xs) op
      → Unused base xs fresh
      → HasRoom xs
      → Fresh base xs
      → Steps xs op (call debug data_free list fresh op (list_world base msg calls xs))
  unfolding call step
  call-Steps (push_front x) xs h free room v =
      push_front_refines base debug data_free fresh list x msg calls list_valid xs h free room v
  call-Steps (push_back x) xs h free room v =
      subst
        (λ n.
          Returns
            (Shows (Holds base) (
              add dlklist_traits debug (granted fresh) data_free (state (items_of xs) msg calls) x
                n))
            (gpr_dlklist_push_back debug fresh list x (list_world base msg calls xs)))
        (sym (length-items_of xs))
        (push_back_refines base debug data_free fresh list x msg calls list_valid xs h free room v)
  call-Steps (insert x i) xs h free room v =
      insert_refines base debug data_free fresh list x msg calls list_valid xs i
        (ground (arith, length-items_of xs)) free room v
  call-Steps (replace x i) xs h free room v = replace-Steps xs x i h (omega arith) v
  call-Steps (remove i) xs h free room v = remove-Steps xs i h (omega arith) v
  call-Steps pop_front xs h free room v =
      pop_front_refines base debug (granted fresh) data_free list msg calls list_valid xs v
  call-Steps pop_back xs h free room v =
      subst
        (λ n.
          Returns
            (Shows (Holds base) (
              take_out dlklist_traits debug (granted fresh) data_free
                (state (items_of xs) msg calls) (n - 1)))
            (gpr_dlklist_pop_back debug data_free list (list_world base msg calls xs)))
        (sym (length-items_of xs))
        (pop_back_refines base debug (granted fresh) data_free list msg calls list_valid xs v)

module _ (base : Nodes) (debug data_free : Bool) (list : Ptr) (list_valid : list ≢ null) where
  call_at :
      (fresh : Ptr) (op : Op) (msg : List ℕ) (calls items : List Ptr) (h : Dl) (xs : Cells)
      → h ≡ dl base xs
      → items_of xs ≡ items
      → Fresh base xs
      → Legal debug items op
      → length items + 1 < size_max
      → Unoccupied h fresh
      → Returns
          (Shows
            (Holds base)
            (step dlklist_traits debug (granted fresh) data_free (state items msg calls) op))
          (call debug data_free list fresh op (record { msg = msg; calls = calls; heap = h }))
  call_at fresh op msg calls items h xs at same v legal room free = rw at (
      subst
        (λ us.
          Legal debug us op
          → Returns
              (Shows (Holds base)
                (step dlklist_traits debug (granted fresh) data_free (state us msg calls) op))
              (call debug data_free list fresh op (list_world base msg calls xs)))
        same
        (λ legal'.
          call-Steps base debug data_free list list_valid fresh msg calls op xs legal'
            (λ nf. unlisted base null xs fresh (subst (λ g. g.nodes fresh ≡ none) at (free nf)))
            (omega (arith, room, ap length same, length-items_of xs)) v)
        legal)

  -- Every operation of a doubly linked list returns, without a fault and within its fuel, the code of
  -- the abstract sequence, and leaves a heap that holds exactly the nodes of its items and, elsewhere,
  -- what it held: no node is lost, freed twice or left dangling. The error message and the calls of
  -- the callback agree too: on success, on an empty list, on a refused allocation, and in a debug
  -- build on a bad argument. The handle is not `NULL`, `malloc` returns no address in use, the count
  -- of one more element fits in a `size_t`, and outside of a debug build the client passes no `NULL`
  -- item and no position out of range.
  pub dlklist_refines :
      (fresh : Ptr) (op : Op) (w : World Dl) (items : List Ptr)
      → Legal debug items op
      → length items + 1 < size_max
      → Unoccupied w.heap fresh
      → Holds base w.heap items
      → Returns
          (Shows
            (Holds base)
            (step dlklist_traits debug (granted fresh) data_free (state_of w items) op))
          (call debug data_free list fresh op w)
  dlklist_refines fresh op w items legal room free (xs, at, v, same) =
      call_at fresh op w.msg w.calls items w.heap xs at same v legal room free
