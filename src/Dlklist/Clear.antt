-- ===== src/Dlklist/Clear.antt =====
-- gpr_dlklist_reset, gpr_dlklist_free, the removal of the only element, and gpr_dlklist_replace.
use mathlib.Core.Path.{fun_ext}
use gpr.Base.{
  ℕ, zero, suc, ◌+◌, ◌<◌, ◌≡◌, ◌≢◌, refl, sym, ap, ◌∙◌, List, [], ◌∷◌, ◌++◌, none, some, Bool, true,
  false, ne→not-==, eq→==, arith, length, length-append, and-false, Bool-cases, inl, inr,
  append_assoc, append-nil, le→not-leb,
}
use gpr.Machine.{Ptr, null, done, and_then}
use gpr.Err.{ok, gpr_err_raise}
use gpr.Seq.{freed}
use gpr.Dlklist.{DlList, Nodes, node, write, size_max, gpr_dlklist_node_has_data}
use gpr.Dlklist.Ops.{
  reset_loop, gpr_dlklist_reset, gpr_dlklist_pop_front, gpr_dlklist_pop_back, gpr_dlklist_replace,
}
use gpr.Dlklist.Image.{
  Cells, items_of, first, last, image, Fresh, first-append, last-append, has-append, image-not_has,
  image_at, image-view, Cell, Fresh-Cell, first-ne-null,
}
use gpr.Dlklist.Link.{
  world, list_world, list_of, load_node-eq, arrive, free_node-eq, node_next-eq, has_data-eq,
}
use gpr.Dlklist.Position.{search-eq}

freed-nil : (frees : Bool) → freed frees [] ≡ []
freed-nil true = refl
freed-nil false = refl

freed-cons :
    (frees : Bool) (d : Ptr) (xs : List Ptr)
    → freed frees (d ∷ []) ++ freed frees xs ≡ freed frees (d ∷ xs)
freed-cons true d xs = refl
freed-cons false d xs = refl

module _ (base : Nodes) (debug data_free : Bool) (list : Ptr) (msg : List ℕ)
    (list_valid : list ≢ null) where
  reset_loop-eq :
      (l : DlList) (calls : List Ptr) (b : Ptr) (xs : Cells) (fuel : ℕ)
      → Fresh base xs
      → length xs < fuel
      → reset_loop debug data_free fuel (first xs null) (world msg calls l (image base b null xs))
        ≡ done tt (world msg (calls ++ freed data_free (items_of xs)) l base)
  unfolding reset_loop gpr_dlklist_node_has_data
  reset_loop-eq l calls b xs zero v enough = absurd (omega arith)
  reset_loop-eq l calls b [] (suc fuel) v enough =
      ap (λ cs. done tt (world msg cs l base))
        (sym (append-nil calls) ∙ ap (λ us. calls ++ us) (sym (freed-nil data_free)))
  reset_loop-eq l calls b ((p, d) ∷ zs) (suc fuel) v enough =
      rw (has_data-eq msg calls l h p d b (first zs null) v.0 at_p v.1, and_then)
        (rw (node_next-eq msg calls l h p d b (first zs null) v.0 at_p, and_then)
          (rw
            (
              free_node-eq msg calls l h p d b (first zs null) v.0 at_p debug data_free v.1,
              and_then,
            )
            (rw (fun_ext unlinked) (
              reset_loop-eq l (calls ++ freed data_free (d ∷ [])) p zs fuel v.4 (omega arith)
              ∙ ap (λ cs. done tt (world msg cs l base))
                  (append_assoc calls (freed data_free (d ∷ [])) (freed data_free (items_of zs))
                    ∙ ap (λ us. calls ++ us) (freed-cons data_free d (items_of zs)))))))
    where
      h : Nodes
      h = image base b null ((p, d) ∷ zs)

      at_p : h p ≡ some (node d b (first zs null))
      at_p = rw (eq→== p p refl)

      gone : image base p null zs p ≡ none
      gone = image-not_has base p null zs p v.2 ∙ v.3

      unlinked : (r : Ptr) → write h p none r ≡ image base p null zs r
      unlinked r = ground (arith, gone)

  -- The heap is what it was without the list's nodes.
  pub reset-eq :
      (calls : List Ptr) (xs : Cells)
      → Fresh base xs
      → gpr_dlklist_reset debug data_free list (list_world base msg calls xs)
        ≡ done tt (list_world base msg (calls ++ freed data_free (items_of xs)) [])
  unfolding gpr_dlklist_reset reset_loop gpr_dlklist_node_has_data
  reset-eq calls [] v = elim (Bool-cases debug) [
    | inl t ↦ rw (ne→not-== list null list_valid, t, freed-nil data_free, append-nil calls) refl
    | inr f ↦
        rw (ne→not-== list null list_valid, f)
          (rw (reset_loop-eq (list_of []) calls null [] 1 tt (omega arith), and_then) refl)
  ]
  reset-eq calls ((p, d) ∷ zs) v =
      rw (ne→not-== list null list_valid, and-false debug)
        (rw (ne→not-== p null v.0, and-false debug)
          (rw
            (
              reset_loop-eq (list_of ((p, d) ∷ zs)) calls null ((p, d) ∷ zs)
                  (length ((p, d) ∷ zs) + 1) v (omega arith),
              and_then,
            )
            refl))

  pub pop_front-one :
      (calls : List Ptr) (p d : Ptr)
      → Fresh base ((p, d) ∷ [])
      → gpr_dlklist_pop_front debug data_free list (list_world base msg calls ((p, d) ∷ []))
        ≡ done ok (list_world base [] (calls ++ freed data_free (d ∷ [])) [])
  unfolding gpr_dlklist_pop_front gpr_err_raise
  pop_front-one calls p d v =
      rw (ne→not-== list null list_valid, and-false debug)
        (rw (ne→not-== p null v.0) (rw (reset-eq calls ((p, d) ∷ []) v, and_then) refl))

  pub pop_back-one :
      (calls : List Ptr) (p d : Ptr)
      → Fresh base ((p, d) ∷ [])
      → gpr_dlklist_pop_back debug data_free list (list_world base msg calls ((p, d) ∷ []))
        ≡ done ok (list_world base [] (calls ++ freed data_free (d ∷ [])) [])
  unfolding gpr_dlklist_pop_back gpr_err_raise
  pop_back-one calls p d v =
      rw (ne→not-== list null list_valid, and-false debug)
        (rw (ne→not-== p null v.0) (rw (reset-eq calls ((p, d) ∷ []) v, and_then) refl))

  pub replace-eq :
      (calls : List Ptr) (ys zs : Cells) (p d x : Ptr)
      → Fresh base (ys ++ ((p, d) ∷ zs))
      → x ≢ null
      → length (ys ++ ((p, d) ∷ zs)) < size_max
      → gpr_dlklist_replace debug data_free list x
          (length ys)
          (list_world base msg calls (ys ++ ((p, d) ∷ zs)))
        ≡ done ok (list_world base msg (calls ++ freed data_free (d ∷ [])) (ys ++ ((p, x) ∷ zs)))
  unfolding gpr_dlklist_replace
  replace-eq calls ys zs p d x v nx room =
      rw (ne→not-== list null list_valid, ne→not-== x null nx, and-false debug)
        (rw
          (
            le→not-leb (length (ys ++ ((p, d) ∷ zs))) (length ys)
                (omega (arith, length-append ys ((p, d) ∷ zs))),
            and-false debug,
          )
          (rw
            (ne→not-== (first (ys ++ ((p, d) ∷ zs)) null) null
              (first-ne-null base ys zs p d null v))
            (rw
              (
                search-eq base msg calls h ys zs p d v (λ r inside. refl) debug list list_valid
                    room,
                and_then,
              )
              (rw
                (
                  load_node-eq msg calls l h p d (last null ys) (first zs null) c.address at_p,
                  and_then,
                )
                (elim (Bool-cases data_free) [
                  | inl t ↦
                      rw (ne→not-== d null c.full, t)
                        (arrive base ok msg _ _ _ (ys ++ ((p, x) ∷ zs)) counted headed tailed
                          linked)
                  | inr f ↦
                      rw (ne→not-== d null c.full, f, append-nil calls)
                        (arrive base ok msg _ _ _ (ys ++ ((p, x) ∷ zs)) counted headed tailed
                          linked)
                ])))))
    where
      c : Cell base ys zs p d
      c = Fresh-Cell base ys zs p d v

      l : DlList
      l = list_of (ys ++ ((p, d) ∷ zs))

      h : Nodes
      h = image base null null (ys ++ ((p, d) ∷ zs))

      at_p : h p ≡ some (node d (last null ys) (first zs null))
      at_p = image_at base null null ys zs p d c.off_front

      linked :
          (r : Ptr)
          → write h p (some (node x (last null ys) (first zs null))) r
            ≡ image base null null (ys ++ ((p, x) ∷ zs)) r
      linked r =
          rw (image-view base null null ys zs p d r, image-view base null null ys zs p x r)
            (ground (arith, c.off_front))

      counted : length (ys ++ ((p, d) ∷ zs)) ≡ length (ys ++ ((p, x) ∷ zs))
      counted = length-append ys ((p, d) ∷ zs) ∙ sym (length-append ys ((p, x) ∷ zs))

      headed : first (ys ++ ((p, d) ∷ zs)) null ≡ first (ys ++ ((p, x) ∷ zs)) null
      headed = first-append ys ((p, d) ∷ zs) null ∙ sym (first-append ys ((p, x) ∷ zs) null)

      tailed : last null (ys ++ ((p, d) ∷ zs)) ≡ last null (ys ++ ((p, x) ∷ zs))
      tailed = last-append null ys ((p, d) ∷ zs) ∙ sym (last-append null ys ((p, x) ∷ zs))

-- The same addresses, with another item.
pub Fresh-replace :
    (base : Nodes) (ys zs : Cells) (p d x : Ptr)
    → x ≢ null
    → Fresh base (ys ++ ((p, d) ∷ zs))
    → Fresh base (ys ++ ((p, x) ∷ zs))
Fresh-replace base [] zs p d x nx v = (v.0, nx, v.2, v.3, v.4)
Fresh-replace base ((q, e) ∷ ys) zs p d x nx v = (
  v.0,
  v.1,
  ground (arith, v.2, has-append q ys ((p, d) ∷ zs), has-append q ys ((p, x) ∷ zs)),
  v.3,
  Fresh-replace base ys zs p d x nx v.4,
)
