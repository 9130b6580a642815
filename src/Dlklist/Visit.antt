-- ===== src/Dlklist/Visit.antt =====
-- gpr_dlklist_map and gpr_dlklist_search of src/gpr_dlklist.c, and gpr_dlklist_free.
use mathlib.Core.Path.{subst}
use gpr.Base.{
  ℕ, zero, suc, ◌+◌, ◌<◌, ◌%◌, ◌≡◌, ◌≢◌, ◌⊎◌, refl, sym, ap, ◌∙◌, List, [], ◌∷◌, ◌++◌, Option, none,
  some, Bool, true, false, ◌||◌, ◌&&◌, not, ◌==◌, if◌then◌else◌, ne→not-==, arith, length,
  length-append, and-false, Bool-cases, inl, inr, append_assoc, append-nil,
}
use gpr.Machine.{
  Ptr, null, World, done, Returns, and_then, Cmd, ◌>>=◌, ◌>>◌, pure, crash, out_of_fuel, call_back,
}
use gpr.Seq.{freed, NoneOf}
use gpr.Seq.Laws.{NoneOf-append}
use gpr.Dlklist.{
  Dl, DlList, Nodes, node, size_max, gpr_dlklist_get_size, gpr_dlklist_get_head,
  gpr_dlklist_node_has_data, gpr_dlklist_node_data, gpr_dlklist_node_next,
}
use gpr.Dlklist.Ops.{gpr_dlklist_free}
use gpr.Dlklist.Image.{Cells, items_of, first, last, image, Fresh, dl, items_of-append, Fresh-Cell}
use gpr.Dlklist.Link.{list_world, list_of, has_data-eq, node_data-eq, node_next-eq}
use gpr.Dlklist.Position.{node_of}
use gpr.Dlklist.Clear.{reset-eq}
use gpr.Dlklist.Contract.{Holds}

-- The loop of `gpr_dlklist_map`, on fuel. `data_map` is logged for each element.
unfoldable pub map_nodes : ℕ → Ptr → Cmd Dl (Unit {0})
map_nodes zero scout = λ _. out_of_fuel
map_nodes (suc fuel) scout = do
  more ← gpr_dlklist_node_has_data scout
  if more
      then (do
        d ← gpr_dlklist_node_data scout
        call_back d
        next ← gpr_dlklist_node_next scout
        map_nodes fuel next)
      else pure tt

-- `data_map` says whether the callback is given. A call through `NULL` is a fault.
unfoldable pub gpr_dlklist_map : Bool → Bool → Ptr → Cmd Dl (Unit {0})
unfolding gpr_dlklist_get_size gpr_dlklist_get_head
gpr_dlklist_map debug data_map list =
    if debug && ((list == null) || not data_map) then pure tt else do
      size ← gpr_dlklist_get_size list
      scout ← gpr_dlklist_get_head list
      more ← gpr_dlklist_node_has_data scout
      if not data_map && more then crash else map_nodes (size + 1) scout

-- The loop of `gpr_dlklist_search`, on fuel: the node, and what is stored in `pos`.
unfoldable pub search_nodes : (Ptr → Bool) → ℕ → ℕ → Ptr → Cmd Dl (Ptr × ℕ)
search_nodes data_search zero counter scout = λ _. out_of_fuel
search_nodes data_search (suc fuel) counter scout = do
  more ← gpr_dlklist_node_has_data scout
  if more
      then (do
        d ← gpr_dlklist_node_data scout
        if data_search d then pure (scout, counter) else do
          next ← gpr_dlklist_node_next scout
          search_nodes data_search fuel ((counter + 1) % size_max) next)
      else pure (scout, 0)

-- The callback is given with its context, and may be `NULL`.
unfoldable pub gpr_dlklist_search : Bool → Option (Ptr → Bool) → Ptr → Cmd Dl (Ptr × ℕ)
unfolding gpr_dlklist_get_size gpr_dlklist_get_head
gpr_dlklist_search debug none list = if debug then pure (null, 0) else do
  scout ← gpr_dlklist_get_head list
  more ← gpr_dlklist_node_has_data scout
  if more then crash else pure (scout, 0)
gpr_dlklist_search debug (some data_search) list =
    if debug && (list == null) then pure (null, 0) else do
      size ← gpr_dlklist_get_size list
      scout ← gpr_dlklist_get_head list
      search_nodes data_search (size + 1) 0 scout

-- The first node whose item passes and its position, or `NULL` and 0 where none does.
abbrev pub FindsNode : (Ptr → Bool) → Cells → Ptr × ℕ → Type 0
FindsNode f xs r =
    ((ys : Cells) × (p : Ptr) × (d : Ptr) × (zs : Cells) × (xs ≡ ys ++ ((p, d) ∷ zs))
      × NoneOf f (items_of ys)
      × (f d ≡ true)
      × (r ≡ (p, length ys)))
    ⊎ (NoneOf f (items_of xs) × (r ≡ (null, 0)))

module _ (base : Nodes) (msg : List ℕ) (xs : Cells) (v : Fresh base xs) where
  -- The node of the next cell, on the way through the list.
  here :
      (ys zs : Cells) (p d : Ptr)
      → xs ≡ ys ++ ((p, d) ∷ zs)
      → (p ≢ null)
        × (d ≢ null)
        × (image base null null xs p ≡ some (node d (last null ys) (first zs null)))
  here ys zs p d e =
      let c = Fresh-Cell base ys zs p d (subst (Fresh base) e v) in
      let (ne, at) =
        node_of base msg [] (list_of xs) (image base null null xs) xs v (λ r inside. refl) ys zs p d
          e in
      (ne, c.full, at)

  map_nodes-eq :
      (zs ys : Cells) (calls : List Ptr) (fuel : ℕ)
      → xs ≡ ys ++ zs
      → length zs < fuel
      → map_nodes fuel (first zs null) (list_world base msg calls xs)
        ≡ done tt (list_world base msg (calls ++ items_of zs) xs)
  unfolding map_nodes gpr_dlklist_node_has_data
  map_nodes-eq zs ys calls zero e enough = absurd (omega arith)
  map_nodes-eq [] ys calls (suc fuel) e enough = rw (append-nil calls) refl
  map_nodes-eq ((p, d) ∷ zs) ys calls (suc fuel) e enough =
      let (ne, full, at) = here ys zs p d e in
      let l : DlList = list_of xs in
      let h : Nodes = image base null null xs in
      rw (has_data-eq msg calls l h p d _ _ ne at full, and_then)
        (rw (node_data-eq msg calls l h p d _ _ ne at, and_then)
          (rw (node_next-eq msg (calls ++ (d ∷ [])) l h p d _ _ ne at, and_then)
            (map_nodes-eq zs (ys ++ ((p, d) ∷ [])) (calls ++ (d ∷ [])) fuel
                (e ∙ sym (append_assoc ys ((p, d) ∷ []) zs)) (omega arith)
              ∙ ap (λ cs. done tt (list_world base msg cs xs))
                  (append_assoc calls (d ∷ []) (items_of zs)))))

  -- The search returns what it should, and changes nothing.
  abbrev SearchedFor : (Ptr → Bool) → List Ptr → Ptr × ℕ → World Dl → Type 0
  SearchedFor f calls r w = FindsNode f xs r × (w ≡ list_world base msg calls xs)

  search_nodes-Finds :
      (f : Ptr → Bool) (zs ys : Cells) (calls : List Ptr) (fuel counter : ℕ)
      → xs ≡ ys ++ zs
      → NoneOf f (items_of ys)
      → counter ≡ length ys
      → length xs < size_max
      → length zs < fuel
      → Returns
          (SearchedFor f calls)
          (search_nodes f fuel counter (first zs null) (list_world base msg calls xs))
  unfolding search_nodes gpr_dlklist_node_has_data
  search_nodes-Finds f zs ys calls zero counter e n at room enough = absurd (omega arith)
  search_nodes-Finds f [] ys calls (suc fuel) counter e n at room enough =
      (inr (subst (λ us. NoneOf f (items_of us)) (sym (append-nil ys) ∙ sym e) n, refl), refl)
  search_nodes-Finds f ((p, d) ∷ zs) ys calls (suc fuel) counter e n at room enough =
      let (ne, full, there) = here ys zs p d e in
      let l : DlList = list_of xs in
      let h : Nodes = image base null null xs in
      let step : (counter + 1) % size_max ≡ counter + 1 =
        omega (arith, ap length e, length-append ys ((p, d) ∷ zs)) in
      rw (has_data-eq msg calls l h p d _ _ ne there full, and_then)
        (rw (node_data-eq msg calls l h p d _ _ ne there, and_then)
          (elim (Bool-cases (f d)) [
            | inl hit ↦ rw hit (inl (ys, p, d, zs, e, n, hit, ap (λ k. (p, k)) at), refl)
            | inr miss ↦ rw miss (
                rw (node_next-eq msg calls l h p d _ _ ne there, and_then)
                  (rw step (
                    search_nodes-Finds f zs (ys ++ ((p, d) ∷ [])) calls fuel (counter + 1)
                      (e ∙ sym (append_assoc ys ((p, d) ∷ []) zs))
                      (subst (NoneOf f) (sym (items_of-append ys ((p, d) ∷ [])))
                        (NoneOf-append f (items_of ys) d n miss))
                      (omega (arith, length-append ys ((p, d) ∷ []))) room (omega arith))))
          ]))

  first_answers :
      (zs : Cells) (calls : List Ptr)
      → xs ≡ zs
      → (b : Bool) × (gpr_dlklist_node_has_data (first zs null) (list_world base msg calls xs)
          ≡ done b (list_world base msg calls xs))
  unfolding gpr_dlklist_node_has_data
  first_answers [] calls e = (false, refl)
  first_answers ((p, d) ∷ zs) calls e =
      let (ne, full, at) = here [] zs p d e in
      (true, has_data-eq msg calls (list_of xs) (image base null null xs) p d _ _ ne at full)

  map_of_list :
      (debug : Bool) (list : Ptr) (calls : List Ptr)
      → list ≢ null
      → gpr_dlklist_map debug true list (list_world base msg calls xs)
        ≡ done tt (list_world base msg (calls ++ items_of xs) xs)
  unfolding gpr_dlklist_map
  map_of_list debug list calls ne =
      let (b, answer) = first_answers xs calls refl in
      rw (ne→not-== list null ne, and-false debug)
        (rw (answer, and_then) (map_nodes-eq xs [] calls (length xs + 1) refl (omega arith)))

  search_of_list :
      (f : Ptr → Bool) (debug : Bool) (list : Ptr) (calls : List Ptr)
      → list ≢ null
      → length xs < size_max
      → Returns
          (SearchedFor f calls)
          (gpr_dlklist_search debug (some f) list (list_world base msg calls xs))
  unfolding gpr_dlklist_search
  search_of_list f debug list calls ne room =
      rw (ne→not-== list null ne, and-false debug)
        (search_nodes-Finds f xs [] calls (length xs + 1) 0 refl tt refl room (omega arith))

-- gpr_dlklist_map calls the function on each item once, in order, within its fuel, and changes
-- nothing else. The handle is not `NULL`.
pub dlklist_map-calls :
    (base : Nodes) (debug : Bool) (list : Ptr) (w : World Dl) (items : List Ptr)
    → list ≢ null
    → Holds base w.heap items
    → gpr_dlklist_map debug true list w ≡ done tt (record w { calls = w.calls ++ items })
dlklist_map-calls base debug list w items ne (xs, at, v, same) =
    ap (λ h. gpr_dlklist_map debug true list (record w { heap = h })) at
    ∙ map_of_list base w.msg xs v debug list w.calls ne
    ∙ λ i. done tt (record { msg = w.msg; calls = w.calls ++ same i; heap = sym at i })

-- gpr_dlklist_search returns, within its fuel, the first node whose item passes the test, and its
-- position, or `NULL` and 0 if none does; it changes nothing. The handle is not `NULL`, and the
-- length of the list fits in a `size_t`.
pub dlklist_search-Finds :
    (base : Nodes) (f : Ptr → Bool) (debug : Bool) (list : Ptr) (w : World Dl) (xs : Cells)
    → list ≢ null
    → length xs < size_max
    → w.heap ≡ dl base xs
    → Fresh base xs
    → Returns (λ r w'. FindsNode f xs r × (w' ≡ w)) (gpr_dlklist_search debug (some f) list w)
dlklist_search-Finds base f debug list w xs ne room at v =
    subst
      (λ h.
        Returns (λ r w'. FindsNode f xs r × (w' ≡ record w { heap = h }))
          (gpr_dlklist_search debug (some f) list (record w { heap = h })))
      (sym at) (search_of_list base w.msg xs v f debug list w.calls ne room)

-- gpr_dlklist_free calls the callback, if one is given, on each item once, in order, and leaves
-- neither the list nor any of its nodes: the rest of the memory is as it was. The handle is not
-- `NULL`.
pub dlklist_free-calls :
    (base : Nodes) (debug data_free : Bool) (list : Ptr) (w : World Dl) (items : List Ptr)
    → list ≢ null
    → Holds base w.heap items
    → gpr_dlklist_free debug data_free list w
      ≡ done tt (record {
        msg = w.msg;
        calls = w.calls ++ freed data_free items;
        heap = record { list = none; nodes = base };
      })
unfolding gpr_dlklist_free
dlklist_free-calls base debug data_free list w items ne (xs, at, v, same) =
    ap (λ h. gpr_dlklist_free debug data_free list (record w { heap = h })) at
    ∙ rw (ne→not-== list null ne, and-false debug)
        (rw (reset-eq base debug data_free list w.msg ne w.calls xs v, and_then) (rw same refl))
