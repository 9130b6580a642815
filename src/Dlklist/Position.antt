-- ===== src/Dlklist/Position.antt =====
-- search_node_by_position reaches the node at the position, from either end.
use mathlib.Core.Path.{subst}
use gpr.Base.{
  ℕ, zero, suc, ◌+◌, ◌-◌, ◌/◌, ◌%◌, ◌<◌, ◌≡◌, ◌≢◌, refl, sym, ap, ◌∙◌, List, [], ◌∷◌, ◌++◌, some,
  Bool, true, ltb, le→not-leb, ne→not-==, eq→==, arith, length, length-append, and-false,
  Bool-cases, inl, inr, append_assoc, append-nil, split_last, or-true,
}
use gpr.Machine.{Ptr, null, done, and_then}
use gpr.Dlklist.{DlList, Nodes, node, size_max, walk_next, walk_prev, search_node_by_position}
use gpr.Dlklist.Image.{
  Cells, has, first, last, image, Fresh, has-append, last-append, image_at, Fresh-Cell,
}
use gpr.Dlklist.Link.{world, list_of, node_next-eq, node_prev-eq}

module _ (base : Nodes) (msg : List ℕ) (calls : List Ptr) (l : DlList) (h : Nodes) (xs : Cells)
    (v : Fresh base xs) (over : (r : Ptr) → has r xs ≡ true → h r ≡ image base null null xs r) where
  -- The node of a cell of the list.
  pub node_of :
      (ys zs : Cells) (p d : Ptr)
      → xs ≡ ys ++ ((p, d) ∷ zs)
      → (p ≢ null) × (h p ≡ some (node d (last null ys) (first zs null)))
  node_of ys zs p d e =
      let c = Fresh-Cell base ys zs p d (subst (Fresh base) e v) in
      (
        c.address,
        over p inside
            ∙ ap (λ us. image base null null us p) e
            ∙ image_at base null null ys zs p d c.off_front,
      )
    where
      inside : has p xs ≡ true
      inside = rw e (rw (has-append p ys ((p, d) ∷ zs), eq→== p p refl) (or-true (has p ys)))

  -- Forwards: `us` is passed, `ts` is still to pass.
  walk_next-eq :
      (ts us zs : Cells) (p d : Ptr) (fuel counter pos : ℕ)
      → xs ≡ us ++ (ts ++ ((p, d) ∷ zs))
      → counter + length ts ≡ pos
      → pos < size_max
      → length ts < fuel
      → walk_next fuel counter pos (first (ts ++ ((p, d) ∷ zs)) null) (world msg calls l h)
        ≡ done p (world msg calls l h)
  unfolding walk_next
  walk_next-eq ts us zs p d zero counter pos e at small enough = absurd (omega arith)
  walk_next-eq [] us zs p d (suc fuel) counter pos e at small enough =
      rw (eq→== counter pos (omega arith))
  walk_next-eq ((t, f) ∷ ts) us zs p d (suc fuel) counter pos e at small enough =
      let (ne, here) = node_of us (ts ++ ((p, d) ∷ zs)) t f e in
      let step : (counter + 1) % size_max ≡ counter + 1 = omega arith in
      rw (ne→not-== counter pos (omega arith)) (
        rw (node_next-eq msg calls l h t f _ _ ne here, and_then)
          (rw step (
            walk_next-eq ts (us ++ ((t, f) ∷ [])) zs p d fuel (counter + 1) pos
              (e ∙ sym (append_assoc us ((t, f) ∷ []) (ts ++ ((p, d) ∷ zs)))) (omega arith) small
              (omega arith))))

  -- Backwards: `ts` is still to pass.
  pub walk_prev-eq :
      (n : ℕ) (ts ys zs : Cells) (p d : Ptr) (fuel counter pos : ℕ)
      → length ts ≡ n
      → xs ≡ ys ++ ((p, d) ∷ (ts ++ zs))
      → pos + n ≡ counter
      → counter < size_max
      → n < fuel
      → walk_prev fuel counter pos (last p ts) (world msg calls l h) ≡ done p (world msg calls l h)
  unfolding walk_prev
  walk_prev-eq n ts ys zs p d zero counter pos len e at small enough = absurd (omega arith)
  walk_prev-eq zero [] ys zs p d (suc fuel) counter pos len e at small enough =
      rw (eq→== counter pos (omega arith))
  walk_prev-eq zero (t ∷ ts) ys zs p d (suc fuel) counter pos len e at small enough =
      absurd (omega (arith, len))
  walk_prev-eq (suc n) [] ys zs p d (suc fuel) counter pos len e at small enough =
      absurd (omega (arith, len))
  walk_prev-eq (suc n) (s ∷ ts) ys zs p d (suc fuel) counter pos len e at small enough =
      let (us, (t, f), ends) = split_last s ts in
      let split : xs ≡ ys ++ ((p, d) ∷ (us ++ ((t, f) ∷ zs))) =
        e
        ∙ ap (λ vs. ys ++ ((p, d) ∷ vs))
            (ap (λ vs. vs ++ zs) ends ∙ append_assoc us ((t, f) ∷ []) zs) in
      let (ne, here) =
        node_of (ys ++ ((p, d) ∷ us)) zs t f
          (split ∙ sym (append_assoc ys ((p, d) ∷ us) ((t, f) ∷ zs))) in
      let step : (counter + size_max - 1) % size_max ≡ counter - 1 = omega arith in
      let tail : last p (s ∷ ts) ≡ t = ap (last p) ends ∙ last-append p us ((t, f) ∷ []) in
      let before : last null (ys ++ ((p, d) ∷ us)) ≡ last p us =
        last-append null ys ((p, d) ∷ us) in
      rw (tail, ne→not-== counter pos (omega arith))
        (rw (node_prev-eq msg calls l h t f _ _ ne here, and_then)
          (rw (step, before)
            (walk_prev-eq n us ys ((t, f) ∷ zs) p d fuel (counter - 1) pos
              (omega (arith, len, ap length ends, length-append us ((t, f) ∷ []))) split
              (omega arith) (omega arith) (omega arith))))

module _ (base : Nodes) (msg : List ℕ) (calls : List Ptr) (h : Nodes) (ys zs : Cells) (p d : Ptr)
    (v : Fresh base (ys ++ ((p, d) ∷ zs)))
    (over : (r : Ptr)
      → has r (ys ++ ((p, d) ∷ zs)) ≡ true
      → h r ≡ image base null null (ys ++ ((p, d) ∷ zs)) r) where
  -- The search stops at the cell, in either half of the list.
  pub search-eq :
      (debug : Bool) (list : Ptr)
      → list ≢ null
      → length (ys ++ ((p, d) ∷ zs)) < size_max
      → search_node_by_position debug list
          (length ys)
          (world msg calls (list_of (ys ++ ((p, d) ∷ zs))) h)
        ≡ done p (world msg calls (list_of (ys ++ ((p, d) ∷ zs))) h)
  unfolding search_node_by_position
  search-eq debug list lv room =
      let size : length (ys ++ ((p, d) ∷ zs)) ≡ length ys + suc (length zs) =
        length-append ys ((p, d) ∷ zs) in
      rw (ne→not-== list null lv) (
        rw (le→not-leb (length (ys ++ ((p, d) ∷ zs))) (length ys) (omega arith), and-false debug)
          (elim (Bool-cases (ltb (length ys) (length (ys ++ ((p, d) ∷ zs)) / 2))) [
            | inl near ↦ rw near (
                walk_next-eq base msg calls (list_of (ys ++ ((p, d) ∷ zs))) h _ v over ys [] zs p d
                  _ 0 (length ys) refl (omega arith) (omega arith) (omega arith))
            | inr far ↦
                let step : (length (ys ++ ((p, d) ∷ zs)) + size_max - 1) % size_max
                    ≡ length (ys ++ ((p, d) ∷ zs)) - 1 =
                  omega arith in
                rw (far, step)
                  (ap
                      (λ t.
                        walk_prev ((list_of (ys ++ ((p, d) ∷ zs))).size + 1)
                          ((list_of (ys ++ ((p, d) ∷ zs))).size - 1) (length ys) t
                          (world msg calls (list_of (ys ++ ((p, d) ∷ zs))) h))
                      (last-append null ys ((p, d) ∷ zs))
                    ∙ walk_prev-eq base msg calls (list_of (ys ++ ((p, d) ∷ zs))) h _ v over
                        (length zs) zs ys [] p d ((list_of (ys ++ ((p, d) ∷ zs))).size + 1)
                        ((list_of (ys ++ ((p, d) ∷ zs))).size - 1) (length ys) refl
                        (ap (λ vs. ys ++ ((p, d) ∷ vs)) (sym (append-nil zs))) (omega arith)
                        (omega arith) (omega arith))
          ]))
