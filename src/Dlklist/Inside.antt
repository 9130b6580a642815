-- ===== src/Dlklist/Inside.antt =====
-- A cell put in, taken out or replaced inside the list: the inside of gpr_dlklist_insert and
-- gpr_dlklist_remove.
use gpr.Base.{
  ℕ, ◌+◌, ◌<◌, ◌%◌, ◌≡◌, ◌≢◌, sym, ◌∙◌, List, [], ◌∷◌, ◌++◌, some, Bool, true, false, ne→not-==,
  arith, length, length-append,
}
use gpr.Machine.{Ptr, null, done, and_then}
use gpr.Err.{ok, gpr_err_raise}
use gpr.Dlklist.{DlList, Nodes, node, write, size_max}
use gpr.Dlklist.Ops.{insert_inside}
use gpr.Dlklist.Image.{Cells, has, first, last, image, Fresh, has-append, Cell}
use gpr.Dlklist.Link.{
  list_world, list_of, new_node-eq, load_node-eq, set_prev-eq, set_next-eq, arrive,
}
use gpr.Dlklist.Between.{
  at_cell, at_front, has-front, p-ne-q, p-off, seen, seen_p, seen_q, same_first, same_last,
}
use gpr.Dlklist.Position.{search-eq}

module _ (base : Nodes) (debug : Bool) (list : Ptr) (msg : List ℕ) (calls : List Ptr)
    (list_valid : list ≢ null) (ys zs : Cells) (q e p d : Ptr)
    (v : Fresh base ((ys ++ ((q, e) ∷ [])) ++ ((p, d) ∷ zs)))
    (room : length ((ys ++ ((q, e) ∷ [])) ++ ((p, d) ∷ zs)) + 1 < size_max) where
  abbrev front : Cells
  front = ys ++ ((q, e) ∷ [])

  c : Cell base front zs p d
  c = at_cell base ys zs q e p d v

  b : Cell base ys ((p, d) ∷ zs) q e
  b = at_front base ys zs q e p d v

  module _ (fresh x : Ptr) (fresh_valid : fresh ≢ null) (x_valid : x ≢ null)
      (out : has fresh (front ++ ((p, d) ∷ zs)) ≡ false) where
    pub insert_inside-eq :
        insert_inside debug fresh list x
          (length front)
          (list_world base msg calls (front ++ ((p, d) ∷ zs)))
        ≡ done ok (list_world base [] calls (front ++ ((fresh, x) ∷ ((p, d) ∷ zs))))
    unfolding insert_inside gpr_err_raise
    insert_inside-eq =
        rw (new_node-eq msg calls l h₀ debug fresh x fresh_valid x_valid, and_then)
          (rw (ne→not-== fresh null fresh_valid) (
            rw
              (
                search-eq base msg calls h₁ front zs p d v (λ r inside. over r inside) debug list
                    list_valid (omega arith),
                and_then,
              )
              (rw (set_next-eq msg calls l h₁ fresh x null null fresh_valid at_fresh p, and_then)
                (rw (load_node-eq msg calls l h₂ p d q (first zs null) c.address at_p, and_then)
                  (rw (set_prev-eq msg calls l h₂ fresh x null p fresh_valid at_fresh₂ q, and_then)
                    (rw
                      (load_node-eq msg calls l h₃ p d q (first zs null) c.address at_p₃, and_then)
                      (rw
                        (
                          set_next-eq msg calls l h₃ q e (last null ys) p b.address at_q fresh,
                          and_then,
                        )
                        (rw
                          (
                            set_prev-eq msg calls l h₄ p d q (first zs null) c.address at_p₄ fresh,
                            and_then,
                          )
                          (rw (ne→not-== list null list_valid) (
                            arrive base ok [] calls _ h₅ (front ++ ((fresh, x) ∷ ((p, d) ∷ zs)))
                              counted headed tailed linked))))))))))
      where
        l : DlList
        l = list_of (front ++ ((p, d) ∷ zs))

        h₀ : Nodes
        h₀ = image base null null (front ++ ((p, d) ∷ zs))

        h₁ : Nodes
        h₁ = write h₀ fresh (some (node x null null))

        h₂ : Nodes
        h₂ = write h₁ fresh (some (node x null p))

        h₃ : Nodes
        h₃ = write h₂ fresh (some (node x q p))

        h₄ : Nodes
        h₄ = write h₃ q (some (node e (last null ys) fresh))

        h₅ : Nodes
        h₅ = write h₄ p (some (node d fresh (first zs null)))

        over : (r : Ptr) → has r (front ++ ((p, d) ∷ zs)) ≡ true → h₁ r ≡ h₀ r
        over r inside = ground arith

        apart : (fresh ≢ p) × (fresh ≢ q) × (p ≢ q)
        apart =
            let u = has-append fresh front ((p, d) ∷ zs) in
            (
              ground (arith, u),
              ground (arith, u, has-front base ys zs q e p d v fresh),
              (p-ne-q base ys zs q e p d v),
            )

        fresh-off : has fresh ys ≡ false
        fresh-off =
            ground
              (arith, has-append fresh front ((p, d) ∷ zs), has-front base ys zs q e p d v fresh)

        at_fresh : h₁ fresh ≡ some (node x null null)
        at_fresh = ground arith

        at_fresh₂ : h₂ fresh ≡ some (node x null p)
        at_fresh₂ = ground arith

        at_p : h₂ p ≡ some (node d q (first zs null))
        at_p = ground (arith, apart, (seen_p base ys zs q e p d v))

        at_p₃ : h₃ p ≡ some (node d q (first zs null))
        at_p₃ = ground (arith, apart, (seen_p base ys zs q e p d v))

        at_q : h₃ q ≡ some (node e (last null ys) p)
        at_q = ground (arith, apart, (seen_q base ys zs q e p d v))

        at_p₄ : h₄ p ≡ some (node d q (first zs null))
        at_p₄ = ground (arith, apart, (seen_p base ys zs q e p d v))

        linked : (r : Ptr) → h₅ r ≡ image base null null (front ++ ((fresh, x) ∷ ((p, d) ∷ zs))) r
        linked r =
            rw
              (
                seen base ys zs q e p d v fresh x ((p, d) ∷ zs) r,
                seen base ys zs q e p d v p d zs r,
              )
              (ground (arith, apart, fresh-off, (p-off base ys zs q e p d v), b.off_front))

        counted :
            (length (front ++ ((p, d) ∷ zs)) + 1) % size_max
            ≡ length (front ++ ((fresh, x) ∷ ((p, d) ∷ zs)))
        counted = omega (
          arith,
          length-append front ((p, d) ∷ zs),
          length-append front ((fresh, x) ∷ ((p, d) ∷ zs)),
        )

        headed :
            first (front ++ ((p, d) ∷ zs)) null ≡ first (front ++ ((fresh, x) ∷ ((p, d) ∷ zs))) null
        headed = same_first base ys zs q e p d v ((p, d) ∷ zs) ((fresh, x) ∷ ((p, d) ∷ zs))

        tailed :
            last null (front ++ ((p, d) ∷ zs)) ≡ last null (front ++ ((fresh, x) ∷ ((p, d) ∷ zs)))
        tailed =
            same_last base ys zs q e p d v p d zs
            ∙ sym (same_last base ys zs q e p d v fresh x ((p, d) ∷ zs))
