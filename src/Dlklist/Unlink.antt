-- ===== src/Dlklist/Unlink.antt =====
-- gpr_dlklist_remove inside the list, gpr_dlklist_pop_front and gpr_dlklist_pop_back of several
-- elements: which list they leave.
use gpr.Base.{
  ℕ, ◌-◌, ◌<◌, ◌≡◌, ◌≢◌, refl, sym, ap, ◌∙◌, List, [], ◌∷◌, ◌++◌, none, some, Bool, false,
  ne→not-==, eq→==, arith, length, length-append, and-false,
}
use gpr.Machine.{Ptr, null, done, and_then}
use gpr.Err.{ok, gpr_err_raise}
use gpr.Seq.{freed}
use gpr.Dlklist.{DlList, Nodes, node, write, size_max}
use gpr.Dlklist.Ops.{remove_inside, gpr_dlklist_pop_front, gpr_dlklist_pop_back}
use gpr.Dlklist.Image.{
  Cells, has, first, last, image, Fresh, first-append, first_snoc, last-append, image-not_has,
  image-view, Cell, first-ne-null,
}
use gpr.Dlklist.Link.{
  world, list_world, list_of, load_node-eq, set_prev-eq, set_next-eq, arrive, same_world,
  free_node-eq, node_next-eq, node_prev-eq,
}
use gpr.Dlklist.Between.{
  at_cell, at_front, p-ne-q, p-off, seen, seen_p, seen_q, same_first, same_last,
}
use gpr.Dlklist.Position.{search-eq}

module _ (base : Nodes) (debug data_free : Bool) (list : Ptr) (msg : List ℕ) (calls : List Ptr)
    (list_valid : list ≢ null) where
  pub remove_inside-eq :
      (ys zs : Cells) (q e p d s f : Ptr)
      → Fresh base ((ys ++ ((q, e) ∷ [])) ++ ((p, d) ∷ ((s, f) ∷ zs)))
      → length ((ys ++ ((q, e) ∷ [])) ++ ((p, d) ∷ ((s, f) ∷ zs))) < size_max
      → remove_inside debug data_free list
          (length (ys ++ ((q, e) ∷ [])))
          (list_world base msg calls ((ys ++ ((q, e) ∷ [])) ++ ((p, d) ∷ ((s, f) ∷ zs))))
        ≡ done ok (
            list_world base []
              (calls ++ freed data_free (d ∷ []))
              ((ys ++ ((q, e) ∷ [])) ++ ((s, f) ∷ zs)))
  unfolding remove_inside gpr_err_raise
  remove_inside-eq ys zs q e p d s f v room =
      rw
        (
          search-eq base msg calls h₀ front ((s, f) ∷ zs) p d v (λ r inside. refl) debug list
              list_valid room,
          and_then,
        )
        (rw (load_node-eq msg calls l h₀ p d q s c.address at_p, and_then)
          (rw (set_next-eq msg calls l h₀ q e (last null ys) p b.address at_q s, and_then)
            (rw (load_node-eq msg calls l h₁ p d q s c.address at_p₁, and_then)
              (rw (set_prev-eq msg calls l h₁ s f p (first zs null) s_valid at_s q, and_then)
                (rw (ne→not-== list null list_valid) (
                  rw
                    (
                      free_node-eq msg calls _ h₂ p d q s c.address at_p₂ debug data_free c.full,
                      and_then,
                    )
                    (arrive base ok [] _ _ h₃ (front ++ ((s, f) ∷ zs)) counted headed tailed
                      linked)))))))
    where
      front : Cells
      front = ys ++ ((q, e) ∷ [])

      l : DlList
      l = list_of (front ++ ((p, d) ∷ ((s, f) ∷ zs)))

      c : Cell base front ((s, f) ∷ zs) p d
      c = at_cell base ys ((s, f) ∷ zs) q e p d v

      b : Cell base ys ((p, d) ∷ ((s, f) ∷ zs)) q e
      b = at_front base ys ((s, f) ∷ zs) q e p d v

      -- the rest, without the cell
      a : Cell base front zs s f
      a = at_cell base ys zs q e s f c.rest

      s_valid : s ≢ null
      s_valid = a.address

      apart :
          (p ≢ q) × (p ≢ s) × (s ≢ q) × (has p ys ≡ false) × (has s ys ≡ false) × (has p zs ≡ false)
      apart = (
        p-ne-q base ys ((s, f) ∷ zs) q e p d v,
        ground (arith, c.off_back),
        p-ne-q base ys zs q e s f c.rest,
        p-off base ys ((s, f) ∷ zs) q e p d v,
        p-off base ys zs q e s f c.rest,
        ground (arith, c.off_back),
      )

      h₀ : Nodes
      h₀ = image base null null (front ++ ((p, d) ∷ ((s, f) ∷ zs)))

      h₁ : Nodes
      h₁ = write h₀ q (some (node e (last null ys) s))

      h₂ : Nodes
      h₂ = write h₁ s (some (node f q (first zs null)))

      h₃ : Nodes
      h₃ = write h₂ p none

      at_p : h₀ p ≡ some (node d q s)
      at_p = seen_p base ys ((s, f) ∷ zs) q e p d v

      at_q : h₀ q ≡ some (node e (last null ys) p)
      at_q = seen_q base ys ((s, f) ∷ zs) q e p d v

      at_p₁ : h₁ p ≡ some (node d q s)
      at_p₁ = ground (arith, apart, at_p)

      at_s : h₁ s ≡ some (node f p (first zs null))
      at_s = rw (seen base ys ((s, f) ∷ zs) q e p d v p d ((s, f) ∷ zs) s) (ground (arith, apart))

      at_p₂ : h₂ p ≡ some (node d q s)
      at_p₂ = ground (arith, apart, at_p₁)

      gone : image base s null zs p ≡ none
      gone = image-not_has base s null zs p apart.5 ∙ c.free

      linked : (r : Ptr) → h₃ r ≡ image base null null (front ++ ((s, f) ∷ zs)) r
      linked r =
          rw
            (
              seen base ys ((s, f) ∷ zs) q e p d v p d ((s, f) ∷ zs) r,
              seen base ys ((s, f) ∷ zs) q e p d v s f zs r,
            )
            (ground (arith, apart, gone, b.off_front))

      counted : length (front ++ ((p, d) ∷ ((s, f) ∷ zs))) - 1 ≡ length (front ++ ((s, f) ∷ zs))
      counted =
          omega
            (arith, length-append front ((p, d) ∷ ((s, f) ∷ zs)), length-append front ((s, f) ∷ zs))

      headed : first (front ++ ((p, d) ∷ ((s, f) ∷ zs))) null ≡ first (front ++ ((s, f) ∷ zs)) null
      headed = same_first base ys ((s, f) ∷ zs) q e p d v ((p, d) ∷ ((s, f) ∷ zs)) ((s, f) ∷ zs)

      tailed : last null (front ++ ((p, d) ∷ ((s, f) ∷ zs))) ≡ last null (front ++ ((s, f) ∷ zs))
      tailed =
          same_last base ys ((s, f) ∷ zs) q e p d v p d ((s, f) ∷ zs)
          ∙ sym (same_last base ys ((s, f) ∷ zs) q e p d v s f zs)

  pub pop_front-cons :
      (zs : Cells) (p d s f : Ptr)
      → Fresh base ((p, d) ∷ ((s, f) ∷ zs))
      → gpr_dlklist_pop_front debug data_free list
          (list_world base msg calls ((p, d) ∷ ((s, f) ∷ zs)))
        ≡ done ok (list_world base [] (calls ++ freed data_free (d ∷ [])) ((s, f) ∷ zs))
  unfolding gpr_dlklist_pop_front gpr_err_raise
  pop_front-cons zs p d s f v =
      rw (ne→not-== list null list_valid, and-false debug)
        (rw (ne→not-== p null v.0, ne→not-== (length ((p, d) ∷ ((s, f) ∷ zs))) 1 (omega arith))
          (rw (node_next-eq msg calls l h₀ p d null s v.0 at_p, and_then)
            (rw (set_prev-eq msg calls l h₀ s f p (first zs null) v.4.0 at_s null, and_then)
              (rw (free_node-eq msg calls _ h₁ p d null s v.0 at_p₁ debug data_free v.1, and_then)
                (arrive base ok [] _ _ h₂ ((s, f) ∷ zs) (omega arith) refl refl linked)))))
    where
      l : DlList
      l = list_of ((p, d) ∷ ((s, f) ∷ zs))

      h₀ : Nodes
      h₀ = image base null null ((p, d) ∷ ((s, f) ∷ zs))

      h₁ : Nodes
      h₁ = write h₀ s (some (node f null (first zs null)))

      h₂ : Nodes
      h₂ = write h₁ p none

      apart : (p ≢ s) × (has p zs ≡ false)
      apart = (ground (arith, v.2), ground (arith, v.2))

      at_p : h₀ p ≡ some (node d null s)
      at_p = rw (eq→== p p refl)

      at_s : h₀ s ≡ some (node f p (first zs null))
      at_s = ground (arith, apart)

      at_p₁ : h₁ p ≡ some (node d null s)
      at_p₁ = ground (arith, apart)

      gone : image base s null zs p ≡ none
      gone = image-not_has base s null zs p apart.1 ∙ v.3

      linked : (r : Ptr) → h₂ r ≡ image base null null ((s, f) ∷ zs) r
      linked r = ground (arith, apart, gone)

  pub pop_back-snoc :
      (ys : Cells) (q e p d : Ptr)
      → Fresh base ((ys ++ ((q, e) ∷ [])) ++ ((p, d) ∷ []))
      → gpr_dlklist_pop_back debug data_free list
          (list_world base msg calls ((ys ++ ((q, e) ∷ [])) ++ ((p, d) ∷ [])))
        ≡ done ok (list_world base [] (calls ++ freed data_free (d ∷ [])) (ys ++ ((q, e) ∷ [])))
  unfolding gpr_dlklist_pop_back gpr_err_raise
  pop_back-snoc ys q e p d v =
      ap (gpr_dlklist_pop_back debug data_free list) (sym start)
      ∙ rw (ne→not-== list null list_valid, and-false debug)
          (rw
            (
              ne→not-== (first xs null) null (first-ne-null base front [] p d null v),
              ne→not-== (length xs) 1 (omega (arith, counted, length-append ys ((q, e) ∷ []))),
            )
            (rw (node_prev-eq msg calls l h₀ p d q null c.address at_p, and_then)
              (rw (set_next-eq msg calls l h₀ q e (last null ys) p b.address at_q null, and_then)
                (rw
                  (
                    free_node-eq msg calls _ h₁ p d q null c.address at_p₁ debug data_free c.full,
                    and_then,
                  )
                  (arrive base ok [] _ _ h₂ front counted headed tailed linked)))))
    where
      front : Cells
      front = ys ++ ((q, e) ∷ [])

      xs : Cells
      xs = front ++ ((p, d) ∷ [])

      l : DlList
      l = record { size = length xs; head = first xs null; tail = p }

      h₀ : Nodes
      h₀ = image base null null xs

      start : world msg calls l h₀ ≡ list_world base msg calls xs
      start =
          same_world base msg calls l h₀ xs refl refl (sym (last-append null front ((p, d) ∷ [])))
            (λ r. refl)

      c : Cell base front [] p d
      c = at_cell base ys [] q e p d v

      b : Cell base ys ((p, d) ∷ []) q e
      b = at_front base ys [] q e p d v

      apart : (p ≢ q) × (has p ys ≡ false)
      apart = (p-ne-q base ys [] q e p d v, p-off base ys [] q e p d v)

      h₁ : Nodes
      h₁ = write h₀ q (some (node e (last null ys) null))

      h₂ : Nodes
      h₂ = write h₁ p none

      at_p : h₀ p ≡ some (node d q null)
      at_p = seen_p base ys [] q e p d v

      at_q : h₀ q ≡ some (node e (last null ys) p)
      at_q = seen_q base ys [] q e p d v

      at_p₁ : h₁ p ≡ some (node d q null)
      at_p₁ = ground (arith, apart, at_p)

      linked : (r : Ptr) → h₂ r ≡ image base null null front r
      linked r =
          rw (seen base ys [] q e p d v p d [] r, image-view base null null ys [] q e r)
            (ground (arith, apart, c.free, b.off_front))

      counted : length xs - 1 ≡ length front
      counted = omega (arith, length-append front ((p, d) ∷ []))

      headed : first xs null ≡ first front null
      headed = first-append front ((p, d) ∷ []) null ∙ first_snoc ys q e p

      tailed : q ≡ last null front
      tailed = sym (last-append null ys ((q, e) ∷ []))
