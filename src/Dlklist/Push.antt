-- ===== src/Dlklist/Push.antt =====
-- gpr_dlklist_push_front, gpr_dlklist_push_back and the inside of gpr_dlklist_insert: which list
-- they leave when a node is allocated.
use gpr.Base.{
  ℕ, suc, ◌+◌, ◌<◌, ◌%◌, ◌≡◌, ◌≢◌, refl, sym, ap, ◌∙◌, List, [], ◌∷◌, ◌++◌, some, Bool, false, ◌==◌,
  if◌then◌else◌, ne→not-==, eq→==, arith, length, length-append, and-false,
}
use gpr.Machine.{Ptr, null, done, and_then}
use gpr.Err.{ok, gpr_err_raise}
use gpr.Dlklist.{DlList, Nodes, node, write, size_max}
use gpr.Dlklist.Ops.{gpr_dlklist_push_front, gpr_dlklist_push_back}
use gpr.Dlklist.Image.{
  Cells, has, first, last, image, Fresh, first-append, first_snoc, last-append, has-append,
  image-snoc, Cell, Fresh-Cell, first-ne-null,
}
use gpr.Dlklist.Link.{world, list_world, new_node-eq, set_prev-eq, set_next-eq, arrive, same_world}

-- The count of one more cell does not wrap.
abbrev pub HasRoom : Cells → Type 0
HasRoom xs = length xs + 1 < size_max

module _ (base : Nodes) (debug : Bool) (fresh list x : Ptr) (msg : List ℕ) (calls : List Ptr)
    (list_valid : list ≢ null) (fresh_valid : fresh ≢ null) (x_valid : x ≢ null) where
  pub push_front-nil :
      gpr_dlklist_push_front debug fresh list x (list_world base msg calls [])
      ≡ done ok (list_world base [] calls ((fresh, x) ∷ []))
  unfolding gpr_dlklist_push_front gpr_err_raise
  push_front-nil =
      rw (ne→not-== list null list_valid, ne→not-== x null x_valid, and-false debug)
        (rw (new_node-eq msg calls _ _ debug fresh x fresh_valid x_valid, and_then)
          (rw (ne→not-== fresh null fresh_valid)
            (arrive base ok [] calls _ _ ((fresh, x) ∷ []) refl refl refl (λ r. ground arith))))

  pub push_front-cons :
      (p d : Ptr) (zs : Cells)
      → HasRoom ((p, d) ∷ zs)
      → Fresh base ((p, d) ∷ zs)
      → has fresh ((p, d) ∷ zs) ≡ false
      → gpr_dlklist_push_front debug fresh list x (list_world base msg calls ((p, d) ∷ zs))
        ≡ done ok (list_world base [] calls ((fresh, x) ∷ ((p, d) ∷ zs)))
  unfolding gpr_dlklist_push_front gpr_err_raise
  push_front-cons p d zs room v out =
      rw (ne→not-== list null list_valid, ne→not-== x null x_valid, and-false debug)
        (rw (new_node-eq msg calls l h₀ debug fresh x fresh_valid x_valid, and_then)
          (rw (ne→not-== fresh null fresh_valid, ne→not-== p null v.0)
            (rw (set_prev-eq msg calls l h₁ p d null (first zs null) v.0 at_first fresh, and_then)
              (rw (set_next-eq msg calls l h₂ fresh x null null fresh_valid at_fresh p, and_then)
                (arrive base ok [] calls _ _ ((fresh, x) ∷ ((p, d) ∷ zs)) (omega arith) refl refl
                  linked)))))
    where
      l : DlList
      l = record { size = suc (length zs); head = p; tail = last p zs }

      h₀ : Nodes
      h₀ = image base null null ((p, d) ∷ zs)

      h₁ : Nodes
      h₁ = write h₀ fresh (some (node x null null))

      h₂ : Nodes
      h₂ = write h₁ p (some (node d fresh (first zs null)))

      at_first : h₁ p ≡ some (node d null (first zs null))
      at_first = ground arith

      at_fresh : h₂ fresh ≡ some (node x null null)
      at_fresh = ground arith

      linked :
          (r : Ptr)
          → write h₂ fresh (some (node x null p)) r
            ≡ image base null null ((fresh, x) ∷ ((p, d) ∷ zs)) r
      linked r = ground arith

  pub push_back-nil :
      gpr_dlklist_push_back debug fresh list x (list_world base msg calls [])
      ≡ done ok (list_world base [] calls ((fresh, x) ∷ []))
  unfolding gpr_dlklist_push_back gpr_err_raise
  push_back-nil =
      rw (ne→not-== list null list_valid, ne→not-== x null x_valid, and-false debug)
        (rw (new_node-eq msg calls _ _ debug fresh x fresh_valid x_valid, and_then)
          (rw (ne→not-== fresh null fresh_valid)
            (arrive base ok [] calls _ _ ((fresh, x) ∷ []) refl refl refl (λ r. ground arith))))

  pub push_back-snoc :
      (ys : Cells) (q e : Ptr)
      → HasRoom (ys ++ ((q, e) ∷ []))
      → Fresh base (ys ++ ((q, e) ∷ []))
      → has fresh (ys ++ ((q, e) ∷ [])) ≡ false
      → gpr_dlklist_push_back debug fresh list x (list_world base msg calls (ys ++ ((q, e) ∷ [])))
        ≡ done ok (list_world base [] calls ((ys ++ ((q, e) ∷ [])) ++ ((fresh, x) ∷ [])))
  unfolding gpr_dlklist_push_back gpr_err_raise
  push_back-snoc ys q e room v out =
      ap (gpr_dlklist_push_back debug fresh list x) (sym start)
      ∙ rw (ne→not-== list null list_valid, ne→not-== x null x_valid, and-false debug)
          (rw (new_node-eq msg calls l h₀ debug fresh x fresh_valid x_valid, and_then)
            (rw
              (
                ne→not-== fresh null fresh_valid,
                ne→not-== (first xs null) null (first-ne-null base ys [] q e null v),
              )
              (rw
                (
                  set_next-eq msg calls l h₁ q e (last null ys) null c.address at_last fresh,
                  and_then,
                )
                (rw (set_prev-eq msg calls l h₂ fresh x null null fresh_valid at_fresh q, and_then)
                  (arrive base ok [] calls _ _ (xs ++ ((fresh, x) ∷ [])) counted headed tailed
                    linked)))))
    where
      c : Cell base ys [] q e
      c = Fresh-Cell base ys [] q e v

      xs : Cells
      xs = ys ++ ((q, e) ∷ [])

      l : DlList
      l = record { size = length xs; head = first xs null; tail = q }

      h₀ : Nodes
      h₀ r = if r == q then some (node e (last null ys) null) else image base null q ys r

      start : world msg calls l h₀ ≡ list_world base msg calls xs
      start =
          same_world base msg calls l h₀ xs refl refl (sym (last-append null ys ((q, e) ∷ [])))
            (λ r. sym (image-snoc base null null ys q e r c.off_front))

      h₁ : Nodes
      h₁ = write h₀ fresh (some (node x null null))

      h₂ : Nodes
      h₂ = write h₁ q (some (node e (last null ys) fresh))

      apart : fresh ≢ q
      apart = ground (arith, has-append fresh ys ((q, e) ∷ []))

      at_last : h₁ q ≡ some (node e (last null ys) null)
      at_last = rw (ne→not-== q fresh (λ z. apart (sym z)), eq→== q q refl)

      at_fresh : h₂ fresh ≡ some (node x null null)
      at_fresh = rw (ne→not-== fresh q apart, eq→== fresh fresh refl)

      counted : (length xs + 1) % size_max ≡ length (xs ++ ((fresh, x) ∷ []))
      counted = omega (arith, length-append xs ((fresh, x) ∷ []))

      headed : first xs null ≡ first (xs ++ ((fresh, x) ∷ [])) null
      headed = sym (first-append xs ((fresh, x) ∷ []) null ∙ first_snoc ys q e fresh)

      tailed : fresh ≡ last null (xs ++ ((fresh, x) ∷ []))
      tailed = sym (last-append null xs ((fresh, x) ∷ []))

      linked :
          (r : Ptr)
          → write h₂ fresh (some (node x q null)) r
            ≡ image base null null (xs ++ ((fresh, x) ∷ [])) r
      linked r =
          rw
            (
              image-snoc base null null xs fresh x r out,
              image-snoc base null fresh ys q e r c.off_front,
              last-append null ys ((q, e) ∷ []),
            )
            (ground arith)
