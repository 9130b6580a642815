-- ===== src/Dlklist/Between.antt =====
-- A cell behind others: what the image shows there.
use mathlib.Core.Path.{subst}
use gpr.Base.{
  ◌≡◌, ◌≢◌, refl, sym, ◌∙◌, [], ◌∷◌, ◌++◌, some, false, ◌||◌, ◌==◌, if◌then◌else◌, ne→not-==, eq→==,
  arith, append_assoc,
}
use gpr.Machine.{Ptr, null}
use gpr.Dlklist.{Nodes, node}
use gpr.Dlklist.Image.{
  Cells, has, first, last, image, Fresh, first-append, first_snoc, last-append, has-append,
  image-view, Cell, Fresh-Cell,
}

module _ (base : Nodes) (ys zs : Cells) (q e p d : Ptr)
    (v : Fresh base ((ys ++ ((q, e) ∷ [])) ++ ((p, d) ∷ zs))) where
  pub at_cell : Cell base (ys ++ ((q, e) ∷ [])) zs p d
  at_cell = Fresh-Cell base (ys ++ ((q, e) ∷ [])) zs p d v

  pub at_front : Cell base ys ((p, d) ∷ zs) q e
  at_front =
      Fresh-Cell base ys ((p, d) ∷ zs) q e
        (subst (Fresh base) (append_assoc ys ((q, e) ∷ []) ((p, d) ∷ zs)) v)

  pub has-front : (r : Ptr) → has r (ys ++ ((q, e) ∷ [])) ≡ (has r ys || (r == q))
  has-front r = ground (arith, has-append r ys ((q, e) ∷ []))

  pub p-ne-q : p ≢ q
  p-ne-q = ground (arith, at_cell.off_front, has-front p)

  pub p-off : has p ys ≡ false
  p-off = ground (arith, at_cell.off_front, has-front p)

  -- The image by its places, with any cells behind the front.
  pub seen :
      (c k : Ptr) (us : Cells) (r : Ptr)
      → image base null null ((ys ++ ((q, e) ∷ [])) ++ ((c, k) ∷ us)) r ≡ (
          if has r ys
          then image base null q ys r
          else if r == q
          then some (node e (last null ys) c)
          else if r == c
          then some (node k q (first us null))
          else image base c null us r)
  seen c k us r = rw (
    append_assoc ys ((q, e) ∷ []) ((c, k) ∷ us),
    image-view base null null ys ((c, k) ∷ us) q e r,
  )

  pub same_last :
      (c k : Ptr) (us : Cells) → last null ((ys ++ ((q, e) ∷ [])) ++ ((c, k) ∷ us)) ≡ last c us
  same_last c k us = last-append null (ys ++ ((q, e) ∷ [])) ((c, k) ∷ us)

  -- What stands behind the front is of no account for the first address.
  pub same_first :
      (us ws : Cells)
      → first ((ys ++ ((q, e) ∷ [])) ++ us) null ≡ first ((ys ++ ((q, e) ∷ [])) ++ ws) null
  same_first us ws =
      first-append (ys ++ ((q, e) ∷ [])) us null
      ∙ first_snoc ys q e (first us null)
      ∙ sym (first-append (ys ++ ((q, e) ∷ [])) ws null ∙ first_snoc ys q e (first ws null))

  pub seen_p :
      image base null null ((ys ++ ((q, e) ∷ [])) ++ ((p, d) ∷ zs)) p
      ≡ some (node d q (first zs null))
  seen_p = rw (seen p d zs p, p-off, ne→not-== p q p-ne-q, eq→== p p refl)

  pub seen_q :
      image base null null ((ys ++ ((q, e) ∷ [])) ++ ((p, d) ∷ zs)) q
      ≡ some (node e (last null ys) p)
  seen_q = rw (seen p d zs q, at_front.off_front, eq→== q q refl)
