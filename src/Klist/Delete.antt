-- ===== src/Klist/Delete.antt =====
-- gpr_klist_delete and gpr_klist_is_empty on a circular list.
use mathlib.Core.Path.{subst}
use gpr.Base.{
  ◌≡◌, ◌≢◌, refl, sym, ◌∙◌, List, [], ◌∷◌, ◌++◌, some, Bool, true, false, arith, ne→not-==, eq→==,
  and-false, append-nil,
}
use gpr.Machine.{Ptr, null, World, done, and_then, Run}
use gpr.Err.{GprErr, ok, gpr_err_raise}
use gpr.Klist.{Entries, update, link_prev, link_next, gpr_klist_delete}
use gpr.Klist.Chain.{
  next_of, prev_of, has, Live, Linked, Chain, Distinct, Ring, has-append, Chain-split, Chain-join,
  Chain-keep, live_next, live_prev, next_entry, Distinct-middle, Distinct-across, set_prev-eq,
  set_next-eq, Live-link_prev, next_of-link_prev, prev_of-link_next, next_of-link_next_other,
  prev_of-link_prev_other, next_of-link_next, prev_of-link_prev,
}
use gpr.Klist.Splice.{Joined, Live-joined, del_entry-eq, del_entry-Joined}
use gpr.Klist.Edit.{
  first, last, apart, Chain-first, Chain-last, has-first, has-last, Distinct-valid,
}

-- The chain up to another entry, when only the last link changed.
relink :
    (h h' : Entries) (a : Ptr) (ys : List Ptr) (p y : Ptr)
    → Distinct (a ∷ ys)
    → Chain h a ys p
    → next_of (h' (last a ys)) ≡ some y
    → prev_of (h' y) ≡ some (last a ys)
    → ((r : Ptr) → has r (a ∷ ys) ≡ true → r ≢ last a ys → next_of (h' r) ≡ next_of (h r))
    → ((r : Ptr) → has r ys ≡ true → prev_of (h' r) ≡ prev_of (h r))
    → Chain h' a ys y
relink h h' a [] p y d c n pr keep keep' = (n, pr)
relink h h' a (x ∷ xs) p y d ((l, m), c) n pr keep keep' = (
  (keep a (rw (eq→== a a refl) refl) (apart_last d.1) ∙ l, keep' x (rw (eq→== x x refl) refl) ∙ m),
  relink h h' x xs p y d.2 c n pr (λ r i. keep r (ground (arith, i)))
      (λ r i. keep' r (ground (arith, i))),
)
  where
    apart_last : has a (x ∷ xs) ≡ false → a ≢ last x xs
    apart_last o e = apart (last x xs) a (x ∷ xs) (has-last x xs) o (sym e)

-- What gpr_klist_delete left: the list without the entry, the entry alone in a list of its own, and
-- the memory off both.
abbrev pub Deleted : World Entries → Ptr → Ptr → List Ptr → List Ptr → Run Entries GprErr → Type 0
Deleted w p head ys zs r =
    (h : Entries) × (r ≡ done ok (record w { msg = []; heap = h }))
    × Ring h head (ys ++ zs)
    × Linked h p p
    × ((a : Ptr) → has a (head ∷ (ys ++ (p ∷ zs))) ≡ false → h a ≡ w.heap a)

-- The links when the entry between `x` and `y` is out.
record Skipped (h h' : Entries) (x y p : Ptr) : Type 0 where
  next_x : next_of (h' x) ≡ some y
  prev_y : prev_of (h' y) ≡ some x
  next_other : (r : Ptr) → r ≢ x → r ≢ p → next_of (h' r) ≡ next_of (h r)
  prev_other : (r : Ptr) → r ≢ y → r ≢ p → prev_of (h' r) ≡ prev_of (h r)

Skipped-Chain :
    (h h' : Entries) (p head : Ptr) (ys zs : List Ptr)
    → Ring h head (ys ++ (p ∷ zs))
    → Skipped h h' (last head ys) (first zs head) p
    → Chain h' head (ys ++ zs) head
Skipped-Chain h h' p head ys zs (c, d) s =
    let (off, off', valid, rest) = Distinct-middle (head ∷ ys) p zs d in
    let (front, back) = Chain-split h head ys p zs head c in
    let before : Chain h' head ys (first zs head) =
      relink h h' head ys p (first zs head) (Distinct-front (head ∷ ys) zs rest) front s.next_x
        s.prev_y (λ r i ne. s.next_other r ne (apart r p (head ∷ ys) i off))
        (λ r i. s.prev_other r (away ys zs rest r i) (apart r p ys i (ground (arith, off)))) in
    joined_chain zs rest off off' back s before
  where
    Distinct-front : (us vs : List Ptr) → Distinct (us ++ vs) → Distinct us
    Distinct-front [] vs d = tt
    Distinct-front (u ∷ us) vs d =
        (d.0, ground (arith, d.1, has-append u us vs), Distinct-front us vs d.2)

    away :
        (us vs : List Ptr)
        → Distinct (head ∷ (us ++ vs))
        → (r : Ptr) → has r us ≡ true
        → r ≢ first vs head
    away us [] d r i e = apart r head us i (ground (arith, d.1, has-append head us [])) e
    away us (v ∷ vs) d r i e = apart r v us i (Distinct-middle us v vs d.2).0 e

    joined_chain :
        (zs : List Ptr)
        → Distinct (head ∷ (ys ++ zs))
        → has p (head ∷ ys) ≡ false
        → has p zs ≡ false
        → Chain h p zs head
        → Skipped h h' (last head ys) (first zs head) p
        → Chain h' head ys (first zs head)
        → Chain h' head (ys ++ zs) head
    joined_chain [] d off off' back s before =
        subst (λ us. Chain h' head us head) (sym (append-nil ys)) before
    joined_chain (z ∷ zs) d off off' back s before =
        let (off_z, off_z', _, _) = Distinct-middle (head ∷ ys) z zs d in
        Chain-join h' head ys z zs head before (
          Chain-keep h h' z zs head
            (λ r i.
              s.next_other r
                (apart r (last head ys) (z ∷ zs) i
                  (Distinct-across (head ∷ ys) (z ∷ zs) (last head ys) d (has-last head ys)))
                (apart r p (z ∷ zs) i off'))
            (λ r i.
              s.prev_other r (apart r z (head ∷ zs) i (ground (arith, off_z, off_z')))
                (apart r p (head ∷ zs) i (ground (arith, off, off'))))
            back.1)

module _ (debug : Bool) (w : World Entries) (p head : Ptr) (ys zs : List Ptr)
    (ring : Ring w.heap head (ys ++ (p ∷ zs))) where
  abbrev x : Ptr
  x = last head ys

  abbrev y : Ptr
  y = first zs head

  parted :
      (has p (head ∷ ys) ≡ false) × (has p zs ≡ false) × (p ≢ null) × Distinct (head ∷ (ys ++ zs))
  parted = Distinct-middle (head ∷ ys) p zs ring.1

  link_x : Linked w.heap x p
  link_x = Chain-last w.heap head ys p (Chain-split w.heap head ys p zs head ring.0).0

  link_y : Linked w.heap p y
  link_y = Chain-first w.heap p zs head (Chain-split w.heap head ys p zs head ring.0).1

  x_in : has x (head ∷ (ys ++ (p ∷ zs))) ≡ true
  x_in = ground (arith, has-last head ys, has-append x ys (p ∷ zs))

  y_in : has y (head ∷ (ys ++ (p ∷ zs))) ≡ true
  y_in = ground (arith, has-first zs head, has-append y ys (p ∷ zs))

  x_apart : x ≢ p
  x_apart = apart x p (head ∷ ys) (has-last head ys) parted.0

  y_apart : y ≢ p
  y_apart = apart y p (head ∷ zs) (has-first zs head) (ground (arith, parted.0, parted.1))

  p-Live : Live w.heap p
  p-Live = live_next (w.heap p) y link_y.0

  abbrev h₁ : Entries
  h₁ = update (update w.heap y (link_prev x)) x (link_next y)

  abbrev h₂ : Entries
  h₂ = update h₁ p (link_prev p)

  abbrev h₃ : Entries
  h₃ = update h₂ p (link_next p)

  x_valid : x ≢ null
  x_valid = Distinct-valid x (head ∷ (ys ++ (p ∷ zs))) ring.1 x_in

  y_valid : y ≢ null
  y_valid = Distinct-valid y (head ∷ (ys ++ (p ∷ zs))) ring.1 y_in

  x-Live : Live w.heap x
  x-Live = live_next (w.heap x) p link_x.0

  y-Live : Live w.heap y
  y-Live = live_prev (w.heap y) p link_y.1

  p-Live₁ : Live h₁ p
  p-Live₁ = Live-joined debug w.msg w.calls w.heap x y x_valid y_valid x-Live y-Live p p-Live

  joins : Joined w.heap h₁ x y
  joins = del_entry-Joined debug w.msg w.calls w.heap x y x_valid y_valid x-Live y-Live

  next_kept : (r : Ptr) → r ≢ p → next_of (h₃ r) ≡ next_of (h₁ r)
  next_kept r ne = next_of-link_next_other h₂ p p r ne ∙ next_of-link_prev h₁ p p r

  prev_kept : (r : Ptr) → r ≢ p → prev_of (h₃ r) ≡ prev_of (h₁ r)
  prev_kept r ne = prev_of-link_next h₂ p p r ∙ prev_of-link_prev_other h₁ p p r ne

  skips : Skipped w.heap h₃ x y p
  skips = record {
    next_x = next_kept x x_apart ∙ joins.next_x;
    prev_y = prev_kept y y_apart ∙ joins.prev_y;
    next_other = λ r rx rp. next_kept r rp ∙ joins.next_other r rx;
    prev_other = λ r ry rp. prev_kept r rp ∙ joins.prev_other r ry;
  }

  alone : Linked h₃ p p
  alone = (
    next_of-link_next h₂ p p (Live-link_prev h₁ p p p p-Live₁),
    prev_of-link_next h₂ p p p ∙ prev_of-link_prev h₁ p p p-Live₁,
  )

  -- gpr_klist_delete of an entry of a circular list, in either build: the list is left with its
  -- other entries in their order, the entry is linked to itself, and no link off the list changes.
  pub klist_delete-Deleted : Deleted w p head ys zs (gpr_klist_delete debug p w)
  unfolding gpr_klist_delete gpr_err_raise
  klist_delete-Deleted = (
    h₃,
    ran,
    (Skipped-Chain w.heap h₃ p head ys zs ring skips, parted.3),
    alone,
    λ a off.
        rw (ne→not-== a p (away a off p p_in))
          (joins.frame a (away a off x x_in) (away a off y y_in)),
  )
    where
      p_in : has p (head ∷ (ys ++ (p ∷ zs))) ≡ true
      p_in = ground (arith, eq→== p p refl, has-append p ys (p ∷ zs))

      away :
          (a : Ptr)
          → has a (head ∷ (ys ++ (p ∷ zs))) ≡ false
          → (r : Ptr) → has r (head ∷ (ys ++ (p ∷ zs))) ≡ true
          → a ≢ r
      away a off r i e = apart r a (head ∷ (ys ++ (p ∷ zs))) i off (sym e)

      ran : gpr_klist_delete debug p w ≡ done ok (record w { msg = []; heap = h₃ })
      ran =
          let (e, at, next) = next_entry (w.heap p) y link_y.0 in
          let prev' : some e.prev ≡ some x = subst (λ o. prev_of o ≡ some x) at link_x.1 in
          let prev : e.prev ≡ x = cc in
          rw (ne→not-== p null parted.2, and-false debug)
            (rw (at, and_then, next, prev)
              (rw
                (
                  del_entry-eq debug w.msg w.calls w.heap x y x_valid y_valid x-Live y-Live,
                  and_then,
                )
                (rw (set_prev-eq [] w.calls h₁ p p parted.2 p-Live₁, and_then)
                  (rw
                    (
                      set_next-eq [] w.calls h₂ p p parted.2 (Live-link_prev h₁ p p p p-Live₁),
                      and_then,
                    )
                    refl))))
