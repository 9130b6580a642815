-- ===== src/Klist/Edit.antt =====
-- gpr_klist_push_front, gpr_klist_push_back and gpr_klist_delete on a circular list.
use mathlib.Core.Path.{subst}
use gpr.Base.{
  ◌≡◌, ◌≢◌, ◌⊎◌, refl, sym, ◌∙◌, List, [], ◌∷◌, ◌++◌, Bool, true, false, ◌==◌, arith, ne→not-==,
  eq→==, and-false, split_last, Bool-cases, inl, inr,
}
use gpr.Machine.{Ptr, null, World, done, and_then, Run}
use gpr.Err.{GprErr, ok}
use gpr.Klist.{Entries, gpr_klist_push_front, gpr_klist_push_back, list_add_entry}
use gpr.Klist.Chain.{
  has, Live, Linked, Chain, Distinct, Ring, has-append, Chain-split, Chain-join, Chain-keep,
  live_next, live_prev, next_entry, prev_entry, Distinct-middle, Distinct-insert, Distinct-snoc,
}
use gpr.Klist.Splice.{Between, added, add_entry-eq, add_entry-Between}

abbrev pub first : List Ptr → Ptr → Ptr
first [] b = b
first (x ∷ xs) b = x

abbrev pub last : Ptr → List Ptr → Ptr
last a [] = a
last a (x ∷ xs) = last x xs

pub apart : (r p : Ptr) (xs : List Ptr) → has r xs ≡ true → has p xs ≡ false → r ≢ p
apart r p xs i o e = cc

nil_or_snoc : (xs : List Ptr) → (xs ≡ []) ⊎ ((ys : List Ptr) × (q : Ptr) × (xs ≡ ys ++ (q ∷ [])))
nil_or_snoc [] = inl refl
nil_or_snoc (x ∷ xs) = inr (split_last x xs)

-- The links at the two ends of a chain.
pub Chain-first :
    (h : Entries) (a : Ptr) (xs : List Ptr) (b : Ptr) → Chain h a xs b → Linked h a (first xs b)
Chain-first h a [] b c = c
Chain-first h a (x ∷ xs) b c = c.0

pub Chain-last :
    (h : Entries) (a : Ptr) (xs : List Ptr) (b : Ptr) → Chain h a xs b → Linked h (last a xs) b
Chain-last h a [] b c = c
Chain-last h a (x ∷ xs) b c = Chain-last h x xs b c.1

pub has-first : (xs : List Ptr) (b : Ptr) → has (first xs b) (b ∷ xs) ≡ true
has-first [] b = rw (eq→== b b refl) refl
has-first (x ∷ xs) b = ground arith

pub has-last : (a : Ptr) (xs : List Ptr) → has (last a xs) (a ∷ xs) ≡ true
has-last a [] = rw (eq→== a a refl) refl
has-last a (x ∷ xs) = ground (arith, has-last x xs)

pub Distinct-valid : (r : Ptr) (xs : List Ptr) → Distinct xs → has r xs ≡ true → r ≢ null
Distinct-valid r [] d i = absurd (cc)
Distinct-valid r (x ∷ xs) d i = elim (Bool-cases (r == x)) [
  | inl e ↦ ground (arith, e)
  | inr e ↦ Distinct-valid r xs d.2 (ground (arith, e))
]

-- The entry of a ring is there.
pub Ring-Live : (h : Entries) (head : Ptr) (xs : List Ptr) → Ring h head xs → Live h head
Ring-Live h head xs (c, d) = live_next (h head) _ (Chain-first h head xs head c).0

-- What an operation on a circular list left: the list, and the memory off it and off `n`.
abbrev pub Left : World Entries → Ptr → Ptr → List Ptr → List Ptr → Run Entries GprErr → Type 0
Left w n head xs xs' r =
    (h : Entries) × (r ≡ done ok (record w { msg = []; heap = h }))
    × Ring h head xs'
    × ((a : Ptr) → a ≢ n → has a (head ∷ xs) ≡ false → h a ≡ w.heap a)

module _ (h h' : Entries) (n head : Ptr) where
  front-Between :
      (xs : List Ptr)
      → Ring h head xs
      → has n (head ∷ xs) ≡ false
      → Between h h' head n (first xs head)
      → Chain h' head (n ∷ xs) head
  front-Between [] (c, d) out b = ((b.next_x, b.prev_n), (b.next_n, b.prev_y))
  front-Between (z ∷ zs) (c, d) out b = (
    (b.next_x, b.prev_n),
    (
      (b.next_n, b.prev_y),
      Chain-keep h h' z zs head
          (λ r i.
            b.next_other r (apart r head (z ∷ zs) i d.1)
              (apart r n (z ∷ zs) i (ground (arith, out))))
          (λ r i.
            b.prev_other r (apart r z (head ∷ zs) i (ground (arith, d.1, d.2.1)))
              (apart r n (head ∷ zs) i (ground (arith, out))))
          c.1,
    ),
  )

  back-Between :
      (ys : List Ptr) (q : Ptr)
      → Ring h head (ys ++ (q ∷ []))
      → has n (head ∷ (ys ++ (q ∷ []))) ≡ false
      → Between h h' q n head
      → Chain h' head ((ys ++ (q ∷ [])) ++ (n ∷ [])) head
  back-Between ys q (c, d) out b =
      let (front, end) = Chain-split h head ys q [] head c in
      Chain-join h' head (ys ++ (q ∷ [])) n [] head
        (Chain-join h' head ys q [] n
          (Chain-keep h h' head ys q
            (λ r i.
              b.next_other r
                (apart r q (head ∷ ys) i (ground (arith, off_q, d.1, has-append head ys (q ∷ []))))
                (apart r n (head ∷ ys) i (ground (arith, out, has-append n ys (q ∷ [])))))
            (λ r i.
              b.prev_other r
                (apart r head (q ∷ ys) i (ground (arith, d.1, has-append head ys (q ∷ []))))
                (apart r n (q ∷ ys) i (ground (arith, out, has-append n ys (q ∷ [])))))
            front)
          (b.next_x, b.prev_n))
        (b.next_n, b.prev_y)
    where
      off_q : has q ys ≡ false
      off_q = (Distinct-middle ys q [] d.2).0

module _ (debug : Bool) (w : World Entries) (n head : Ptr) (xs : List Ptr)
    (ring : Ring w.heap head xs) (n_valid : n ≢ null) (n_live : Live w.heap n)
    (out : has n (head ∷ xs) ≡ false) where
  head-Live : Live w.heap head
  head-Live = Ring-Live w.heap head xs ring

  -- The heap when `n` is put between two entries of the ring.
  put-Between :
      (x y : Ptr) (xs' : List Ptr) (r : Run Entries GprErr)
      → has x (head ∷ xs) ≡ true
      → has y (head ∷ xs) ≡ true
      → Linked w.heap x y
      → ((h' : Entries) → Between w.heap h' x n y → Ring h' head xs')
      → r ≡ list_add_entry debug n x y w
      → Left w n head xs xs' r
  put-Between x y xs' r ix iy l ring' ran =
      let x_valid = Distinct-valid x (head ∷ xs) ring.1 ix in
      let y_valid = Distinct-valid y (head ∷ xs) ring.1 iy in
      let x_live = live_next (w.heap x) y l.0 in
      let y_live = live_prev (w.heap y) x l.1 in
      let b =
        add_entry-Between debug w.msg w.calls w.heap n x y n_valid x_valid y_valid n_live x_live
          y_live (λ e. apart x n (head ∷ xs) ix out (sym e))
          (λ e. apart y n (head ∷ xs) iy out (sym e)) in
      (
        added debug w.msg w.calls w.heap n x y n_valid x_valid y_valid n_live x_live y_live,
        ran
            ∙ add_entry-eq debug w.msg w.calls w.heap n x y n_valid x_valid y_valid n_live x_live
                y_live,
        ring' _ b,
        λ a other off.
            b.frame a (λ e. apart x a (head ∷ xs) ix off (sym e)) other
              (λ e. apart y a (head ∷ xs) iy off (sym e)),
      )

  push_front-Left : Left w n head xs (n ∷ xs) (gpr_klist_push_front debug n head w)
  unfolding gpr_klist_push_front
  push_front-Left =
      let l = Chain-first w.heap head xs head ring.0 in
      put-Between head (first xs head) (n ∷ xs) _ (rw (eq→== head head refl) refl)
        (has-first xs head) l
        (λ h' b. (
          front-Between w.heap h' n head xs ring out b,
          Distinct-insert (head ∷ []) n xs ring.1 n_valid out,
        ))
        (let (e, at, next) = next_entry (w.heap head) (first xs head) l.0 in
          rw (ne→not-== n null n_valid, ne→not-== head null ring.1.0, and-false debug)
            (rw (at, and_then) (rw next refl)))

  push_back-none : xs ≡ [] → Left w n head xs (xs ++ (n ∷ [])) (gpr_klist_push_back debug n head w)
  unfolding gpr_klist_push_back
  push_back-none empty =
      let c : Linked w.heap head head = subst (λ us. Chain w.heap head us head) empty ring.0 in
      put-Between head head (xs ++ (n ∷ [])) _ (rw (eq→== head head refl) refl)
        (rw (eq→== head head refl) refl) c
        (λ h' b. rw empty (
          ((b.next_x, b.prev_n), (b.next_n, b.prev_y)),
          (ring.1.0, ground (arith, out), (n_valid, refl, tt)),
        ))
        (let (e, at, prev) = prev_entry (w.heap head) head c.1 in
          rw (ne→not-== n null n_valid, ne→not-== head null ring.1.0, and-false debug)
            (rw (at, and_then) (rw prev refl)))

  push_back-snoc :
      (ys : List Ptr) (q : Ptr)
      → xs ≡ ys ++ (q ∷ [])
      → Left w n head xs (xs ++ (n ∷ [])) (gpr_klist_push_back debug n head w)
  unfolding gpr_klist_push_back
  push_back-snoc ys q split =
      let r : Ring w.heap head (ys ++ (q ∷ [])) = subst (Ring w.heap head) split ring in
      let out' : has n (head ∷ (ys ++ (q ∷ []))) ≡ false =
        subst (λ us. has n (head ∷ us) ≡ false) split out in
      let l : Linked w.heap q head = (Chain-split w.heap head ys q [] head r.0).1 in
      put-Between q head (xs ++ (n ∷ [])) _ (rw split (ground (arith, has-append q ys (q ∷ []))))
        (rw (eq→== head head refl) refl) l
        (λ h' b. rw split (
          back-Between w.heap h' n head ys q r out' b,
          Distinct-snoc (head ∷ (ys ++ (q ∷ []))) n r.1 n_valid out',
        ))
        (let (e, at, prev) = prev_entry (w.heap head) q l.1 in
          rw (ne→not-== n null n_valid, ne→not-== head null ring.1.0, and-false debug)
            (rw (at, and_then) (rw prev refl)))

  push_back-Left : Left w n head xs (xs ++ (n ∷ [])) (gpr_klist_push_back debug n head w)
  push_back-Left = elim (nil_or_snoc xs) [
    | inl e ↦ push_back-none e
    | inr (ys, q, e) ↦ push_back-snoc ys q e
  ]

  -- gpr_klist_push_front and gpr_klist_push_back of an entry that is not in the list, in either
  -- build: the circular list has the entry at that end, and no link off the list and off the entry
  -- changes.
  pub klist_push-Ring :
      Left w n head xs (n ∷ xs) (gpr_klist_push_front debug n head w)
      × Left w n head xs (xs ++ (n ∷ [])) (gpr_klist_push_back debug n head w)
  klist_push-Ring = (push_front-Left, push_back-Left)
