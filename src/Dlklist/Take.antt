-- ===== src/Dlklist/Take.antt =====
-- gpr_dlklist_pop_front, gpr_dlklist_pop_back and gpr_dlklist_remove show what the contract says.
use mathlib.Core.Path.{subst}
use gpr.Base.{
  ℕ, ◌+◌, ◌-◌, ◌<◌, ◌≡◌, ◌≢◌, ◌%◌, refl, sym, ap, ◌∙◌, List, [], ◌∷◌, ◌++◌, Bool, ◌==◌,
  if◌then◌else◌, ne→not-==, not-==→ne, ==→eq, arith, length, length-append, and-false, Bool-cases,
  inl, inr, append-nil, le→not-leb, split_last, split_elem,
}
use gpr.Machine.{Ptr, null, done, Run, Returns}
use gpr.Err.{GprErr, ok, ko, raise}
use gpr.Seq.{take_out, Shows, freed}
use gpr.Dlklist.{Dl, Nodes, size_max}
use gpr.Dlklist.Ops.{gpr_dlklist_pop_front, gpr_dlklist_pop_back, gpr_dlklist_remove, remove_inside}
use gpr.Dlklist.Image.{Cells, items_of, Fresh, first}
use gpr.Dlklist.Link.{list_world, dlklist_traits, empty_short}
use gpr.Dlklist.Clear.{pop_front-one, pop_back-one}
use gpr.Dlklist.Unlink.{remove_inside-eq, pop_front-cons, pop_back-snoc}
use gpr.Dlklist.Contract.{state, Holds, raise-Shows, taken}

module _ (base : Nodes) (debug granted data_free : Bool) (list : Ptr) (msg : List ℕ)
    (calls : List Ptr) (list_valid : list ≢ null) where
  abbrev pub Takes : Cells → ℕ → Run Dl GprErr → Type 0
  Takes xs i r =
      Returns
        (Shows (Holds base)
          (take_out dlklist_traits debug granted data_free (state (items_of xs) msg calls) i))
        r

  -- There is nothing to take.
  pub none_left : (i : ℕ) → Takes [] i (raise ko "Empty list" (list_world base msg calls []))
  unfolding take_out
  none_left i = raise-Shows base debug data_free msg calls ko "Empty list" [] _ refl empty_short tt

  pub pop_front_refines :
      (xs : Cells)
      → Fresh base xs
      → Takes xs 0 (gpr_dlklist_pop_front debug data_free list (list_world base msg calls xs))
  unfolding gpr_dlklist_pop_front
  pop_front_refines [] v = rw (ne→not-== list null list_valid, and-false debug) (none_left 0)
  pop_front_refines ((p, d) ∷ []) v =
      taken base debug data_free msg calls granted _ [] [] p d 0 _ refl refl v
        (pop_front-one base debug data_free list msg list_valid calls p d v)
  pop_front_refines ((p, d) ∷ ((s, f) ∷ zs)) v =
      taken base debug data_free msg calls granted _ [] ((s, f) ∷ zs) p d 0 _ refl refl v
        (pop_front-cons base debug data_free list msg calls list_valid zs p d s f v)

  pop_back_several :
      (us : Cells) (p d : Ptr)
      → us ≢ []
      → Fresh base (us ++ ((p, d) ∷ []))
      → Takes (us ++ ((p, d) ∷ [])) (length (us ++ ((p, d) ∷ [])) - 1) (
          gpr_dlklist_pop_back debug data_free list
            (list_world base msg calls (us ++ ((p, d) ∷ []))))
  pop_back_several [] p d ne v = absurd (ne refl)
  pop_back_several (y ∷ ys) p d ne v =
      let (us, (q, e), ends) = split_last y ys in
      subst
        (λ ws.
          Fresh base (ws ++ ((p, d) ∷ []))
          → Takes (ws ++ ((p, d) ∷ [])) (length (ws ++ ((p, d) ∷ [])) - 1) (
              gpr_dlklist_pop_back debug data_free list
                (list_world base msg calls (ws ++ ((p, d) ∷ [])))))
        (sym ends)
        (λ v'.
          taken base debug data_free msg calls granted _ (us ++ ((q, e) ∷ [])) [] p d _ _ refl
            (omega (arith, length-append (us ++ ((q, e) ∷ [])) ((p, d) ∷ []))) v'
            (pop_back-snoc base debug data_free list msg calls list_valid us q e p d v'
              ∙ ap (λ ws. done ok (list_world base [] (calls ++ freed data_free (d ∷ [])) ws))
                  (sym (append-nil (us ++ ((q, e) ∷ []))))))
        v

  pub pop_back_refines :
      (xs : Cells)
      → Fresh base xs
      → Takes xs
          (length xs - 1)
          (gpr_dlklist_pop_back debug data_free list (list_world base msg calls xs))
  unfolding gpr_dlklist_pop_back
  pop_back_refines [] v = rw (ne→not-== list null list_valid, and-false debug) (none_left 0)
  pop_back_refines ((p, d) ∷ []) v =
      taken base debug data_free msg calls granted _ [] [] p d 0 _ refl refl v
        (pop_back-one base debug data_free list msg list_valid calls p d v)
  pop_back_refines ((p, d) ∷ (z ∷ zs)) v =
      let (us, (q, e), ends) = split_last z zs in
      subst
        (λ ws.
          Fresh base ws
          → Takes ws (length ws - 1)
              (gpr_dlklist_pop_back debug data_free list (list_world base msg calls ws)))
        (sym (ap (λ ws. (p, d) ∷ ws) ends))
        (pop_back_several ((p, d) ∷ us) q e (λ z. absurd (omega (arith, ap length z)))) v

  abbrev Removes : Cells → ℕ → Type 0
  Removes xs pos =
      Takes xs pos (gpr_dlklist_remove debug data_free list pos (list_world base msg calls xs))

  -- The checks pass at a position of the list, and its kind decides who takes the element.
  remove-eq :
      (xs : Cells) (pos : ℕ)
      → pos < length xs
      → length xs < size_max
      → Fresh base xs
      → gpr_dlklist_remove debug data_free list pos (list_world base msg calls xs) ≡ (
          if pos == 0
          then gpr_dlklist_pop_front debug data_free list (list_world base msg calls xs)
          else if pos == length xs - 1
          then gpr_dlklist_pop_back debug data_free list (list_world base msg calls xs)
          else remove_inside debug data_free list pos (list_world base msg calls xs))
  unfolding gpr_dlklist_remove
  remove-eq [] pos within room v = absurd (omega arith)
  remove-eq ((p, d) ∷ zs) pos within room v =
      let last : (length ((p, d) ∷ zs) + size_max - 1) % size_max ≡ length ((p, d) ∷ zs) - 1 =
        omega arith in
      rw (ne→not-== list null list_valid, and-false debug)
        (rw
          (
            le→not-leb (length ((p, d) ∷ zs)) pos within,
            and-false debug,
            ne→not-== p null v.0,
            last,
          )
          (elim (Bool-cases (pos == 0)) [
            | inl t ↦ rw t refl
            | inr f ↦ elim (Bool-cases (pos == length ((p, d) ∷ zs) - 1)) [
              | inl t ↦ rw (f, t) refl
              | inr g ↦ rw (f, g) refl
            ]
          ]))

  remove_behind :
      (xs us zs : Cells) (q e p d : Ptr) (pos : ℕ)
      → xs ≡ (us ++ ((q, e) ∷ [])) ++ ((p, d) ∷ zs)
      → length (us ++ ((q, e) ∷ [])) ≡ pos
      → pos ≢ length xs - 1
      → length xs < size_max
      → Fresh base xs
      → Takes xs pos (remove_inside debug data_free list pos (list_world base msg calls xs))
  remove_behind xs us [] q e p d pos split l last room v =
      absurd (
        last (omega (arith, l, ap length split, length-append (us ++ ((q, e) ∷ [])) ((p, d) ∷ []))))
  remove_behind xs us ((s, f) ∷ zs) q e p d pos split l last room v =
      taken base debug data_free msg calls granted xs (us ++ ((q, e) ∷ [])) ((s, f) ∷ zs) p d pos _
        split l v
        (rw (split, ← l)
          (remove_inside-eq base debug data_free list msg calls list_valid us zs q e p d s f
            (subst (Fresh base) split v) (subst (λ ws. length ws < size_max) split room)))

  remove_between :
      (xs ys zs : Cells) (p d : Ptr) (pos : ℕ)
      → xs ≡ ys ++ ((p, d) ∷ zs)
      → length ys ≡ pos
      → pos ≢ 0
      → pos ≢ length xs - 1
      → length xs < size_max
      → Fresh base xs
      → Takes xs pos (remove_inside debug data_free list pos (list_world base msg calls xs))
  remove_between xs [] zs p d pos split l first last room v = absurd (omega (arith, l))
  remove_between xs (y ∷ ys) zs p d pos split l first last room v =
      let (us, (q, e), ends) = split_last y ys in
      remove_behind xs us zs q e p d pos (split ∙ ap (λ ws. ws ++ ((p, d) ∷ zs)) ends)
        (sym (ap length ends) ∙ l) last room v

  pub remove_refines :
      (xs : Cells) (pos : ℕ)
      → pos < length xs
      → length xs < size_max
      → Fresh base xs
      → Removes xs pos
  remove_refines xs pos within room v =
      rw (remove-eq xs pos within room v) (elim (Bool-cases (pos == 0)) [
        | inl first ↦ rw (first, ==→eq _ _ first) (pop_front_refines xs v)
        | inr not_first ↦ elim (Bool-cases (pos == length xs - 1)) [
          | inl last ↦ rw (not_first, last, ==→eq _ _ last) (pop_back_refines xs v)
          | inr not_last ↦
              let (ys, (p, d), zs, e, l) = split_elem xs pos within in
              rw (not_first, not_last)
                (remove_between xs ys zs p d pos e l (not-==→ne _ _ not_first)
                  (not-==→ne _ _ not_last) room v)
        ]
      ])
