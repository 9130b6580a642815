-- ===== src/Dlklist/Insert.antt =====
-- gpr_dlklist_insert shows what the contract says.
use mathlib.Core.Path.{subst}
use gpr.Base.{
  ℕ, ◌<◌, ◌≤◌, ◌≡◌, ◌≢◌, ◌⊎◌, refl, sym, ap, ◌∙◌, List, [], ◌∷◌, ◌++◌, Bool, true, false, ◌==◌,
  ne→not-==, eq→==, not-==→ne, ==→eq, arith, length, length-append, and-false, Bool-cases, inl, inr,
  le→not-ltb, ltb, lt→ltb, ltb→lt, not-ltb→le, split_last, split_at,
}
use gpr.Machine.{Ptr, null, and_then}
use gpr.Err.{invalid_parameter}
use gpr.Seq.{add}
use gpr.Dlklist.{Nodes}
use gpr.Dlklist.Ops.{gpr_dlklist_insert, insert_inside}
use gpr.Dlklist.Image.{Cells, items_of, has, image, Fresh, length-items_of, first}
use gpr.Dlklist.Link.{list_world, new_node-null, item_short, index_short, list_of}
use gpr.Dlklist.Push.{HasRoom}
use gpr.Dlklist.Inside.{insert_inside-eq}
use gpr.Dlklist.Contract.{raise-Shows, added, refused}
use gpr.Dlklist.Add.{Unused, item_cases, null_cases, Shown, push_front_refines, push_back_refines}

module _ (base : Nodes) (debug data_free : Bool) (fresh list x : Ptr) (msg : List ℕ)
    (calls : List Ptr) (list_valid : list ≢ null) where
  abbrev Inserts : Cells → ℕ → Type 0
  Inserts xs pos =
      Shown base debug data_free fresh list x msg calls list_valid xs pos
        (gpr_dlklist_insert debug fresh list x pos (list_world base msg calls xs))

  -- A position inside is neither end.
  insert_at_middle :
      (xs : Cells) (pos : ℕ)
      → pos ≢ 0
      → pos < length xs
      → x ≢ null
      → gpr_dlklist_insert debug fresh list x pos (list_world base msg calls xs)
        ≡ insert_inside debug fresh list x pos (list_world base msg calls xs)
  unfolding gpr_dlklist_insert
  insert_at_middle xs pos first last nx =
      rw (ne→not-== list null list_valid, ne→not-== x null nx, and-false debug)
        (rw
          (
            le→not-ltb (length xs) pos (omega arith),
            and-false debug,
            ne→not-== pos 0 first,
            ne→not-== pos (length xs) (omega arith),
          )
          refl)

  insert_refused :
      (xs : Cells) (pos : ℕ)
      → pos ≢ 0
      → pos < length xs
      → x ≢ null
      → fresh ≡ null
      → Fresh base xs
      → Inserts xs pos
  unfolding insert_inside
  insert_refused xs pos first last nx nf v =
      refused base debug data_free msg calls fresh x nx xs pos _ (omega arith) nf v (
        insert_at_middle xs pos first last nx
        ∙ rw nf (
            rw (new_node-null msg calls (list_of xs) (image base null null xs) debug x nx, and_then)
              refl))

  insert_behind :
      (xs us zs : Cells) (q e p d : Ptr) (pos : ℕ)
      → xs ≡ (us ++ ((q, e) ∷ [])) ++ ((p, d) ∷ zs)
      → length (us ++ ((q, e) ∷ [])) ≡ pos
      → x ≢ null
      → fresh ≢ null
      → Unused base xs fresh
      → HasRoom xs
      → Fresh base xs
      → Inserts xs pos
  insert_behind xs us zs q e p d pos split l nx nf free room v =
      added base debug data_free msg calls fresh x nx xs pos (us ++ ((q, e) ∷ [])) ((p, d) ∷ zs) _
        split l nf (free nf).1 (free nf).0 v
        (insert_at_middle xs pos (omega (arith, l, length-append us ((q, e) ∷ [])))
            (omega (arith, l, ap length split, length-append (us ++ ((q, e) ∷ [])) ((p, d) ∷ zs)))
            nx
          ∙ rw (split, ← l)
              (insert_inside-eq base debug list msg calls list_valid us zs q e p d
                (subst (Fresh base) split v) (subst HasRoom split room) fresh x nf nx
                (subst (λ ws. has fresh ws ≡ false) split (free nf).0)))

  insert_granted :
      (xs ys zs : Cells) (pos : ℕ)
      → xs ≡ ys ++ zs
      → length ys ≡ pos
      → pos ≢ 0
      → pos < length xs
      → x ≢ null
      → fresh ≢ null
      → Unused base xs fresh
      → HasRoom xs
      → Fresh base xs
      → Inserts xs pos
  insert_granted xs [] zs pos split l first last nx nf free room v = absurd (omega (arith, l))
  insert_granted xs (y ∷ ys) [] pos split l first last nx nf free room v =
      absurd (omega (arith, l, ap length split, length-append (y ∷ ys) []))
  insert_granted xs (y ∷ ys) ((p, d) ∷ zs) pos split l first last nx nf free room v =
      let (us, (q, e), ends) = split_last y ys in
      insert_behind xs us zs q e p d pos (split ∙ ap (λ ws. ws ++ ((p, d) ∷ zs)) ends)
        (sym (ap length ends) ∙ l) nx nf free room v

  insert_item :
      (xs : Cells) (pos : ℕ)
      → x ≢ null
      → pos ≤ length xs
      → Unused base xs fresh
      → HasRoom xs
      → Fresh base xs
      → Inserts xs pos
  unfolding gpr_dlklist_insert
  insert_item xs pos nx within free room v = elim (Bool-cases (pos == 0)) [
    | inl first ↦ subst (Inserts xs) (sym (==→eq _ _ first)) (
        rw (ne→not-== list null list_valid, ne→not-== x null nx, and-false debug)
          (rw (le→not-ltb (length xs) 0 (omega arith), and-false debug)
            (push_front_refines base debug data_free fresh list x msg calls list_valid xs (inr nx)
              free room v)))
    | inr not_first ↦ elim (Bool-cases (pos == length xs)) [
      | inl last ↦
          rw (ne→not-== list null list_valid, ne→not-== x null nx, and-false debug)
            (rw
              (le→not-ltb (length xs) pos within, and-false debug, not_first, last, ==→eq _ _ last)
              (push_back_refines base debug data_free fresh list x msg calls list_valid xs (inr nx)
                free room v))
      | inr not_last ↦
          let inside : pos < length xs = omega (arith, not-==→ne _ _ not_last) in
          elim (null_cases fresh) [
            | inl nf ↦ insert_refused xs pos (not-==→ne _ _ not_first) inside nx nf v
            | inr nf ↦
                let (ys, zs, e, l) = split_at xs pos within in
                insert_granted xs ys zs pos e l (not-==→ne _ _ not_first) inside nx nf free room v
          ]
    ]
  ]

  insert_beyond :
      (xs : Cells) (pos : ℕ)
      → length xs < pos
      → debug ≡ true
      → x ≢ null
      → Fresh base xs
      → Inserts xs pos
  unfolding gpr_dlklist_insert add
  insert_beyond xs pos far d nx v =
      rw (d, ne→not-== list null list_valid, ne→not-== x null nx)
        (rw
          (
            lt→ltb (length (items_of xs)) pos (omega (arith, length-items_of xs)),
            lt→ltb (length xs) pos far,
          )
          (raise-Shows base debug data_free msg calls invalid_parameter "Invalid position" xs _ refl
            index_short v))

  pub insert_refines :
      (xs : Cells) (pos : ℕ)
      → (debug ≡ true) ⊎ (x ≢ null) × (pos ≤ length xs)
      → Unused base xs fresh
      → HasRoom xs
      → Fresh base xs
      → Inserts xs pos
  unfolding gpr_dlklist_insert add
  insert_refines xs pos h free room v = elim (item_cases debug x (ground arith)) [
    | inl (d, e) ↦
        rw (d, ne→not-== list null list_valid, eq→== x null e)
          (raise-Shows base debug data_free msg calls invalid_parameter "Invalid data" xs _ refl
            item_short v)
    | inr nx ↦ elim (Bool-cases (ltb (length xs) pos)) [
      | inl far ↦ insert_beyond xs pos (ltb→lt _ _ far) (ground (arith, ltb→lt _ _ far)) nx v
      | inr near ↦ insert_item xs pos nx (not-ltb→le _ _ near) free room v
    ]
  ]
