-- ===== src/Dlklist/Add.antt =====
-- gpr_dlklist_push_front, gpr_dlklist_push_back and gpr_dlklist_insert show what the contract says.
use mathlib.Core.Path.{subst}
use gpr.Base.{
  ℕ, ◌≡◌, ◌≢◌, ◌⊎◌, refl, sym, List, [], ◌∷◌, ◌++◌, none, Bool, true, false, ◌==◌, ne→not-==, eq→==,
  not-==→ne, ==→eq, arith, length, and-false, Bool-cases, inl, inr, append-nil, split_last,
}
use gpr.Machine.{Ptr, null, Run, Returns, and_then}
use gpr.Err.{GprErr, invalid_parameter}
use gpr.Seq.{add, Shows}
use gpr.Dlklist.{Dl, Nodes}
use gpr.Dlklist.Ops.{gpr_dlklist_push_front, gpr_dlklist_push_back}
use gpr.Dlklist.Image.{Cells, items_of, has, image, Fresh}
use gpr.Dlklist.Link.{list_world, dlklist_traits, new_node-null, item_short, list_of}
use gpr.Dlklist.Push.{HasRoom, push_front-nil, push_front-cons, push_back-nil, push_back-snoc}
use gpr.Dlklist.Contract.{state, granted, Holds, raise-Shows, added, refused}

-- What `malloc` returns is `NULL` or the address of no node.
abbrev pub Unused : Nodes → Cells → Ptr → Type 0
Unused base xs fresh = (fresh ≢ null) → (has fresh xs ≡ false) × (base fresh ≡ none)

-- A debug build meets a `NULL` element, or the element is fine.
pub item_cases :
    (debug : Bool) (x : Ptr)
    → (debug ≡ true) ⊎ (x ≢ null)
    → ((debug ≡ true) × (x ≡ null)) ⊎ (x ≢ null)
item_cases debug x h = elim (Bool-cases (x == null)) [ inl e ↦ ground arith | inr e ↦ ground arith ]

pub null_cases : (p : Ptr) → (p ≡ null) ⊎ (p ≢ null)
null_cases p = elim (Bool-cases (p == null)) [
  | inl e ↦ inl (==→eq p null e)
  | inr e ↦ inr (not-==→ne p null e)
]

module _ (base : Nodes) (debug data_free : Bool) (fresh list x : Ptr) (msg : List ℕ)
    (calls : List Ptr) (list_valid : list ≢ null) where
  abbrev pub Shown : Cells → ℕ → Run Dl GprErr → Type 0
  Shown xs i r =
      Returns
        (Shows (Holds base)
          (add dlklist_traits debug (granted fresh) data_free (state (items_of xs) msg calls) x i))
        r

  push_front_granted :
      (xs : Cells)
      → x ≢ null
      → fresh ≢ null
      → Unused base xs fresh
      → HasRoom xs
      → Fresh base xs
      → Shown xs 0 (gpr_dlklist_push_front debug fresh list x (list_world base msg calls xs))
  push_front_granted [] nx nf free room v =
      added base debug data_free msg calls fresh x nx [] 0 [] [] _ refl refl nf (free nf).1
        (free nf).0 v (push_front-nil base debug fresh list x msg calls list_valid nf nx)
  push_front_granted ((p, d) ∷ zs) nx nf free room v =
      added base debug data_free msg calls fresh x nx ((p, d) ∷ zs) 0 [] ((p, d) ∷ zs) _ refl refl
        nf (free nf).1 (free nf).0 v
        (push_front-cons base debug fresh list x msg calls list_valid nf nx p d zs room v
          (free nf).0)

  push_front_refused :
      (xs : Cells)
      → x ≢ null
      → fresh ≡ null
      → Fresh base xs
      → Shown xs 0 (gpr_dlklist_push_front debug fresh list x (list_world base msg calls xs))
  unfolding gpr_dlklist_push_front
  push_front_refused xs nx nf v =
      refused base debug data_free msg calls fresh x nx xs 0 _ (omega arith) nf v (
        rw (ne→not-== list null list_valid, ne→not-== x null nx, and-false debug, nf)
          (rw (new_node-null msg calls (list_of xs) (image base null null xs) debug x nx, and_then)
            refl))

  pub push_front_refines :
      (xs : Cells)
      → (debug ≡ true) ⊎ (x ≢ null)
      → Unused base xs fresh
      → HasRoom xs
      → Fresh base xs
      → Shown xs 0 (gpr_dlklist_push_front debug fresh list x (list_world base msg calls xs))
  unfolding gpr_dlklist_push_front add
  push_front_refines xs h free room v = elim (item_cases debug x h) [
    | inl (d, e) ↦
        rw (d, ne→not-== list null list_valid, eq→== x null e)
          (raise-Shows base debug data_free msg calls invalid_parameter "Invalid data" xs _ refl
            item_short v)
    | inr nx ↦ elim (null_cases fresh) [
      | inl nf ↦ push_front_refused xs nx nf v
      | inr nf ↦ push_front_granted xs nx nf free room v
    ]
  ]

  push_back_granted :
      (xs : Cells)
      → x ≢ null
      → fresh ≢ null
      → Unused base xs fresh
      → HasRoom xs
      → Fresh base xs
      → Shown xs
          (length xs)
          (gpr_dlklist_push_back debug fresh list x (list_world base msg calls xs))
  push_back_granted [] nx nf free room v =
      added base debug data_free msg calls fresh x nx [] 0 [] [] _ refl refl nf (free nf).1
        (free nf).0 v (push_back-nil base debug fresh list x msg calls list_valid nf nx)
  push_back_granted (y ∷ zs) nx nf free room v =
      let (us, (q, e), ends) = split_last y zs in
      subst
        (λ ws.
          Unused base ws fresh
          → HasRoom ws
          → Fresh base ws
          → Shown ws (length ws)
              (gpr_dlklist_push_back debug fresh list x (list_world base msg calls ws)))
        (sym ends)
        (λ free' room' v'.
          added base debug data_free msg calls fresh x nx _ _ (us ++ ((q, e) ∷ [])) [] _
            (sym (append-nil (us ++ ((q, e) ∷ [])))) refl nf (free' nf).1 (free' nf).0 v'
            (push_back-snoc base debug fresh list x msg calls list_valid nf nx us q e room' v'
              (free' nf).0))
        free room v

  push_back_refused :
      (xs : Cells)
      → x ≢ null
      → fresh ≡ null
      → Fresh base xs
      → Shown xs
          (length xs)
          (gpr_dlklist_push_back debug fresh list x (list_world base msg calls xs))
  unfolding gpr_dlklist_push_back
  push_back_refused xs nx nf v =
      refused base debug data_free msg calls fresh x nx xs (length xs) _ (omega arith) nf v (
        rw (ne→not-== list null list_valid, ne→not-== x null nx, and-false debug, nf)
          (rw (new_node-null msg calls (list_of xs) (image base null null xs) debug x nx, and_then)
            refl))

  pub push_back_refines :
      (xs : Cells)
      → (debug ≡ true) ⊎ (x ≢ null)
      → Unused base xs fresh
      → HasRoom xs
      → Fresh base xs
      → Shown xs
          (length xs)
          (gpr_dlklist_push_back debug fresh list x (list_world base msg calls xs))
  unfolding gpr_dlklist_push_back add
  push_back_refines xs h free room v = elim (item_cases debug x h) [
    | inl (d, e) ↦
        rw (d, ne→not-== list null list_valid, eq→== x null e)
          (raise-Shows base debug data_free msg calls invalid_parameter "Invalid data" xs _ refl
            item_short v)
    | inr nx ↦ elim (null_cases fresh) [
      | inl nf ↦ push_back_refused xs nx nf v
      | inr nf ↦ push_back_granted xs nx nf free room v
    ]
  ]
