-- ===== src/Array/Insert.antt =====
-- The three functions that add an element meet the contract of a sequence, on every branch.
use mathlib.Core.Path.{subst}
use Prim.Native.String.{String}
use gpr.Base.{
  ℕ, ◌<◌, ◌≤◌, ◌≡◌, ◌≢◌, ◌⊎◌, refl, ◌∙◌, sym, ap, List, [], ◌++◌, Bool, true, false, ◌==◌, inl, inr,
  ne→not-==, eq→==, lt→ltb, le→not-ltb, arith, length, length-append, append-nil, and-false, ==→eq,
  Bool-cases, split_at, take-length_append, drop-length_append, ltb, ltb→lt, not-ltb→le, not-==→ne,
}
use gpr.Machine.{Ptr, null, Returns}
use gpr.Err.{GprErr, invalid_parameter, raise, codes, gpr_err_msg_len}
use gpr.Err.Raise.{raise_short}
use gpr.Seq.{State, Shows, add, fail}
use gpr.Array.{GprArray, Alloc, gpr_array_push_front, gpr_array_push_back, gpr_array_insert}
use gpr.Array.Inv.{IsArray, Holds, HasRoom, world, array_traits, item_short, index_short}
use gpr.Array.Grow.{after, push_front-Shows, push_back-Shows, insert_inside-Shows}

abbrev pub state : List Ptr → List ℕ → List Ptr → State
state xs msg calls = record { items = xs; msg = msg; calls = calls }

-- A check that fails leaves the array as it is.
pub raise-Shows :
    (e : GprErr) (m : String) (msg : List ℕ) (calls : List Ptr) (a : GprArray) (xs : List Ptr)
    → length (codes m) ≤ gpr_err_msg_len
    → IsArray a xs
    → Returns (Shows Holds (fail (state xs msg calls) e m)) (raise e m (world msg calls a))
raise-Shows e m msg calls a xs short v =
    rw (raise_short e m (world msg calls a) short)
      (record { code = refl; holds = v; message = refl; log = refl })

-- A debug build meets a `NULL` element, or the element is fine.
pub item_cases :
    (debug : Bool) (x : Ptr)
    → (debug ≡ true) ⊎ (x ≢ null)
    → ((debug ≡ true) × (x ≡ null)) ⊎ (x ≢ null)
item_cases debug x h = elim (Bool-cases (x == null)) [ inl e ↦ ground arith | inr e ↦ ground arith ]

module _ (debug : Bool) (alloc : Alloc) (elem_free : Bool) (arr x : Ptr) (a : GprArray)
    (msg : List ℕ) (calls : List Ptr) (arr_valid : arr ≢ null) where
  -- What the contract says of an element put between `ys` and `zs`.
  add-after :
      (ys zs : List Ptr)
      → x ≢ null
      → add array_traits debug alloc.granted elem_free (state (ys ++ zs) msg calls) x (length ys)
        ≡ after alloc x ys zs msg calls
  unfolding add
  add-after ys zs ne = rw (
    ne→not-== x null ne,
    inside,
    and-false debug,
    take-length_append ys zs,
    drop-length_append ys zs,
  )
    where
      inside : ltb (length (ys ++ zs)) (length ys) ≡ false
      inside = le→not-ltb _ _ (omega (arith, length-append ys zs))

  pub push_front_refines :
      (xs : List Ptr)
      → (debug ≡ true) ⊎ (x ≢ null)
      → IsArray a xs
      → HasRoom xs
      → Returns
          (Shows Holds (add array_traits debug alloc.granted elem_free (state xs msg calls) x 0))
          (gpr_array_push_front debug alloc arr x (world msg calls a))
  unfolding add gpr_array_push_front
  push_front_refines xs h v room = elim (item_cases debug x h) [
    | inl (d, e) ↦
        rw (d, ne→not-== arr null arr_valid, eq→== x null e)
          (raise-Shows invalid_parameter "Invalid element" msg calls a xs item_short v)
    | inr ne ↦
        rw (add-after [] xs ne)
          (push_front-Shows debug alloc arr x a xs msg calls arr_valid ne v room)
  ]

  push_back_at_end :
      (xs : List Ptr)
      → x ≢ null
      → IsArray a (xs ++ [])
      → HasRoom (xs ++ [])
      → Returns
          (Shows Holds (
            add array_traits debug alloc.granted elem_free
              (state (xs ++ []) msg calls)
              x
              (length (xs ++ []))))
          (gpr_array_push_back debug alloc arr x (world msg calls a))
  push_back_at_end xs ne v room =
      let end : length (xs ++ []) ≡ length xs = omega (arith, length-append xs []) in
      rw (end, add-after xs [] ne)
        (push_back-Shows debug alloc arr x a xs msg calls arr_valid ne v room)

  pub push_back_refines :
      (xs : List Ptr)
      → (debug ≡ true) ⊎ (x ≢ null)
      → IsArray a xs
      → HasRoom xs
      → Returns
          (Shows Holds
            (add array_traits debug alloc.granted elem_free (state xs msg calls) x (length xs)))
          (gpr_array_push_back debug alloc arr x (world msg calls a))
  unfolding add gpr_array_push_back
  push_back_refines xs h v room = elim (item_cases debug x h) [
    | inl (d, e) ↦
        rw (d, ne→not-== arr null arr_valid, eq→== x null e)
          (raise-Shows invalid_parameter "Invalid element" msg calls a xs item_short v)
    | inr ne ↦
        subst
          (λ ys.
            IsArray a ys
            → HasRoom ys
            → Returns
                (Shows Holds (
                  add array_traits debug alloc.granted elem_free (state ys msg calls) x
                    (length ys)))
                (gpr_array_push_back debug alloc arr x (world msg calls a)))
          (append-nil xs) (push_back_at_end xs ne) v room
  ]

  -- gpr_array_insert shows what the contract says.
  abbrev pub Inserts : List Ptr → ℕ → Type 0
  Inserts xs index =
      Returns
        (Shows Holds (add array_traits debug alloc.granted elem_free (state xs msg calls) x index))
        (gpr_array_insert debug alloc arr x index (world msg calls a))

  -- A position inside: neither end.
  insert_between :
      (ys zs xs : List Ptr) (index : ℕ)
      → xs ≡ ys ++ zs
      → length ys ≡ index
      → index ≢ 0
      → index ≢ length xs
      → x ≢ null
      → IsArray a xs
      → HasRoom xs
      → Inserts xs index
  unfolding gpr_array_insert
  insert_between ys zs xs index e l first last ne v room =
      let v' : IsArray a (ys ++ zs) = subst (IsArray a) e v in
      let room' : HasRoom (ys ++ zs) = subst HasRoom e room in
      rw (ne→not-== arr null arr_valid, ne→not-== x null ne, and-false debug)
        (rw
          (
            inside,
            and-false debug,
            ne→not-== index 0 first,
            ne→not-== index a.size (λ h. last (h ∙ v.size)),
          )
          (rw (e, ← l, add-after ys zs ne)
            (insert_inside-Shows alloc x a ys zs msg calls ne v' room' arr arr_valid
              (λ z. last (omega (arith, l, ap length e, length-append ys zs, ap length z))))))
    where
      inside : ltb a.size index ≡ false
      inside = le→not-ltb _ _ (omega (arith, v.size, l, ap length e, length-append ys zs))

  insert_beyond :
      (xs : List Ptr) (index : ℕ)
      → length xs < index
      → debug ≡ true
      → x ≢ null
      → IsArray a xs
      → Inserts xs index
  unfolding gpr_array_insert add
  insert_beyond xs index far d ne v =
      rw (d, ne→not-== arr null arr_valid, ne→not-== x null ne)
        (rw (lt→ltb (length xs) index far, lt→ltb a.size index (omega (arith, v.size)))
          (raise-Shows invalid_parameter "Invalid index" msg calls a xs index_short v))

  insert_first : (xs : List Ptr) → x ≢ null → IsArray a xs → HasRoom xs → Inserts xs 0
  unfolding gpr_array_insert
  insert_first xs ne v room =
      rw (ne→not-== arr null arr_valid, ne→not-== x null ne, and-false debug)
        (rw (le→not-ltb a.size 0 (omega arith), and-false debug)
          (push_front_refines xs (inr ne) v room))

  insert_last :
      (xs : List Ptr) (index : ℕ)
      → index ≡ length xs
      → index ≢ 0
      → x ≢ null
      → IsArray a xs
      → HasRoom xs
      → Inserts xs index
  unfolding gpr_array_insert
  insert_last xs index e first ne v room =
      rw (ne→not-== arr null arr_valid, ne→not-== x null ne, and-false debug)
        (rw
          (
            le→not-ltb a.size index (omega (arith, v.size)),
            and-false debug,
            ne→not-== index 0 first,
            eq→== index a.size (omega (arith, v.size)),
          )
          (rw e (push_back_refines xs (inr ne) v room)))

  insert_item :
      (xs : List Ptr) (index : ℕ)
      → x ≢ null
      → (debug ≡ true) ⊎ (index ≤ length xs)
      → IsArray a xs
      → HasRoom xs
      → Inserts xs index
  insert_item xs index ne h v room = elim (Bool-cases (ltb (length xs) index)) [
    | inl far ↦ insert_beyond xs index (ltb→lt _ _ far) (ground arith) ne v
    | inr near ↦ elim (Bool-cases (index == 0)) [
      | inl first ↦ subst (Inserts xs) (sym (==→eq _ _ first)) (insert_first xs ne v room)
      | inr not_first ↦ elim (Bool-cases (index == length xs)) [
        | inl last ↦ insert_last xs index (==→eq _ _ last) (not-==→ne _ _ not_first) ne v room
        | inr not_last ↦
            let (ys, zs, e, l) = split_at xs index (not-ltb→le _ _ near) in
            insert_between ys zs xs index e l (not-==→ne _ _ not_first) (not-==→ne _ _ not_last) ne
              v room
      ]
    ]
  ]

  pub insert_refines :
      (xs : List Ptr) (index : ℕ)
      → (debug ≡ true) ⊎ (x ≢ null) × (index ≤ length xs)
      → IsArray a xs
      → HasRoom xs
      → Inserts xs index
  unfolding gpr_array_insert add
  insert_refines xs index h v room = elim (item_cases debug x (ground arith)) [
    | inl (d, e) ↦
        rw (d, ne→not-== arr null arr_valid, eq→== x null e)
          (raise-Shows invalid_parameter "Invalid element" msg calls a xs item_short v)
    | inr ne ↦ insert_item xs index ne (ground arith) v room
  ]
