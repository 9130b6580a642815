-- ===== src/Dlklist/Contract.antt =====
-- What the contract of Seq.antt says of a list of cells, and how a run shows it.
use mathlib.Core.Path.{subst}
use Prim.Native.String.{String}
use gpr.Base.{
  ℕ, ◌≤◌, ◌≡◌, ◌≢◌, refl, sym, ap, ◌∙◌, List, [], ◌∷◌, ◌++◌, none, Bool, true, false, ◌==◌,
  if◌then◌else◌, ne→not-==, eq→==, arith, length, length-append, and-false, le→not-ltb,
  take-length_append, drop-length_append, drop-suc-length_append, get_elem?-length_append,
}
use gpr.Machine.{Ptr, null, done, Run, Returns}
use gpr.Err.{GprErr, ok, memory_failure, raise, codes, gpr_err_msg_len}
use gpr.Err.Raise.{raise_short}
use gpr.Seq.{freed, add, take_out, fail, Shows, State, remove_at, item, insert_at}
use gpr.Dlklist.{Dl, Nodes}
use gpr.Dlklist.Image.{
  Cells, items_of, has, Fresh, dl, Fresh-insert, Fresh-Cell, Cell, items_of-append, length-items_of,
}
use gpr.Dlklist.Link.{list_world, dlklist_traits, memory_short}

abbrev pub state : List Ptr → List ℕ → List Ptr → State
state xs msg calls = record { items = xs; msg = msg; calls = calls }

-- The allocator's answer, as the sequence sees it.
abbrev pub granted : Ptr → Bool
granted fresh = if fresh == null then false else true

-- The heap is the nodes of a list of these items over the rest of the memory, and nothing else.
abbrev pub Holds : Nodes → Dl → List Ptr → Type 0
Holds base h items = (xs : Cells) × (h ≡ dl base xs) × Fresh base xs × (items_of xs ≡ items)

module _ (base : Nodes) (debug data_free : Bool) (msg : List ℕ) (calls : List Ptr) where
  pub raise-Shows :
      (e : GprErr) (m : String) (xs : Cells) (items : List Ptr)
      → items_of xs ≡ items
      → length (codes m) ≤ gpr_err_msg_len
      → Fresh base xs
      → Returns
          (Shows (Holds base) (fail (state items msg calls) e m))
          (raise e m (list_world base msg calls xs))
  raise-Shows e m xs items same short v =
      rw (raise_short e m (list_world base msg calls xs) short)
        (record { code = refl; holds = (xs, refl, v, same); message = refl; log = refl })

  -- An element put at `i`.
  module _ (fresh x : Ptr) (x_valid : x ≢ null) (xs : Cells) (i : ℕ) where
    abbrev pub Adds : Run Dl GprErr → Type 0
    Adds r =
        Returns
          (Shows (Holds base) (
            add dlklist_traits debug (granted fresh) data_free (state (items_of xs) msg calls) x i))
          r

    pub added :
        (ys zs : Cells) (r : Run Dl GprErr)
        → xs ≡ ys ++ zs
        → length ys ≡ i
        → fresh ≢ null
        → base fresh ≡ none
        → has fresh xs ≡ false
        → Fresh base xs
        → r ≡ done ok (list_world base [] calls (ys ++ ((fresh, x) ∷ zs)))
        → Adds r
    unfolding add
    added ys zs r e l nf free out v ran =
        rw (ran, ne→not-== x null x_valid, and-false debug)
          (rw (le→not-ltb (length (items_of xs)) i within, and-false debug, ne→not-== fresh null nf)
            (record {
              code = refl;
              holds = (
                ys ++ ((fresh, x) ∷ zs),
                refl,
                Fresh-insert base ys zs fresh x (subst (Fresh base) e v) nf x_valid
                    (sym (ap (has fresh) e) ∙ out) free,
                placed,
              );
              message = refl;
              log = refl;
            }))
      where
        within : i ≤ length (items_of xs)
        within = omega (arith, length-items_of xs, l, ap length e, length-append ys zs)

        at : length (items_of ys) ≡ i
        at = length-items_of ys ∙ l

        placed : items_of (ys ++ ((fresh, x) ∷ zs)) ≡ insert_at (items_of xs) i x
        placed =
            rw
              (
                e,
                items_of-append ys ((fresh, x) ∷ zs),
                items_of-append ys zs,
                ← at,
                take-length_append (items_of ys) (items_of zs),
                drop-length_append (items_of ys) (items_of zs),
              )
              refl

    pub refused :
        (r : Run Dl GprErr)
        → i ≤ length xs
        → fresh ≡ null
        → Fresh base xs
        → r ≡ raise memory_failure "Node allocation failed" (list_world base msg calls xs)
        → Adds r
    unfolding add
    refused r within nf v ran =
        rw (ran, ne→not-== x null x_valid, and-false debug)
          (rw
            (
              le→not-ltb (length (items_of xs)) i (omega (arith, length-items_of xs)),
              and-false debug,
              eq→== fresh null nf,
            )
            (raise-Shows memory_failure "Node allocation failed" xs _ refl memory_short v))

  -- The element at `i` taken out.
  pub taken :
      (granted' : Bool) (xs ys zs : Cells) (p d : Ptr) (i : ℕ) (r : Run Dl GprErr)
      → xs ≡ ys ++ ((p, d) ∷ zs)
      → length ys ≡ i
      → Fresh base xs
      → r ≡ done ok (list_world base [] (calls ++ freed data_free (d ∷ [])) (ys ++ zs))
      → Returns
          (Shows
            (Holds base)
            (take_out dlklist_traits debug granted' data_free (state (items_of xs) msg calls) i))
          r
  unfolding take_out
  taken granted' xs ys zs p d i r e l v ran =
      rw (ran, ne→not-== (length (items_of xs)) 0 some_here)
        (record {
          code = refl;
          holds = (ys ++ zs, refl, c.rest, left);
          message = refl;
          log = ap (λ us. calls ++ freed data_free us) (sym at_i);
        })
    where
      c : Cell base ys zs p d
      c = Fresh-Cell base ys zs p d (subst (Fresh base) e v)

      some_here : length (items_of xs) ≢ 0
      some_here z = omega (arith, length-items_of xs, ap length e, length-append ys ((p, d) ∷ zs))

      at : length (items_of ys) ≡ i
      at = length-items_of ys ∙ l

      left : items_of (ys ++ zs) ≡ remove_at (items_of xs) i
      left =
          rw
            (
              e,
              items_of-append ys zs,
              items_of-append ys ((p, d) ∷ zs),
              ← at,
              take-length_append (items_of ys) (d ∷ items_of zs),
              drop-suc-length_append (items_of ys) (items_of zs) d,
            )
            refl

      at_i : item (items_of xs) i ≡ d ∷ []
      at_i =
          rw
            (
              e,
              items_of-append ys ((p, d) ∷ zs),
              ← at,
              item,
              get_elem?-length_append (items_of ys) (items_of zs) d,
            )
            refl
