-- ===== src/Klist/Loops.antt =====
-- gpr_klist_is_empty and the macros GPR_KLIST_FOR_EACH, _REVERSE, _ENTRY, _ENTRY_SAFE,
-- _ENTRY_REVERSE and _ENTRY_REVERSE_SAFE on a circular list.
use gpr.Base.{
  ℕ, suc, ◌+◌, ◌<◌, ◌≡◌, ◌≢◌, refl, sym, ap, ◌∙◌, List, [], ◌∷◌, some, Bool, true, false, ◌||◌,
  ◌==◌, arith, ne→not-==, eq→==, and-false, length, rev_onto,
}
use gpr.Machine.{Ptr, null, World, done, and_then, Cmd}
use gpr.Klist.{
  Entry, Entries, gpr_klist_is_empty, Direction, forward, backward, follow, gpr_container_of,
  size_max, each_entry, each_container, each_container_safe, gpr_klist_for_each,
  gpr_klist_for_each_reverse, gpr_klist_for_each_entry, gpr_klist_for_each_entry_reverse,
  gpr_klist_for_each_entry_safe, gpr_klist_for_each_entry_reverse_safe,
}
use gpr.Klist.Chain.{has, Chain, Distinct, Ring}
use gpr.Klist.Edit.{first, last, apart, Chain-first, Chain-last}
use gpr.Klist.Visit.{
  member_container, in_order, link_of, follow_entry, Trail, Steady, each_entry-eq,
  each_container-eq, each_container_safe-eq, container_end,
}

-- The order in which the entries are visited.
abbrev pub visits : Direction → List Ptr → List Ptr
visits forward xs = xs
visits backward xs = rev_onto xs []

length-rev_onto : (xs acc : List Ptr) → length (rev_onto xs acc) ≡ length xs + length acc
length-rev_onto [] acc = ground arith
length-rev_onto (x ∷ xs) acc = ground (arith, length-rev_onto xs (x ∷ acc))

length-visits : (d : Direction) (xs : List Ptr) → length (visits d xs) ≡ length xs
length-visits forward xs = refl
length-visits backward xs = ground (arith, length-rev_onto xs [])

has-rev_onto : (r : Ptr) (xs acc : List Ptr) → has r (rev_onto xs acc) ≡ (has r xs || has r acc)
has-rev_onto r [] acc = refl
has-rev_onto r (x ∷ xs) acc = ground (arith, has-rev_onto r xs (x ∷ acc))

has-visits : (d : Direction) (r : Ptr) (xs : List Ptr) → has r (visits d xs) ≡ has r xs
has-visits forward r xs = refl
has-visits backward r xs = ground (arith, has-rev_onto r xs [])

first-rev_onto : (xs acc : List Ptr) (b : Ptr) → first (rev_onto xs acc) b ≡ last (first acc b) xs
first-rev_onto [] acc b = refl
first-rev_onto (x ∷ xs) acc b = first-rev_onto xs (x ∷ acc) b

module _ (h : Entries) (head : Ptr) where
  Trail-forward :
      (a : Ptr) (xs : List Ptr)
      → Chain h a xs head
      → Distinct xs
      → has head xs ≡ false
      → Trail forward h head xs
  Trail-forward a [] c d out = tt
  Trail-forward a (x ∷ xs) (l, c) d out = (
    d.0,
    (λ e. apart x head (x ∷ xs) (rw (eq→== x x refl) refl) out e),
    (Chain-first h x xs head c).0,
    Trail-forward x xs c d.2 (ground (arith, out)),
  )

  Trail-backward :
      (a : Ptr) (xs acc : List Ptr) (b : Ptr)
      → Chain h a xs b
      → Distinct xs
      → has head xs ≡ false
      → first acc head ≡ a
      → Trail backward h head acc
      → Trail backward h head (rev_onto xs acc)
  Trail-backward a [] acc b c d out e t = t
  Trail-backward a (x ∷ xs) acc b (l, c) d out e t =
      Trail-backward x xs (x ∷ acc) b c d.2 (ground (arith, out)) refl (
        d.0,
        (λ e. apart x head (x ∷ xs) (rw (eq→== x x refl) refl) out e),
        l.1 ∙ ap some (sym e),
        t,
      )

  Ring-Trail : (d : Direction) (xs : List Ptr) → Ring h head xs → Trail d h head (visits d xs)
  Ring-Trail forward xs (c, d) = Trail-forward head xs c d.2 d.1
  Ring-Trail backward xs (c, d) = Trail-backward head xs [] head c d.2 d.1 refl tt

  Ring-start :
      (d : Direction) (xs : List Ptr)
      → Ring h head xs
      → link_of d (h head) ≡ some (first (visits d xs) head)
  Ring-start forward xs r = (Chain-first h head xs head r.0).0
  Ring-start backward xs r =
      (Chain-last h head xs head r.0).1 ∙ ap some (sym (first-rev_onto xs [] head))

-- The macros, by direction.
abbrev pub for_each : Direction → (Ptr → Cmd Entries (Unit {0})) → ℕ → Ptr → Cmd Entries (Unit {0})
for_each forward = gpr_klist_for_each
for_each backward = gpr_klist_for_each_reverse

abbrev pub for_each_entry :
    Direction → (Ptr → Cmd Entries (Unit {0})) → ℕ → Ptr → ℕ → Cmd Entries (Unit {0})
for_each_entry forward = gpr_klist_for_each_entry
for_each_entry backward = gpr_klist_for_each_entry_reverse

abbrev pub for_each_entry_safe :
    Direction → (Ptr → Cmd Entries (Unit {0})) → ℕ → Ptr → ℕ → Cmd Entries (Unit {0})
for_each_entry_safe forward = gpr_klist_for_each_entry_safe
for_each_entry_safe backward = gpr_klist_for_each_entry_reverse_safe

module _ (body : Ptr → Cmd Entries (Unit {0})) (fuel : ℕ) (head : Ptr) (w : World Entries)
    (valid : head ≢ null) where
  for_each-eq :
      (d : Direction) (e : Entry)
      → w.heap head ≡ some e
      → for_each d body fuel head w ≡ each_entry d body head fuel (follow d e) w
  unfolding gpr_klist_for_each gpr_klist_for_each_reverse
  for_each-eq forward e at = rw (ne→not-== head null valid) (rw (at, and_then) refl)
  for_each-eq backward e at = rw (ne→not-== head null valid) (rw (at, and_then) refl)

  for_each_entry-eq :
      (d : Direction) (offset : ℕ) (e : Entry)
      → w.heap head ≡ some e
      → for_each_entry d body fuel head offset w
        ≡ each_container d body head offset fuel (gpr_container_of offset (follow d e)) w
  unfolding gpr_klist_for_each_entry gpr_klist_for_each_entry_reverse
  for_each_entry-eq forward offset e at = rw (ne→not-== head null valid) (rw (at, and_then) refl)
  for_each_entry-eq backward offset e at = rw (ne→not-== head null valid) (rw (at, and_then) refl)

  for_each_entry_safe-eq :
      (d : Direction) (offset : ℕ) (e f : Entry)
      → w.heap head ≡ some e
      → follow d e ≢ null
      → w.heap (follow d e) ≡ some f
      → offset < size_max
      → follow d e < size_max
      → for_each_entry_safe d body fuel head offset w
        ≡ each_container_safe d body head offset fuel
            (gpr_container_of offset (follow d e))
            (gpr_container_of offset (follow d f))
            w
  unfolding gpr_klist_for_each_entry_safe gpr_klist_for_each_entry_reverse_safe
  for_each_entry_safe-eq forward offset e f at ne at' o lt = rw (ne→not-== head null valid) (
      rw (at, and_then, member_container offset e.next o lt, ne→not-== e.next null ne)
        (rw (at', and_then) refl))
  for_each_entry_safe-eq backward offset e f at ne at' o lt = rw (ne→not-== head null valid) (
      rw (at, and_then, member_container offset e.prev o lt, ne→not-== e.prev null ne)
        (rw (at', and_then) refl))

module _ (d : Direction) (body : Ptr → Cmd Entries (Unit {0})) (fuel : ℕ) (head : Ptr)
    (w : World Entries) (xs : List Ptr) (ring : Ring w.heap head xs) where
  -- GPR_KLIST_FOR_EACH and GPR_KLIST_FOR_EACH_REVERSE over a circular list run their body once on
  -- each entry, in the order of the list or in the reverse order, and end. The body returns and
  -- leaves the links that the loop still follows; the fuel is more than the number of entries.
  pub klist_for_each-in_order :
      length xs < fuel
      → Steady false d head body (visits d xs) w
      → for_each d body fuel head w ≡ in_order body (visits d xs) w
  klist_for_each-in_order lt s =
      let (e, at, next) = follow_entry d (w.heap head) _ (Ring-start w.heap head d xs ring) in
      for_each-eq body fuel head w ring.1.0 d e at
      ∙ rw next (
          each_entry-eq d body head (visits d xs) fuel w (ground (arith, length-visits d xs, lt))
            (Ring-Trail w.heap head d xs ring) s)

  module _ (offset : ℕ) (off : offset < size_max)
      (small : (r : Ptr) → has r (head ∷ xs) ≡ true → r < size_max) where
    small_visits : (r : Ptr) → has r (visits d xs) ≡ true → r < size_max
    small_visits r i = small r (ground (arith, has-visits d r xs, i))

    small_head : head < size_max
    small_head = small head (rw (eq→== head head refl) refl)

    -- GPR_KLIST_FOR_EACH_ENTRY and GPR_KLIST_FOR_EACH_ENTRY_REVERSE run their body once on the
    -- structure of each entry, in the order of the list or in the reverse order, and end, under the
    -- same conditions; the addresses and the offset of the entry in the structure are below 2 ^ 64.
    pub klist_for_each_entry-in_order :
        length xs < fuel
        → Steady false d head (λ v. body (gpr_container_of offset v)) (visits d xs) w
        → for_each_entry d body fuel head offset w
          ≡ in_order (λ v. body (gpr_container_of offset v)) (visits d xs) w
    klist_for_each_entry-in_order lt s =
        let (e, at, next) = follow_entry d (w.heap head) _ (Ring-start w.heap head d xs ring) in
        for_each_entry-eq body fuel head w ring.1.0 d offset e at
        ∙ rw next (
            each_container-eq d body head offset off small_head (visits d xs) fuel w
              (ground (arith, length-visits d xs, lt)) small_visits
              (Ring-Trail w.heap head d xs ring) s)

    safe_from :
        (vs : List Ptr)
        → suc (length vs) < fuel
        → ((r : Ptr) → has r vs ≡ true → r < size_max)
        → Trail d w.heap head vs
        → link_of d (w.heap head) ≡ some (first vs head)
        → Steady true d head (λ v. body (gpr_container_of offset v)) vs w
        → for_each_entry_safe d body fuel head offset w
          ≡ in_order (λ v. body (gpr_container_of offset v)) vs w
    safe_from [] lt sm t start s =
        let (e, at, next) = follow_entry d (w.heap head) head start in
        for_each_entry_safe-eq body fuel head w ring.1.0 d offset e e at (rw next ring.1.0)
          (rw next at) off (rw next small_head)
        ∙ rw next (container_end d body head offset off small_head fuel _ w (omega arith))
    safe_from (v ∷ vs) lt sm (v_valid, ne, l, t) start s =
        let (e, at, next) = follow_entry d (w.heap head) v start in
        let (f, at', next') = follow_entry d (w.heap v) (first vs head) l in
        for_each_entry_safe-eq body fuel head w ring.1.0 d offset e f at (rw next v_valid)
          (rw next at') off (rw next (sm v (rw (eq→== v v refl) refl)))
        ∙ rw (next, next')
            (each_container_safe-eq d body head offset off small_head v vs fuel w (omega arith) sm
              ring.1.0 ne t s)

    -- GPR_KLIST_FOR_EACH_ENTRY_SAFE and GPR_KLIST_FOR_EACH_ENTRY_REVERSE_SAFE do the same when the
    -- body may change the links of the entry that it is run on, such as by its removal.
    pub klist_for_each_entry_safe-in_order :
        suc (length xs) < fuel
        → Steady true d head (λ v. body (gpr_container_of offset v)) (visits d xs) w
        → for_each_entry_safe d body fuel head offset w
          ≡ in_order (λ v. body (gpr_container_of offset v)) (visits d xs) w
    klist_for_each_entry_safe-in_order lt s =
        safe_from (visits d xs) (ground (arith, length-visits d xs, lt)) small_visits
          (Ring-Trail w.heap head d xs ring) (Ring-start w.heap head d xs ring) s

-- gpr_klist_is_empty of a circular list, in either build, says whether it has no entry, and changes
-- nothing.
pub klist_is_empty-Ring :
    (debug : Bool) (w : World Entries) (head : Ptr) (xs : List Ptr)
    → Ring w.heap head xs
    → gpr_klist_is_empty debug head w ≡ done (length xs == 0) w
unfolding gpr_klist_is_empty
klist_is_empty-Ring debug w head xs (c, d) =
    let (e, at, next) =
      follow_entry forward (w.heap head) _ (Ring-start w.heap head forward xs (c, d)) in
    rw (ne→not-== head null d.0, and-false debug) (rw (at, and_then) (rw next (answer xs d)))
  where
    answer :
        (us : List Ptr)
        → Distinct (head ∷ us)
        → done (first us head == head) w ≡ done (length us == 0) w
    answer [] d = rw (eq→== head head refl) refl
    answer (u ∷ us) d =
        rw
          (
            ne→not-== u head (λ e. apart u head (u ∷ us) (rw (eq→== u u refl) refl) d.1 e),
            ne→not-== (suc (length us)) 0 (λ e. omega arith),
          )
          refl
