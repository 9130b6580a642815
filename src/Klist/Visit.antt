-- ===== src/Klist/Visit.antt =====
-- gpr_klist_is_empty and the loops of the GPR_KLIST_FOR_EACH macros on a circular list.
use gpr.Base.{
  ℕ, zero, suc, ◌<◌, ◌≡◌, ◌≢◌, refl, ◌∙◌, List, [], ◌∷◌, Option, some, Bool, true, false, arith,
  ne→not-==, eq→==, length,
}
use gpr.Machine.{Ptr, null, World, done, and_then, Cmd, pure, ◌>>◌}
use gpr.Klist.{
  Entry, Entries, Direction, forward, backward, follow, gpr_container_of, member_of, size_max,
  each_entry, each_container, each_container_safe,
}
use gpr.Klist.Chain.{next_of, prev_of, has, Live, next_entry, prev_entry}
use gpr.Klist.Edit.{first}

pub member_container :
    (offset v : ℕ)
    → offset < size_max
    → v < size_max
    → member_of offset (gpr_container_of offset v) ≡ v
member_container offset v o lt = omega arith

-- The body on each entry in turn.
abbrev pub in_order : (Ptr → Cmd Entries (Unit {0})) → List Ptr → Cmd Entries (Unit {0})
in_order body [] = pure tt
in_order body (x ∷ xs) = body x >> in_order body xs

abbrev pub link_of : Direction → Option Entry → Option Ptr
link_of forward o = next_of o
link_of backward o = prev_of o

pub follow_entry :
    (d : Direction) (o : Option Entry) (q : Ptr)
    → link_of d o ≡ some q
    → (e : Entry) × (o ≡ some e) × (follow d e ≡ q)
follow_entry forward o q h = next_entry o q h
follow_entry backward o q h = prev_entry o q h

-- The links from entry to entry in one direction, up to the head.
abbrev pub Trail : Direction → Entries → Ptr → List Ptr → Type 0
Trail d h head [] = Unit
Trail d h head (v ∷ vs) =
    (v ≢ null) × (v ≢ head) × (link_of d (h v) ≡ some (first vs head)) × Trail d h head vs

-- The body returns on each entry in turn, and leaves the links that the loop still follows; a safe
-- loop has already read that of the entry itself.
abbrev pub to_follow : Bool → Ptr → List Ptr → List Ptr
to_follow true v vs = vs
to_follow false v vs = v ∷ vs

abbrev pub Steady :
    Bool → Direction → Ptr → (Ptr → Cmd Entries (Unit {0})) → List Ptr → World Entries → Type 0
Steady safe d head body [] w = Unit
Steady safe d head body (v ∷ vs) w =
    (w' : World Entries) × (body v w ≡ done tt w')
    × Live w'.heap head
    × ((r : Ptr)
        → has r (to_follow safe v vs) ≡ true
        → link_of d (w'.heap r) ≡ link_of d (w.heap r))
    × Steady safe d head body vs w'

Trail-keep :
    (d : Direction) (h h' : Entries) (head : Ptr) (vs : List Ptr)
    → ((r : Ptr) → has r vs ≡ true → link_of d (h' r) ≡ link_of d (h r))
    → Trail d h head vs
    → Trail d h' head vs
Trail-keep d h h' head [] keep t = tt
Trail-keep d h h' head (v ∷ vs) keep (valid, ne, l, t) = (
  valid,
  ne,
  keep v (rw (eq→== v v refl) refl) ∙ l,
  Trail-keep d h h' head vs (λ r i. keep r (ground (arith, i))) t,
)

module _ (d : Direction) (body : Ptr → Cmd Entries (Unit {0})) (head : Ptr) where
  pub each_entry-eq :
      (vs : List Ptr) (fuel : ℕ) (w : World Entries)
      → length vs < fuel
      → Trail d w.heap head vs
      → Steady false d head body vs w
      → each_entry d body head fuel (first vs head) w ≡ in_order body vs w
  unfolding each_entry
  each_entry-eq vs zero w lt t s = absurd (omega arith)
  each_entry-eq [] (suc fuel) w lt t s = rw (eq→== head head refl) refl
  each_entry-eq (v ∷ vs) (suc fuel) w lt (valid, ne, l, t) (w', ran, live, keep, s) =
      let (e, at, next) =
        follow_entry d (w'.heap v) (first vs head) (keep v (rw (eq→== v v refl) refl) ∙ l) in
      rw (ne→not-== v head ne, ran, and_then, ne→not-== v null valid)
        (rw (at, and_then)
          (rw next (
            each_entry-eq vs fuel w' (omega arith)
              (Trail-keep d w.heap w'.heap head vs (λ r i. keep r (ground (arith, i))) t) s)))

module _ (d : Direction) (body : Ptr → Cmd Entries (Unit {0})) (head offset : ℕ)
    (off : offset < size_max) (head_lt : head < size_max) where
  -- The body of a loop over structures, on the entry that stands in each.
  abbrev pub at_entry : Ptr → Cmd Entries (Unit {0})
  at_entry v = body (gpr_container_of offset v)

  pub each_container-eq :
      (vs : List Ptr) (fuel : ℕ) (w : World Entries)
      → length vs < fuel
      → ((r : Ptr) → has r vs ≡ true → r < size_max)
      → Trail d w.heap head vs
      → Steady false d head at_entry vs w
      → each_container d body head offset fuel (gpr_container_of offset (first vs head)) w
        ≡ in_order at_entry vs w
  unfolding each_container
  each_container-eq vs zero w lt small t s = absurd (omega arith)
  each_container-eq [] (suc fuel) w lt small t s =
      rw (member_container offset head off head_lt, eq→== head head refl) refl
  each_container-eq (v ∷ vs) (suc fuel) w lt small (valid, ne, l, t) (w', ran, live, keep, s) =
      let (e, at, next) =
        follow_entry d (w'.heap v) (first vs head) (keep v (rw (eq→== v v refl) refl) ∙ l) in
      rw
        (
          member_container offset v off (small v (rw (eq→== v v refl) refl)),
          ne→not-== v head ne,
          ran,
          and_then,
          ne→not-== v null valid,
        )
        (rw (at, and_then)
          (rw next (
            each_container-eq vs fuel w' (omega arith) (λ r i. small r (ground (arith, i)))
              (Trail-keep d w.heap w'.heap head vs (λ r i. keep r (ground (arith, i))) t) s)))

  pub container_end :
      (fuel tmp : ℕ) (w : World Entries)
      → 0 < fuel
      → each_container_safe d body head offset fuel (gpr_container_of offset head) tmp w ≡ done tt w
  unfolding each_container_safe
  container_end zero tmp w lt = absurd (omega arith)
  container_end (suc fuel) tmp w lt =
      rw (member_container offset head off head_lt, eq→== head head refl) refl

  pub each_container_safe-eq :
      (v : Ptr) (vs : List Ptr) (fuel : ℕ) (w : World Entries)
      → suc (length vs) < fuel
      → ((r : Ptr) → has r (v ∷ vs) ≡ true → r < size_max)
      → head ≢ null
      → v ≢ head
      → Trail d w.heap head vs
      → Steady true d head at_entry (v ∷ vs) w
      → each_container_safe d body head offset fuel
          (gpr_container_of offset v)
          (gpr_container_of offset (first vs head))
          w
        ≡ in_order at_entry (v ∷ vs) w
  unfolding each_container_safe
  each_container_safe-eq v vs zero w lt small hv ne t s = absurd (omega arith)
  each_container_safe-eq v [] (suc zero) w lt small hv ne t s = absurd (omega arith)
  each_container_safe-eq v [] (suc (suc fuel)) w lt small hv ne t (w', ran, live, keep, s) =
      rw
        (
          member_container offset v off (small v (rw (eq→== v v refl) refl)),
          ne→not-== v head ne,
          ran,
          and_then,
          member_container offset head off head_lt,
          ne→not-== head null hv,
        )
        (rw (live.1, and_then, eq→== head head refl) refl)
  each_container_safe-eq v (u ∷ us) (suc fuel) w lt small hv ne (u_valid, u_ne, l, t)
        (w', ran, live, keep, s) =
      let (e, at, next) =
        follow_entry d (w'.heap u) (first us head) (keep u (rw (eq→== u u refl) refl) ∙ l) in
      rw
        (
          member_container offset v off (small v (rw (eq→== v v refl) refl)),
          ne→not-== v head ne,
          ran,
          and_then,
          member_container offset u off (small u (ground (arith, eq→== u u refl))),
          ne→not-== u null u_valid,
        )
        (rw (at, and_then)
          (rw next (
            each_container_safe-eq u us fuel w' (omega arith) (λ r i. small r (ground (arith, i)))
              hv u_ne (Trail-keep d w.heap w'.heap head us (λ r i. keep r (ground (arith, i))) t)
              s)))
