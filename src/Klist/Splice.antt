-- ===== src/Klist/Splice.antt =====
-- __list_add_entry and __list_del_entry: which links they change.
use gpr.Base.{ℕ, ◌≡◌, ◌≢◌, refl, sym, ◌∙◌, List, [], some, Bool, ne→not-==, and-false}
use gpr.Machine.{Ptr, null, World, done, and_then}
use gpr.Err.{ok, gpr_err_raise}
use gpr.Klist.{Entries, update, link_prev, link_next, list_add_entry, list_del_entry}
use gpr.Klist.Chain.{
  next_of, prev_of, Live, set_prev-eq, set_next-eq, Live-link_prev, Live-link_next,
  next_of-link_prev, prev_of-link_next, next_of-link_next_other, prev_of-link_prev_other,
  next_of-link_next, prev_of-link_prev,
}

abbrev pub ring_world : List ℕ → List Ptr → Entries → World Entries
ring_world msg calls h = record { msg = msg; calls = calls; heap = h }

-- `n` stands between `x` and `y`, and the other links are as they were.
pub record Between (h h' : Entries) (x n y : Ptr) : Type 0 where
  pub next_x : next_of (h' x) ≡ some n
  pub next_n : next_of (h' n) ≡ some y
  pub prev_y : prev_of (h' y) ≡ some n
  pub prev_n : prev_of (h' n) ≡ some x
  pub next_other : (r : Ptr) → r ≢ x → r ≢ n → next_of (h' r) ≡ next_of (h r)
  pub prev_other : (r : Ptr) → r ≢ y → r ≢ n → prev_of (h' r) ≡ prev_of (h r)
  pub frame : (r : Ptr) → r ≢ x → r ≢ n → r ≢ y → h' r ≡ h r

module _ (debug : Bool) (msg : List ℕ) (calls : List Ptr) (h : Entries) (n x y : Ptr)
    (n_valid : n ≢ null) (x_valid : x ≢ null) (y_valid : y ≢ null) (n_live : Live h n)
    (x_live : Live h x) (y_live : Live h y) where
  abbrev h₁ : Entries
  h₁ = update h y (link_prev n)

  abbrev h₂ : Entries
  h₂ = update h₁ n (link_next y)

  abbrev h₃ : Entries
  h₃ = update h₂ n (link_prev x)

  abbrev pub added : Entries
  added = update h₃ x (link_next n)

  live₁ : (r : Ptr) → Live h r → Live h₁ r
  live₁ r = Live-link_prev h y n r

  live₂ : (r : Ptr) → Live h r → Live h₂ r
  live₂ r l = Live-link_next h₁ n y r (live₁ r l)

  live₃ : (r : Ptr) → Live h r → Live h₃ r
  live₃ r l = Live-link_prev h₂ n x r (live₂ r l)

  pub add_entry-eq :
      list_add_entry debug n x y (ring_world msg calls h) ≡ done ok (ring_world [] calls added)
  unfolding list_add_entry gpr_err_raise
  add_entry-eq =
      rw
        (
          ne→not-== n null n_valid,
          ne→not-== x null x_valid,
          ne→not-== y null y_valid,
          and-false debug,
        )
        (rw (set_prev-eq msg calls h y n y_valid y_live, and_then)
          (rw (set_next-eq msg calls h₁ n y n_valid (live₁ n n_live), and_then)
            (rw (set_prev-eq msg calls h₂ n x n_valid (live₂ n n_live), and_then)
              (rw (set_next-eq msg calls h₃ x n x_valid (live₃ x x_live), and_then) refl))))

  pub add_entry-Between : n ≢ x → n ≢ y → Between h added x n y
  add_entry-Between nx ny = record {
    next_x = next_of-link_next h₃ x n (live₃ x x_live);
    next_n =
        next_of-link_next_other h₃ x n n nx
        ∙ next_of-link_prev h₂ n x n
        ∙ next_of-link_next h₁ n y (live₁ n n_live);
    prev_y =
        prev_of-link_next h₃ x n y
        ∙ prev_of-link_prev_other h₂ n x y (λ z. ny (sym z))
        ∙ prev_of-link_next h₁ n y y
        ∙ prev_of-link_prev h y n y_live;
    prev_n = prev_of-link_next h₃ x n n ∙ prev_of-link_prev h₂ n x (live₂ n n_live);
    next_other = λ r rx rn.
        next_of-link_next_other h₃ x n r rx
        ∙ next_of-link_prev h₂ n x r
        ∙ next_of-link_next_other h₁ n y r rn
        ∙ next_of-link_prev h y n r;
    prev_other = λ r ry rn.
        prev_of-link_next h₃ x n r
        ∙ prev_of-link_prev_other h₂ n x r rn
        ∙ prev_of-link_next h₁ n y r
        ∙ prev_of-link_prev_other h y n r ry;
    frame = λ r rx rn ry. rw (ne→not-== r x rx, ne→not-== r n rn, ne→not-== r y ry) refl;
  }

-- `x` and `y` are next to each other, and the other links are as they were.
pub record Joined (h h' : Entries) (x y : Ptr) : Type 0 where
  pub next_x : next_of (h' x) ≡ some y
  pub prev_y : prev_of (h' y) ≡ some x
  pub next_other : (r : Ptr) → r ≢ x → next_of (h' r) ≡ next_of (h r)
  pub prev_other : (r : Ptr) → r ≢ y → prev_of (h' r) ≡ prev_of (h r)
  pub frame : (r : Ptr) → r ≢ x → r ≢ y → h' r ≡ h r

module _ (debug : Bool) (msg : List ℕ) (calls : List Ptr) (h : Entries) (x y : Ptr)
    (x_valid : x ≢ null) (y_valid : y ≢ null) (x_live : Live h x) (y_live : Live h y) where
  abbrev h₁' : Entries
  h₁' = update h y (link_prev x)

  abbrev pub joined : Entries
  joined = update h₁' x (link_next y)

  pub Live-joined : (r : Ptr) → Live h r → Live joined r
  Live-joined r l = Live-link_next h₁' x y r (Live-link_prev h y x r l)

  pub del_entry-eq :
      list_del_entry debug x y (ring_world msg calls h) ≡ done ok (ring_world [] calls joined)
  unfolding list_del_entry gpr_err_raise
  del_entry-eq =
      rw (ne→not-== x null x_valid, ne→not-== y null y_valid, and-false debug)
        (rw (set_prev-eq msg calls h y x y_valid y_live, and_then)
          (rw (set_next-eq msg calls h₁' x y x_valid (Live-link_prev h y x x x_live), and_then)
            refl))

  pub del_entry-Joined : Joined h joined x y
  del_entry-Joined = record {
    next_x = next_of-link_next h₁' x y (Live-link_prev h y x x x_live);
    prev_y = prev_of-link_next h₁' x y y ∙ prev_of-link_prev h y x y_live;
    next_other = λ r rx. next_of-link_next_other h₁' x y r rx ∙ next_of-link_prev h y x r;
    prev_other = λ r ry. prev_of-link_next h₁' x y r ∙ prev_of-link_prev_other h y x r ry;
    frame = λ r rx ry. rw (ne→not-== r x rx, ne→not-== r y ry) refl;
  }
