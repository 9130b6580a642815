-- ===== src/Dlklist/Link.antt =====
-- The steps on nodes, where the node is there, and the worlds that the list's lemmas are about.
use gpr.Base.{
  ℕ, ◌≡◌, ◌≢◌, ◌≤◌, ap, none, some, Bool, true, false, ne→not-==, arith, List, ◌++◌, ◌∷◌, [],
  and-false, Bool-cases, inl, inr, append-nil, length,
}
use gpr.Machine.{Ptr, null, World, done, and_then}
use gpr.Err.{codes, gpr_err_msg_len}
use gpr.Seq.{Traits, freed}
use gpr.Dlklist.{
  Dl, DlList, Nodes, node, write, load_node, set_prev, set_next, new_node, free_node,
  gpr_dlklist_node_next, gpr_dlklist_node_prev, gpr_dlklist_node_has_data, gpr_dlklist_node_data,
}
use gpr.Dlklist.Image.{Cells, dl, first, last, image}

abbrev pub world : List ℕ → List Ptr → DlList → Nodes → World Dl
world msg calls l h = record {
  msg = msg;
  calls = calls;
  heap = record { list = some l; nodes = h };
}

abbrev pub list_of : Cells → DlList
list_of xs = record { size = length xs; head = first xs null; tail = last null xs }

abbrev pub list_world : Nodes → List ℕ → List Ptr → Cells → World Dl
list_world base msg calls xs = record { msg = msg; calls = calls; heap = dl base xs }

abbrev pub dlklist_traits : Traits
dlklist_traits = record {
  empty_text = "Empty list";
  item_text = "Invalid data";
  index_text = "Invalid position";
  memory_text = "Node allocation failed";
  removal_allocates = false;
  replace_clears = false;
}

pub memory_short : length (codes "Node allocation failed") ≤ gpr_err_msg_len
unfolding codes
memory_short = omega arith

pub empty_short : length (codes "Empty list") ≤ gpr_err_msg_len
unfolding codes
empty_short = omega arith

pub list_short : length (codes "Invalid list") ≤ gpr_err_msg_len
unfolding codes
list_short = omega arith

pub item_short : length (codes "Invalid data") ≤ gpr_err_msg_len
unfolding codes
item_short = omega arith

pub index_short : length (codes "Invalid position") ≤ gpr_err_msg_len
unfolding codes
index_short = omega arith

module _ (msg : List ℕ) (calls : List Ptr) (l : DlList) (h : Nodes) where
  pub new_node-eq :
      (debug : Bool) (fresh x : Ptr)
      → fresh ≢ null
      → x ≢ null
      → new_node debug fresh x (world msg calls l h)
        ≡ done fresh (world msg calls l (write h fresh (some (node x null null))))
  unfolding new_node
  new_node-eq debug fresh x nf nx =
      rw (ne→not-== fresh null nf, ne→not-== x null nx, and-false debug)

  pub new_node-null :
      (debug : Bool) (x : Ptr)
      → x ≢ null
      → new_node debug null x (world msg calls l h) ≡ done null (world msg calls l h)
  unfolding new_node
  new_node-null debug x nx = rw (ne→not-== x null nx, and-false debug)

module _ (msg : List ℕ) (calls : List Ptr) (l : DlList) (h : Nodes) (p d b a : Ptr)
    (valid : p ≢ null) (here : h p ≡ some (node d b a)) where
  pub load_node-eq : load_node p (world msg calls l h) ≡ done (node d b a) (world msg calls l h)
  load_node-eq = rw (ne→not-== p null valid, here)

  pub set_prev-eq :
      (q : Ptr)
      → set_prev p q (world msg calls l h)
        ≡ done tt (world msg calls l (write h p (some (node d q a))))
  unfolding set_prev
  set_prev-eq q = rw (ne→not-== p null valid) (rw (here, and_then))

  pub set_next-eq :
      (q : Ptr)
      → set_next p q (world msg calls l h)
        ≡ done tt (world msg calls l (write h p (some (node d b q))))
  unfolding set_next
  set_next-eq q = rw (ne→not-== p null valid) (rw (here, and_then))

  pub node_next-eq : gpr_dlklist_node_next p (world msg calls l h) ≡ done a (world msg calls l h)
  unfolding gpr_dlklist_node_next
  node_next-eq = rw (ne→not-== p null valid) (rw (here, and_then))

  pub node_prev-eq : gpr_dlklist_node_prev p (world msg calls l h) ≡ done b (world msg calls l h)
  unfolding gpr_dlklist_node_prev
  node_prev-eq = rw (ne→not-== p null valid) (rw (here, and_then))

  pub node_data-eq : gpr_dlklist_node_data p (world msg calls l h) ≡ done d (world msg calls l h)
  unfolding gpr_dlklist_node_data
  node_data-eq = rw (ne→not-== p null valid) (rw (here, and_then))

  pub has_data-eq :
      d ≢ null → gpr_dlklist_node_has_data p (world msg calls l h) ≡ done true (world msg calls l h)
  unfolding gpr_dlklist_node_has_data
  has_data-eq full = rw (ne→not-== p null valid) (rw (here, and_then) (rw (ne→not-== d null full)))

  pub free_node-eq :
      (debug data_free : Bool)
      → d ≢ null
      → free_node debug data_free p (world msg calls l h)
        ≡ done tt (world msg (calls ++ freed data_free (d ∷ [])) l (write h p none))
  unfolding free_node
  free_node-eq debug data_free full = elim (Bool-cases data_free) [
    | inl f ↦
        rw (ne→not-== p null valid, and-false debug)
          (rw (here, and_then) (rw (ne→not-== d null full, f)))
    | inr f ↦
        rw (ne→not-== p null valid, and-false debug)
          (rw (here, and_then) (rw (ne→not-== d null full, f, append-nil calls)))
  ]

-- A world whose list and nodes are those of the cells.
pub same_world :
    (base : Nodes) (msg : List ℕ) (calls : List Ptr) (l : DlList) (g : Nodes) (xs : Cells)
    → l.size ≡ length xs
    → l.head ≡ first xs null
    → l.tail ≡ last null xs
    → ((r : Ptr) → g r ≡ image base null null xs r)
    → world msg calls l g ≡ list_world base msg calls xs
same_world base msg calls l g xs s h t n i = record {
  msg = msg;
  calls = calls;
  heap = record { list = some (record { size = s i; head = h i; tail = t i }); nodes = λ r. n r i };
}

pub arrive :
    {A : Type 0} (base : Nodes) (e : A) (msg : List ℕ) (calls : List Ptr) (l : DlList) (g : Nodes)
    (xs : Cells)
    → l.size ≡ length xs
    → l.head ≡ first xs null
    → l.tail ≡ last null xs
    → ((r : Ptr) → g r ≡ image base null null xs r)
    → done e (world msg calls l g) ≡ done e (list_world base msg calls xs)
arrive base e msg calls l g xs s h t n = ap (done e) (same_world base msg calls l g xs s h t n)
