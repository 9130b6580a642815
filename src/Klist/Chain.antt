-- ===== src/Klist/Chain.antt =====
-- Entries that follow each other, and what a change of links keeps.
use gpr.Base.{
  ℕ, ◌≡◌, ◌≢◌, refl, ◌∙◌, List, [], ◌∷◌, ◌++◌, Option, none, some, Bool, true, false, ◌||◌, ◌==◌,
  arith, Bool-cases, inl, inr, eq→==, ne→not-==, ==→eq,
}
use gpr.Machine.{Ptr, null, done, and_then}
use gpr.Klist.{Entry, Entries, update, link_prev, link_next, set_prev, set_next}

abbrev pub next_of : Option Entry → Option Ptr
next_of none = none
next_of (some e) = some e.next

abbrev pub prev_of : Option Entry → Option Ptr
prev_of none = none
prev_of (some e) = some e.prev

abbrev pub has : Ptr → List Ptr → Bool
has r [] = false
has r (x ∷ xs) = (r == x) || has r xs

-- `y` comes next to `x`.
abbrev pub Linked : Entries → Ptr → Ptr → Type 0
Linked h x y = (next_of (h x) ≡ some y) × (prev_of (h y) ≡ some x)

-- From `a` through the list to `b`.
abbrev pub Chain : Entries → Ptr → List Ptr → Ptr → Type 0
Chain h a [] b = Linked h a b
Chain h a (x ∷ xs) b = Linked h a x × Chain h x xs b

abbrev pub Distinct : List Ptr → Type 0
Distinct [] = Unit
Distinct (x ∷ xs) = (x ≢ null) × (has x xs ≡ false) × Distinct xs

-- A circular list: its head, its entries, and no entry twice.
abbrev pub Ring : Entries → Ptr → List Ptr → Type 0
Ring h head xs = Chain h head xs head × Distinct (head ∷ xs)

abbrev pub Live : Entries → Ptr → Type 0
Live h p = (e : Entry) × (h p ≡ some e)

pub live_next : (o : Option Entry) (q : Ptr) → next_of o ≡ some q → (e : Entry) × (o ≡ some e)
live_next none q h = cc
live_next (some e) q h = (e, refl)

pub live_prev : (o : Option Entry) (q : Ptr) → prev_of o ≡ some q → (e : Entry) × (o ≡ some e)
live_prev none q h = cc
live_prev (some e) q h = (e, refl)

pub next_entry :
    (o : Option Entry) (q : Ptr) → next_of o ≡ some q → (e : Entry) × (o ≡ some e) × (e.next ≡ q)
next_entry none q h = cc
next_entry (some e) q h = (e, refl, cc)

pub prev_entry :
    (o : Option Entry) (q : Ptr) → prev_of o ≡ some q → (e : Entry) × (o ≡ some e) × (e.prev ≡ q)
prev_entry none q h = cc
prev_entry (some e) q h = (e, refl, cc)

pub has-append : (r : Ptr) (xs ys : List Ptr) → has r (xs ++ ys) ≡ (has r xs || has r ys)
has-append r [] ys = refl
has-append r (x ∷ xs) ys = ground (arith, has-append r xs ys)

pub Chain-split :
    (h : Entries) (a : Ptr) (ys : List Ptr) (p : Ptr) (zs : List Ptr) (b : Ptr)
    → Chain h a (ys ++ (p ∷ zs)) b
    → Chain h a ys p × Chain h p zs b
Chain-split h a [] p zs b c = c
Chain-split h a (y ∷ ys) p zs b (l, c) =
    let (front, back) = Chain-split h y ys p zs b c in ((l, front), back)

pub Chain-join :
    (h : Entries) (a : Ptr) (ys : List Ptr) (p : Ptr) (zs : List Ptr) (b : Ptr)
    → Chain h a ys p
    → Chain h p zs b
    → Chain h a (ys ++ (p ∷ zs)) b
Chain-join h a [] p zs b l c = (l, c)
Chain-join h a (y ∷ ys) p zs b (l, front) back = (l, Chain-join h y ys p zs b front back)

-- The links out of `a` and the list, and the links back into the list and `b`, stay.
pub Chain-keep :
    (h h' : Entries) (a : Ptr) (xs : List Ptr) (b : Ptr)
    → ((r : Ptr) → has r (a ∷ xs) ≡ true → next_of (h' r) ≡ next_of (h r))
    → ((r : Ptr) → has r (b ∷ xs) ≡ true → prev_of (h' r) ≡ prev_of (h r))
    → Chain h a xs b
    → Chain h' a xs b
Chain-keep h h' a [] b n p (l, m) =
    (n a (rw (eq→== a a refl) refl) ∙ l, p b (rw (eq→== b b refl) refl) ∙ m)
Chain-keep h h' a (x ∷ xs) b n p ((l, m), c) = (
  (n a (rw (eq→== a a refl) refl) ∙ l, p x (second x b (has x xs)) ∙ m),
  Chain-keep h h' x xs b (λ r i. n r (ground (arith, i))) (λ r i. p r (ground (arith, i))) c,
)
  where
    second : (x b : Ptr) (k : Bool) → ((x == b) || ((x == x) || k)) ≡ true
    second x b k = ground arith

module _ (msg : List ℕ) (calls : List Ptr) (h : Entries) (p q : Ptr) (valid : p ≢ null)
    (live : Live h p) where
  pub set_prev-eq :
      set_prev p q (record { msg = msg; calls = calls; heap = h })
      ≡ done tt (record { msg = msg; calls = calls; heap = update h p (link_prev q) })
  unfolding set_prev
  set_prev-eq = rw (ne→not-== p null valid) (rw (live.1, and_then) refl)

  pub set_next-eq :
      set_next p q (record { msg = msg; calls = calls; heap = h })
      ≡ done tt (record { msg = msg; calls = calls; heap = update h p (link_next q) })
  unfolding set_next
  set_next-eq = rw (ne→not-== p null valid) (rw (live.1, and_then) refl)

module _ (h : Entries) (p q r : Ptr) where
  pub Live-link_prev : Live h r → Live (update h p (link_prev q)) r
  Live-link_prev (e, at) = elim (Bool-cases (r == p)) [
    | inl i ↦ (record e { prev = q }, rw (i, at) refl)
    | inr i ↦ (e, rw (i, at) refl)
  ]

  pub Live-link_next : Live h r → Live (update h p (link_next q)) r
  Live-link_next (e, at) = elim (Bool-cases (r == p)) [
    | inl i ↦ (record e { next = q }, rw (i, at) refl)
    | inr i ↦ (e, rw (i, at) refl)
  ]

  pub next_of-link_prev : next_of (update h p (link_prev q) r) ≡ next_of (h r)
  next_of-link_prev = elim (Bool-cases (r == p)) [ inl i ↦ rw i (kept (h r)) | inr i ↦ rw i refl ]
    where
      kept : (o : Option Entry) → next_of (link_prev q o) ≡ next_of o
      kept none = refl
      kept (some e) = refl

  pub prev_of-link_next : prev_of (update h p (link_next q) r) ≡ prev_of (h r)
  prev_of-link_next = elim (Bool-cases (r == p)) [ inl i ↦ rw i (kept (h r)) | inr i ↦ rw i refl ]
    where
      kept : (o : Option Entry) → prev_of (link_next q o) ≡ prev_of o
      kept none = refl
      kept (some e) = refl

  pub next_of-link_next_other : r ≢ p → next_of (update h p (link_next q) r) ≡ next_of (h r)
  next_of-link_next_other ne = rw (ne→not-== r p ne) refl

  pub prev_of-link_prev_other : r ≢ p → prev_of (update h p (link_prev q) r) ≡ prev_of (h r)
  prev_of-link_prev_other ne = rw (ne→not-== r p ne) refl

module _ (h : Entries) (p q : Ptr) (live : Live h p) where
  pub next_of-link_next : next_of (update h p (link_next q) p) ≡ some q
  next_of-link_next = rw (eq→== p p refl, live.1) refl

  pub prev_of-link_prev : prev_of (update h p (link_prev q) p) ≡ some q
  prev_of-link_prev = rw (eq→== p p refl, live.1) refl

-- One entry among distinct ones.
pub Distinct-middle :
    (ys : List Ptr) (p : Ptr) (zs : List Ptr)
    → Distinct (ys ++ (p ∷ zs))
    → (has p ys ≡ false) × (has p zs ≡ false) × (p ≢ null) × Distinct (ys ++ zs)
Distinct-middle [] p zs d = (refl, d.1, d.0, d.2)
Distinct-middle (y ∷ ys) p zs d =
    let (off, off', valid, rest) = Distinct-middle ys p zs d.2 in
    (
      ground (arith, off, d.1, has-append y ys (p ∷ zs)),
      off',
      valid,
      (d.0, ground (arith, d.1, has-append y ys (p ∷ zs), has-append y ys zs), rest),
    )

pub Distinct-insert :
    (ys : List Ptr) (n : Ptr) (zs : List Ptr)
    → Distinct (ys ++ zs)
    → n ≢ null
    → has n (ys ++ zs) ≡ false
    → Distinct (ys ++ (n ∷ zs))
Distinct-insert [] n zs d valid out = (valid, out, d)
Distinct-insert (y ∷ ys) n zs d valid out = (
  d.0,
  ground (arith, out, d.1, has-append y ys (n ∷ zs), has-append y ys zs),
  Distinct-insert ys n zs d.2 valid (ground (arith, out)),
)

pub Distinct-snoc :
    (xs : List Ptr) (n : Ptr)
    → Distinct xs
    → n ≢ null
    → has n xs ≡ false
    → Distinct (xs ++ (n ∷ []))
Distinct-snoc [] n d valid out = (valid, refl, tt)
Distinct-snoc (y ∷ ys) n d valid out = (
  d.0,
  ground (arith, out, d.1, has-append y ys (n ∷ [])),
  Distinct-snoc ys n d.2 valid (ground (arith, out)),
)

-- Entries in front of a place are not behind it.
pub Distinct-across :
    (ys zs : List Ptr) (r : Ptr) → Distinct (ys ++ zs) → has r ys ≡ true → has r zs ≡ false
Distinct-across [] zs r d i = cc
Distinct-across (y ∷ ys) zs r d i = elim (Bool-cases (r == y)) [
  | inl e ↦ ground (arith, ==→eq r y e, d.1, has-append y ys zs)
  | inr e ↦ Distinct-across ys zs r d.2 (ground (arith, i, e))
]
