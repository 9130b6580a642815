-- ===== src/Dlklist/Image.antt =====
-- The heap that a list of cells stands for: the nodes of the list over the rest of the memory.
use gpr.Base.{
  suc, ◌≡◌, ◌≢◌, refl, ap, List, [], ◌∷◌, ◌++◌, none, some, Bool, true, false, ◌||◌, ◌==◌,
  if◌then◌else◌, arith, length, Bool-cases, eq→==, inl, inr,
}
use gpr.Machine.{Ptr, null}
use gpr.Dlklist.{Dl, Nodes, node}

-- A node's address and what it points to.
abbrev pub Cells : Type 0
Cells = List (Ptr × Ptr)

abbrev pub items_of : Cells → List Ptr
items_of [] = []
items_of ((_, d) ∷ xs) = d ∷ items_of xs

abbrev pub has : Ptr → Cells → Bool
has r [] = false
has r ((p, _) ∷ xs) = (r == p) || has r xs

-- The first address, or the one behind; the last address, or the one before.
abbrev pub first : Cells → Ptr → Ptr
first [] a = a
first ((p, _) ∷ xs) a = p

abbrev pub last : Ptr → Cells → Ptr
last b [] = b
last b ((p, _) ∷ xs) = last p xs

-- `before` and `after` are the addresses next to the cells.
module _ (base : Nodes) where
  abbrev pub image : Ptr → Ptr → Cells → Nodes
  image before after [] r = base r
  image before after ((p, d) ∷ xs) r =
      if r == p then some (node d before (first xs after)) else image p after xs r

  -- Distinct addresses, not `NULL`, that the rest of the memory does not use, and no `NULL` item.
  abbrev pub Fresh : Cells → Type 0
  Fresh [] = Unit
  Fresh ((p, d) ∷ xs) = (p ≢ null) × (d ≢ null) × (has p xs ≡ false) × (base p ≡ none) × Fresh xs

  abbrev pub dl : Cells → Dl
  dl xs = record {
    list = some (record { size = length xs; head = first xs null; tail = last null xs });
    nodes = image null null xs;
  }

  pub image-not_has :
      (b a : Ptr) (xs : Cells) (r : Ptr) → has r xs ≡ false → image b a xs r ≡ base r
  image-not_has b a [] r h = refl
  image-not_has b a ((p, d) ∷ xs) r h = ground (arith, image-not_has p a xs r)

pub first-append : (xs ys : Cells) (a : Ptr) → first (xs ++ ys) a ≡ first xs (first ys a)
first-append [] ys a = refl
first-append (x ∷ xs) ys a = refl

-- What stands behind is of no account where there is a cell.
pub first_snoc :
    (ys : Cells) (q e a : Ptr) → first (ys ++ ((q, e) ∷ [])) a ≡ first (ys ++ ((q, e) ∷ [])) null
first_snoc [] q e a = refl
first_snoc (y ∷ ys) q e a = refl

pub last-append : (b : Ptr) (xs ys : Cells) → last b (xs ++ ys) ≡ last (last b xs) ys
last-append b [] ys = refl
last-append b ((p, d) ∷ xs) ys = last-append p xs ys

pub has-append : (r : Ptr) (xs ys : Cells) → has r (xs ++ ys) ≡ (has r xs || has r ys)
has-append r [] ys = refl
has-append r ((p, d) ∷ xs) ys = ground (arith, has-append r xs ys)

pub length-items_of : (xs : Cells) → length (items_of xs) ≡ length xs
length-items_of [] = refl
length-items_of (x ∷ xs) = ap suc (length-items_of xs)

pub items_of-append : (xs ys : Cells) → items_of (xs ++ ys) ≡ items_of xs ++ items_of ys
items_of-append [] ys = refl
items_of-append ((p, d) ∷ xs) ys = ap (λ zs. d ∷ zs) (items_of-append xs ys)

-- Off the cells the image is the memory, and on them it does not depend on the memory.
pub image-has :
    (base base' : Nodes) (b a : Ptr) (xs : Cells) (r : Ptr)
    → has r xs ≡ true
    → image base b a xs r ≡ image base' b a xs r
image-has base base' b a [] r h = cc
image-has base base' b a ((p, d) ∷ xs) r h = ground (arith, image-has base base' p a xs r)

module _ (base : Nodes) where
  -- The cells in front see those behind them as memory.
  pub image-append :
      (b a : Ptr) (xs ys : Cells) (r : Ptr)
      → image base b a (xs ++ ys) r ≡ image (image base (last b xs) a ys) b (first ys a) xs r
  image-append b a [] ys r = refl
  image-append b a ((p, d) ∷ xs) ys r = rw (first-append xs ys a, image-append p a xs ys r)

  pub image-snoc :
      (b a : Ptr) (ys : Cells) (q e r : Ptr)
      → has q ys ≡ false
      → image base b a (ys ++ ((q, e) ∷ [])) r
        ≡ (if r == q then some (node e (last b ys) a) else image base b q ys r)
  image-snoc b a ys q e r h = elim (Bool-cases (has r ys)) [
    | inl t ↦
        rw
          (
            image-append b a ys ((q, e) ∷ []) r,
            image-has (image base (last b ys) a ((q, e) ∷ [])) base b q ys r t,
          )
          (ground (arith, eq_has r q ys))
    | inr f ↦ rw (
      image-append b a ys ((q, e) ∷ []) r,
      image-not_has _ b q ys r f,
      image-not_has base b q ys r f,
    )
  ]
    where
      eq_has : (r q : Ptr) (ys : Cells) → has r ys ≡ true → has q ys ≡ false → (r == q) ≡ false
      eq_has r q [] t u = cc
      eq_has r q ((p, _) ∷ ys) t u = ground (arith, eq_has r q ys)

  -- What stands at a cell's address.
  pub image_at :
      (b a : Ptr) (ys zs : Cells) (p d : Ptr)
      → has p ys ≡ false
      → image base b a (ys ++ ((p, d) ∷ zs)) p ≡ some (node d (last b ys) (first zs a))
  image_at b a ys zs p d h =
      rw (image-append b a ys ((p, d) ∷ zs) p, image-not_has _ b p ys p h, eq→== p p refl)

  pub Fresh-insert :
      (ys zs : Cells) (f x : Ptr)
      → Fresh base (ys ++ zs)
      → f ≢ null
      → x ≢ null
      → has f (ys ++ zs) ≡ false
      → base f ≡ none
      → Fresh base (ys ++ ((f, x) ∷ zs))
  Fresh-insert [] zs f x v nf nx out free = (nf, nx, out, free, v)
  Fresh-insert ((p, d) ∷ ys) zs f x v nf nx out free = (
    v.0,
    v.1,
    ground (arith, has-append p ys ((f, x) ∷ zs), has-append p ys zs),
    v.3,
    Fresh-insert ys zs f x v.4 nf nx (ground arith) free,
  )

  -- What is known of one cell among others.
  pub record Cell (ys zs : Cells) (p d : Ptr) : Type 0 where
    pub address : p ≢ null
    pub full : d ≢ null
    pub off_front : has p ys ≡ false
    pub off_back : has p zs ≡ false
    pub free : base p ≡ none
    pub rest : Fresh base (ys ++ zs)

  pub Fresh-Cell : (ys zs : Cells) (p d : Ptr) → Fresh base (ys ++ ((p, d) ∷ zs)) → Cell ys zs p d
  Fresh-Cell [] zs p d v = record {
    address = v.0;
    full = v.1;
    off_front = refl;
    off_back = v.2;
    free = v.3;
    rest = v.4;
  }
  Fresh-Cell ((q, e) ∷ ys) zs p d v =
      let c = Fresh-Cell ys zs p d v.4 in
      let away : has q (ys ++ ((p, d) ∷ zs)) ≡ false = v.2 in
      record {
        address = c.address;
        full = c.full;
        off_front = ground (arith, c.off_front, has-append q ys ((p, d) ∷ zs));
        off_back = c.off_back;
        free = c.free;
        rest = (
          v.0,
          v.1,
          ground (arith, has-append q ys ((p, d) ∷ zs), has-append q ys zs),
          v.3,
          c.rest,
        );
      }

  pub first-ne-null :
      (ys zs : Cells) (p d a : Ptr)
      → Fresh base (ys ++ ((p, d) ∷ zs))
      → first (ys ++ ((p, d) ∷ zs)) a ≢ null
  first-ne-null [] zs p d a v = v.0
  first-ne-null ((q, e) ∷ ys) zs p d a v = v.0

-- The image by the place of a cell: in front of it, at it, behind it.
pub image-view :
    (base : Nodes) (b a : Ptr) (ys zs : Cells) (p d r : Ptr)
    → image base b a (ys ++ ((p, d) ∷ zs)) r ≡ (
        if has r ys
        then image base b p ys r
        else if r == p
        then some (node d (last b ys) (first zs a))
        else image base p a zs r)
image-view base b a ys zs p d r = elim (Bool-cases (has r ys)) [
  | inl t ↦ rw (
    image-append base b a ys ((p, d) ∷ zs) r,
    t,
    image-has (image base (last b ys) a ((p, d) ∷ zs)) base b p ys r t,
  )
  | inr f ↦ rw (image-append base b a ys ((p, d) ∷ zs) r, f, image-not_has _ b p ys r f)
]
