-- ===== src/Array/Block.antt =====
-- The block of an array under `realloc` and `memmove`, the C library's functions that
-- src/gpr_array.c calls.
use gpr.Base.{
  ℕ, ◌+◌, ◌-◌, ◌^◌, ◌<◌, ◌≡◌, ◌≢◌, refl, sym, ap, List, [], ◌∷◌, ◌++◌, Option, none, some, true,
  false, arith, length, take, drop, replicate, append-nil, append_assoc, length-append,
  set-length_append, ltb, take-append_past, drop-append_past, take-length_append, drop_of_length-le,
  drop-length_append, leb, ◌&&◌,
}
use gpr.Machine.{Ptr}
use gpr.Array.{Alloc, cells, realloc, memmove, set_cell}

-- A block holds the elements, then cells that hold anything. There is none for no elements.
abbrev pub Stores : Option (List Ptr) → List Ptr → Type 0
Stores none xs = xs ≡ []
Stores (some b) xs = (rest : List Ptr) × (b ≡ xs ++ rest) × (xs ≢ [])

-- A number of pointers that an object can hold.
abbrev pub max_cells : ℕ
max_cells = 2 ^ 61

pub cells-eq : (n : ℕ) → n < max_cells → cells n ≡ n
unfolding cells
cells-eq n h = omega arith

take_one_more :
    (xs rest : List Ptr) (junk : Ptr) (n : ℕ)
    → n ≡ length xs + 1 - length (xs ++ rest)
    → (y : Ptr) × (take (length xs + 1) ((xs ++ rest) ++ replicate n junk) ≡ xs ++ (y ∷ []))
take_one_more xs [] junk n e =
    let one : n ≡ 1 = omega (arith, length-append xs []) in
    (junk, rw (one, append-nil xs, take-append_past xs (junk ∷ []) 1))
take_one_more xs (y ∷ rest) junk n e =
    (y, rw (append_assoc xs (y ∷ rest) (replicate n junk), take-append_past xs) refl)

-- A granted `realloc` to one more cell keeps the elements and ends in one new cell.
pub realloc_grow :
    (alloc : Alloc) (elem : Option (List Ptr)) (xs : List Ptr)
    → Stores elem xs
    → alloc.granted ≡ true
    → (y : Ptr) × (realloc alloc elem (length xs + 1) ≡ some (xs ++ (y ∷ [])))
unfolding realloc
realloc_grow alloc none xs s g = (alloc.junk, rw (g, s))
realloc_grow alloc (some b) xs (rest, e, ne) g =
    let (y, h) = take_one_more xs rest alloc.junk _ refl in (y, rw (g, e, h))

pub realloc_refused :
    (alloc : Alloc) (elem : Option (List Ptr)) (n : ℕ)
    → alloc.granted ≡ false
    → realloc alloc elem n ≡ none
unfolding realloc
realloc_refused alloc none n g = rw g
realloc_refused alloc (some b) n g = rw g

pub realloc_shrink :
    (alloc : Alloc) (xs rest : List Ptr)
    → alloc.granted ≡ true
    → realloc alloc (some (xs ++ rest)) (length xs) ≡ some xs
unfolding realloc
realloc_shrink alloc xs rest g = rw (g, append_assoc xs rest _, take-length_append xs)

head_or : List Ptr → Ptr → Ptr
head_or [] y = y
head_or (z ∷ _) y = z

take_head : (zs : List Ptr) (y : Ptr) → take 1 (zs ++ (y ∷ [])) ≡ head_or zs y ∷ []
unfolding head_or
take_head [] y = refl
take_head (z ∷ zs) y = refl

-- Moving the cells from position `length ys` one to the right, into a free last cell.
pub memmove_right :
    (ys zs : List Ptr) (y : Ptr)
    → (z : Ptr) × (memmove (length ys + 1) (length ys) (length zs) (ys ++ (zs ++ (y ∷ [])))
        ≡ some (ys ++ (z ∷ zs)))
unfolding memmove
memmove_right ys zs y = (head_or zs y, rw (fits, left, middle, right) (ap some regroup))
  where
    total : length (ys ++ (zs ++ (y ∷ []))) ≡ length ys + (length zs + 1)
    total = omega (arith, length-append ys (zs ++ (y ∷ [])), length-append zs (y ∷ []))

    fits :
        (leb (length ys + 1 + length zs) (length (ys ++ (zs ++ (y ∷ []))))
          && leb (length ys + length zs) (length (ys ++ (zs ++ (y ∷ [])))))
        ≡ true
    fits = ground (arith, total)

    left : take (length ys + 1) (ys ++ (zs ++ (y ∷ []))) ≡ ys ++ (head_or zs y ∷ [])
    left = rw (take-append_past ys (zs ++ (y ∷ [])) 1, take_head zs y)

    middle : take (length zs) (drop (length ys) (ys ++ (zs ++ (y ∷ [])))) ≡ zs
    middle = rw (drop-length_append ys, take-length_append zs)

    right : drop (length ys + 1 + length zs) (ys ++ (zs ++ (y ∷ []))) ≡ []
    right = drop_of_length-le _ (ys ++ (zs ++ (y ∷ []))) (omega (arith, total))

    regroup : (ys ++ (head_or zs y ∷ [])) ++ (zs ++ []) ≡ ys ++ (head_or zs y ∷ zs)
    regroup = rw (append-nil zs, append_assoc ys (head_or zs y ∷ []) zs)

-- Moving the cells behind position `length ys` one to the left, over the cell there.
pub memmove_left :
    (ys zs rest : List Ptr) (x : Ptr)
    → (rest' : List Ptr) × (memmove
          (length ys)
          (length ys + 1)
          (length zs)
          (ys ++ (x ∷ (zs ++ rest)))
        ≡ some ((ys ++ zs) ++ rest'))
unfolding memmove
memmove_left ys zs rest x = (
  drop (length zs) (x ∷ (zs ++ rest)),
  rw (fits, left, middle, right) (ap some (sym (append_assoc ys zs _))),
)
  where
    b : List Ptr
    b = ys ++ (x ∷ (zs ++ rest))

    total : length b ≡ length ys + (length zs + length rest + 1)
    total = omega (arith, length-append ys (x ∷ (zs ++ rest)), length-append zs rest)

    fits :
        (leb (length ys + length zs) (length b) && leb (length ys + 1 + length zs) (length b))
        ≡ true
    fits = ground (arith, total)

    left : take (length ys) b ≡ ys
    left = take-length_append ys _

    middle : take (length zs) (drop (length ys + 1) b) ≡ zs
    middle = rw (drop-append_past ys (x ∷ (zs ++ rest)) 1, take-length_append zs)

    right : drop (length ys + length zs) b ≡ drop (length zs) (x ∷ (zs ++ rest))
    right = drop-append_past ys _ _

pub set_cell_at :
    (ys zs : List Ptr) (y x : Ptr) (i : ℕ)
    → i ≡ length ys
    → set_cell (ys ++ (y ∷ zs)) i x ≡ some (ys ++ (x ∷ zs))
set_cell_at ys zs y x i e = rw (e, inside, set-length_append ys zs y x)
  where
    inside : ltb (length ys) (length (ys ++ (y ∷ zs))) ≡ true
    inside = ground (arith, length-append ys (y ∷ zs))

pub block_of :
    (elem : Option (List Ptr)) (xs : List Ptr)
    → Stores elem xs
    → xs ≢ []
    → (rest : List Ptr) × (elem ≡ some (xs ++ rest))
block_of none xs s ne = absurd (ne s)
block_of (some b) xs (rest, e, _) ne = (rest, ap some e)
