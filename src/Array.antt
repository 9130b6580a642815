-- ===== src/Array.antt =====
-- include/gpr_array.h and src/gpr_array.c: a dynamic array of pointers.
-- The heap holds the one `struct gpr_array` that the handle `arr` points to, or nothing; its block
-- is the list of the cells that are allocated. `debug` says whether `DEBUG` is defined, `alloc`
-- what the allocator answers, and `elem_free` whether a callback is given (its calls are logged).
mod Block
mod Inv
mod Grow
mod Shrink
mod Reset
mod Pop
pub mod Insert
pub mod Remove
pub mod Replace
pub mod Scan
pub mod Refine
mod Tests
use gpr.Base.{
  ℕ, zero, suc, ◌+◌, ◌-◌, ◌*◌, ◌/◌, ◌%◌, ◌^◌, List, [], ◌∷◌, ◌++◌, Option, none, some, Bool, true,
  false, ◌&&◌, ◌||◌, not, if◌then◌else◌, ◌==◌, leb, ltb, length, get_elem?, set, take, drop,
  replicate,
}
use gpr.Machine.{
  attempt, call_back, when, Ptr, null, done, Cmd, ◌>>=◌, ◌>>◌, pure, crash, get_heap, put_heap,
}
use gpr.Err.{GprErr, ko, invalid_parameter, memory_failure, raise, success}

pub record GprArray : Type 0 where
  pub size : ℕ
  -- the block that `elem` points to, or `NULL`
  pub elem : Option (List Ptr)

abbrev pub Arr : Type 0
Arr = Option GprArray

-- The answer of one call of `malloc` or `realloc`, and what a new cell holds.
pub record Alloc : Type 0 where
  pub granted : Bool
  pub junk : Ptr

abbrev pub size_max : ℕ
size_max = 2 ^ 64

-- The cells in a block of `sizeof(void *) * n` bytes, with 8-byte pointers.
unfoldable pub cells : ℕ → ℕ
cells n = 8 * n % size_max / 8

-- `realloc`: the old cells that fit, then cells that hold anything. A refused call keeps the block.
unfoldable pub realloc : Alloc → Option (List Ptr) → ℕ → Option (List Ptr)
realloc alloc none n = if alloc.granted then some (replicate n alloc.junk) else none
realloc alloc (some b) n =
    if alloc.granted then some (take n (b ++ replicate (n - length b) alloc.junk)) else none

-- `memmove` of `n` cells from index `src` to index `dst`, a fault outside of the block.
unfoldable pub memmove : ℕ → ℕ → ℕ → List Ptr → Option (List Ptr)
memmove dst src n b =
    if leb (dst + n) (length b) && leb (src + n) (length b)
    then some (take dst b ++ (take n (drop src b) ++ drop (dst + n) b))
    else none

-- `*arr`
abbrev pub load : Ptr → Cmd Arr GprArray
load arr = if arr == null then crash else do a ← get_heap; attempt a

abbrev pub save : GprArray → Cmd Arr (Unit {0})
save a = put_heap (some a)

-- `elem[index]`, and the write to it, a fault outside of the block
abbrev pub cell : Option (List Ptr) → ℕ → Option Ptr
cell none i = none
cell (some b) i = get_elem? b i

abbrev pub set_cell : List Ptr → ℕ → Ptr → Option (List Ptr)
set_cell b i v = if ltb i (length b) then some (set b i v) else none

unfoldable pub gpr_array_is_empty : Ptr → Cmd Arr Bool
gpr_array_is_empty arr = if arr == null then pure true else do a ← load arr; pure (a.size == 0)

unfoldable pub gpr_array_get_size : Ptr → Cmd Arr ℕ
gpr_array_get_size arr = if arr == null then pure 0 else do a ← load arr; pure a.size

unfoldable pub gpr_array_get_elem : Bool → Ptr → ℕ → Cmd Arr Ptr
unfolding gpr_array_get_size
gpr_array_get_elem debug arr index = do
  size ← gpr_array_get_size arr
  if debug && ((arr == null) || leb size index)
      then pure null
      else do a ← load arr; attempt (cell a.elem index)

unfoldable pub gpr_array_init : Bool → Ptr → Cmd Arr (Unit {0})
gpr_array_init debug arr =
    if debug && (arr == null)
    then pure tt
    else if arr == null
    then crash
    else save (record { size = 0; elem = none })

-- `gpr_array_new`: the handle is the address that `malloc` returned.
unfoldable pub gpr_array_new : Bool → Ptr → Cmd Arr Ptr
unfolding gpr_array_init
gpr_array_new debug fresh =
    if fresh == null then pure null else gpr_array_init debug fresh >> pure fresh

-- The loop of `gpr_array_reset`, with `n` rounds left.
unfoldable pub free_loop : Bool → Option (List Ptr) → ℕ → ℕ → Cmd Arr (Unit {0})
free_loop elem_free elem zero index = pure tt
free_loop elem_free elem (suc n) index = do
  p ← attempt (cell elem index)
  when (not (p == null) && elem_free) (call_back p)
  free_loop elem_free elem n (index + 1)

unfoldable pub gpr_array_reset : Bool → Bool → Ptr → Cmd Arr (Unit {0})
unfolding free_loop
gpr_array_reset debug elem_free arr = if debug && (arr == null) then pure tt else do
  a ← load arr
  if debug && (a.size == 0)
      then pure tt
      else do free_loop elem_free a.elem a.size 0; save (record { size = 0; elem = none })

unfoldable pub gpr_array_free : Bool → Bool → Ptr → Cmd Arr (Unit {0})
gpr_array_free debug elem_free arr =
    if debug && (arr == null)
    then pure tt
    else do gpr_array_reset debug elem_free arr; put_heap none

unfoldable pub gpr_array_push_front : Bool → Alloc → Ptr → Ptr → Cmd Arr GprErr
gpr_array_push_front debug alloc arr elem =
    if debug && (arr == null)
    then raise invalid_parameter "Invalid array"
    else if debug && (elem == null)
    then raise invalid_parameter "Invalid element"
    else do
      a ← load arr
      elim (realloc alloc a.elem (cells (a.size + 1))) [
        | none ↦ raise memory_failure "Array allocation failed"
        | some area ↦ do
          moved ← attempt (memmove 1 0 (cells a.size) area)
          filled ← attempt (set_cell moved 0 elem)
          save (record { size = (a.size + 1) % size_max; elem = some filled })
          success
      ]

unfoldable pub gpr_array_push_back : Bool → Alloc → Ptr → Ptr → Cmd Arr GprErr
gpr_array_push_back debug alloc arr elem =
    if debug && (arr == null)
    then raise invalid_parameter "Invalid array"
    else if debug && (elem == null)
    then raise invalid_parameter "Invalid element"
    else do
      a ← load arr
      elim (realloc alloc a.elem (cells (a.size + 1))) [
        | none ↦ raise memory_failure "Array allocation failed"
        | some area ↦ do
          filled ← attempt (set_cell area a.size elem)
          save (record { size = (a.size + 1) % size_max; elem = some filled })
          success
      ]

-- The part of `gpr_array_insert` for a position inside the array.
unfoldable pub insert_inside : Alloc → Ptr → Ptr → ℕ → Cmd Arr GprErr
insert_inside alloc arr elem index = do
  a ← load arr
  elim (realloc alloc a.elem (cells (a.size + 1))) [
    | none ↦ raise memory_failure "Array allocation failed"
    | some area ↦
        let back_size = (a.size + size_max - index) % size_max in
        do
          moved ← attempt (
              if ltb 0 back_size
              then memmove (index + 1) index (cells back_size) area
              else some area)
          filled ← attempt (set_cell moved index elem)
          save (record { size = (a.size + 1) % size_max; elem = some filled })
          success
  ]

unfoldable pub gpr_array_insert : Bool → Alloc → Ptr → Ptr → ℕ → Cmd Arr GprErr
unfolding gpr_array_get_size
gpr_array_insert debug alloc arr elem index =
    if debug && (arr == null)
    then raise invalid_parameter "Invalid array"
    else if debug && (elem == null)
    then raise invalid_parameter "Invalid element"
    else do
      size ← gpr_array_get_size arr
      if debug && ltb size index
          then raise invalid_parameter "Invalid index"
          else if index == 0
          then gpr_array_push_front debug alloc arr elem
          else if index == size
          then gpr_array_push_back debug alloc arr elem
          else insert_inside alloc arr elem index

-- The end of each removal: the block is cut to `a.size` cells; when that is refused it stays.
unfoldable pub shrink : Alloc → GprArray → List Ptr → Cmd Arr GprErr
shrink alloc a block = elim (realloc alloc (some block) (cells a.size)) [
  | none ↦ do save (record a { elem = some block }); raise memory_failure "Array allocation failed"
  | some area ↦ do save (record a { elem = some area }); success
]

unfoldable pub gpr_array_pop_front : Bool → Alloc → Bool → Ptr → Cmd Arr GprErr
unfolding gpr_array_is_empty gpr_array_get_size
gpr_array_pop_front debug alloc elem_free arr =
    if debug && (arr == null) then raise invalid_parameter "Invalid array" else do
      empty ← gpr_array_is_empty arr
      if empty then raise ko "Empty array" else do
        size ← gpr_array_get_size arr
        if size == 1 then gpr_array_reset debug elem_free arr >> success else do
          when elem_free (gpr_array_get_elem debug arr 0 >>= call_back)
          a ← load arr
          block ← attempt a.elem
          moved ← attempt (memmove 0 1 (cells (a.size - 1)) block)
          shrink alloc (record a { size = a.size - 1 }) moved

unfoldable pub gpr_array_pop_back : Bool → Alloc → Bool → Ptr → Cmd Arr GprErr
unfolding gpr_array_is_empty gpr_array_get_size
gpr_array_pop_back debug alloc elem_free arr =
    if debug && (arr == null) then raise invalid_parameter "Invalid array" else do
      empty ← gpr_array_is_empty arr
      if empty then raise ko "Empty array" else do
        size ← gpr_array_get_size arr
        if size == 1 then gpr_array_reset debug elem_free arr >> success else do
          when elem_free (gpr_array_get_elem debug arr (size - 1) >>= call_back)
          a ← load arr
          block ← attempt a.elem
          shrink alloc (record a { size = a.size - 1 }) block

-- The part of `gpr_array_remove` for a position inside the array. `arr->size` is not 0 here.
unfoldable pub remove_inside : Bool → Alloc → Bool → Ptr → ℕ → Cmd Arr GprErr
remove_inside debug alloc elem_free arr index = do
  when elem_free (gpr_array_get_elem debug arr index >>= call_back)
  a ← load arr
  block ← attempt a.elem
  moved ←
      attempt (memmove index (index + 1) (cells ((a.size - 1 + size_max - index) % size_max)) block)
  shrink alloc (record a { size = a.size - 1 }) moved

unfoldable pub gpr_array_remove : Bool → Alloc → Bool → Ptr → ℕ → Cmd Arr GprErr
unfolding gpr_array_is_empty gpr_array_get_size
gpr_array_remove debug alloc elem_free arr index =
    if debug && (arr == null) then raise invalid_parameter "Invalid array" else do
      size ← gpr_array_get_size arr
      if debug && leb size index then raise invalid_parameter "Invalid index" else do
        empty ← gpr_array_is_empty arr
        if empty
            then raise ko "Empty array"
            else if index == 0
            then gpr_array_pop_front debug alloc elem_free arr
            else if index == size - 1
            then gpr_array_pop_back debug alloc elem_free arr
            else remove_inside debug alloc elem_free arr index

unfoldable pub gpr_array_replace : Bool → Bool → Ptr → Ptr → ℕ → Cmd Arr GprErr
unfolding gpr_array_is_empty gpr_array_get_size
gpr_array_replace debug elem_free arr elem index =
    if debug && (arr == null)
    then raise invalid_parameter "Invalid array"
    else if debug && (elem == null)
    then raise invalid_parameter "Invalid element"
    else do
      size ← gpr_array_get_size arr
      if debug && leb size index then raise invalid_parameter "Invalid index" else do
        empty ← gpr_array_is_empty arr
        if empty then raise ko "Empty array" else do
          when elem_free (gpr_array_get_elem debug arr index >>= call_back)
          a ← load arr
          block ← attempt a.elem
          filled ← attempt (set_cell block index elem)
          save (record a { elem = some filled })
          success

-- The loop of `gpr_array_map`, with `n` rounds left. `elem_map` is logged for each element.
unfoldable pub map_loop : Option (List Ptr) → ℕ → ℕ → Cmd Arr (Unit {0})
map_loop elem zero index = pure tt
map_loop elem (suc n) index = do
  p ← attempt (cell elem index)
  call_back p
  map_loop elem n (index + 1)

-- `elem_map` says whether the callback is given. A call through `NULL` is a fault.
unfoldable pub gpr_array_map : Bool → Bool → Ptr → Cmd Arr (Unit {0})
unfolding map_loop
gpr_array_map debug elem_map arr = if debug && ((arr == null) || not elem_map) then pure tt else do
  a ← load arr
  if not elem_map && not (a.size == 0) then crash else map_loop a.elem a.size 0

-- The loop of `gpr_array_search`, with `n` rounds left: the element, and what is stored in `index`.
unfoldable pub search_loop : (Ptr → Bool) → Bool → Ptr → ℕ → ℕ → Cmd Arr (Ptr × Option ℕ)
search_loop elem_search debug arr zero counter = pure (null, some 0)
search_loop elem_search debug arr (suc n) counter = do
  p ← gpr_array_get_elem debug arr counter
  if elem_search p
      then pure (p, some counter)
      else search_loop elem_search debug arr n (counter + 1)

-- The result, and what is stored through `index`, `none` where nothing is. The callback is given
-- with its context, and may be `NULL`.
unfoldable pub gpr_array_search : Bool → Option (Ptr → Bool) → Ptr → Cmd Arr (Ptr × Option ℕ)
unfolding search_loop gpr_array_get_size
gpr_array_search debug none arr =
    if debug
    then pure (null, none)
    else do size ← gpr_array_get_size arr; if size == 0 then pure (null, some 0) else crash
gpr_array_search debug (some elem_search) arr =
    if debug && (arr == null)
    then pure (null, none)
    else do size ← gpr_array_get_size arr; search_loop elem_search debug arr size 0
