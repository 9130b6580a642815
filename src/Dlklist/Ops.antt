-- ===== src/Dlklist/Ops.antt =====
-- The operations of src/gpr_dlklist.c.
use gpr.Base.{
  ℕ, zero, suc, ◌+◌, ◌-◌, ◌%◌, none, some, Bool, ◌&&◌, not, if◌then◌else◌, ◌==◌, leb, ltb,
}
use gpr.Machine.{
  call_back, when, Ptr, null, out_of_fuel, Cmd, ◌>>=◌, ◌>>◌, pure, crash, get_heap, put_heap,
}
use gpr.Err.{GprErr, ok, ko, invalid_parameter, memory_failure, raise, success}
use gpr.Dlklist.{
  Dl, size_max, load, save, load_node, put_node, set_prev, set_next, gpr_dlklist_is_empty,
  gpr_dlklist_get_size, gpr_dlklist_get_head, gpr_dlklist_get_tail, gpr_dlklist_node_has_data,
  gpr_dlklist_node_prev, gpr_dlklist_node_next, new_node, free_node, search_node_by_position,
}

unfoldable pub gpr_dlklist_init : Bool → Ptr → Cmd Dl (Unit {0})
gpr_dlklist_init debug list =
    if debug && (list == null)
    then pure tt
    else if list == null
    then crash
    else save (record { size = 0; head = null; tail = null })

-- The handle is the address that `malloc` returned.
unfoldable pub gpr_dlklist_new : Bool → Ptr → Cmd Dl Ptr
unfolding gpr_dlklist_init
gpr_dlklist_new debug fresh =
    if fresh == null then pure null else gpr_dlklist_init debug fresh >> pure fresh

-- The loop of `gpr_dlklist_reset`, on fuel.
unfoldable pub reset_loop : Bool → Bool → ℕ → Ptr → Cmd Dl (Unit {0})
reset_loop debug data_free zero scout = λ _. out_of_fuel
reset_loop debug data_free (suc fuel) scout = do
  more ← gpr_dlklist_node_has_data scout
  if more
      then (do
        next ← gpr_dlklist_node_next scout
        free_node debug data_free scout
        reset_loop debug data_free fuel next)
      else pure tt

unfoldable pub gpr_dlklist_reset : Bool → Bool → Ptr → Cmd Dl (Unit {0})
unfolding gpr_dlklist_get_head
gpr_dlklist_reset debug data_free list = if debug && (list == null) then pure tt else do
  l ← load list
  if debug && (l.head == null) then pure tt else do
    scout ← gpr_dlklist_get_head list
    reset_loop debug data_free (l.size + 1) scout
    save (record { size = 0; head = null; tail = null })

unfoldable pub gpr_dlklist_free : Bool → Bool → Ptr → Cmd Dl (Unit {0})
gpr_dlklist_free debug data_free list = if debug && (list == null) then pure tt else do
  gpr_dlklist_reset debug data_free list
  h ← get_heap
  put_heap (record h { list = none })

unfoldable pub gpr_dlklist_push_front : Bool → Ptr → Ptr → Ptr → Cmd Dl GprErr
unfolding gpr_dlklist_is_empty gpr_dlklist_get_head
gpr_dlklist_push_front debug fresh list item =
    if debug && (list == null)
    then raise invalid_parameter "Invalid list"
    else if debug && (item == null)
    then raise invalid_parameter "Invalid data"
    else do
      p ← new_node debug fresh item
      if p == null then raise memory_failure "Node allocation failed" else do
        empty ← gpr_dlklist_is_empty list
        l ← load list
        if empty
            then save (record { size = (l.size + 1) % size_max; head = p; tail = p }) >> success
            else do
              first ← gpr_dlklist_get_head list
              set_prev first p
              set_next p first
              save (record l { size = (l.size + 1) % size_max; head = p })
              success

unfoldable pub gpr_dlklist_push_back : Bool → Ptr → Ptr → Ptr → Cmd Dl GprErr
unfolding gpr_dlklist_is_empty gpr_dlklist_get_tail
gpr_dlklist_push_back debug fresh list item =
    if debug && (list == null)
    then raise invalid_parameter "Invalid list"
    else if debug && (item == null)
    then raise invalid_parameter "Invalid data"
    else do
      p ← new_node debug fresh item
      if p == null then raise memory_failure "Node allocation failed" else do
        empty ← gpr_dlklist_is_empty list
        l ← load list
        if empty
            then save (record { size = (l.size + 1) % size_max; head = p; tail = p }) >> success
            else do
              last ← gpr_dlklist_get_tail list
              set_next last p
              set_prev p last
              save (record l { size = (l.size + 1) % size_max; tail = p })
              success

-- The part of `gpr_dlklist_insert` for a position inside the list.
unfoldable pub insert_inside : Bool → Ptr → Ptr → Ptr → ℕ → Cmd Dl GprErr
insert_inside debug fresh list item pos = do
  p ← new_node debug fresh item
  if p == null then raise memory_failure "Node allocation failed" else do
    scout ← search_node_by_position debug list pos
    set_next p scout
    s ← load_node scout
    set_prev p s.prev
    s' ← load_node scout
    set_next s'.prev p
    set_prev scout p
    l ← load list
    save (record l { size = (l.size + 1) % size_max })
    success

unfoldable pub gpr_dlklist_insert : Bool → Ptr → Ptr → Ptr → ℕ → Cmd Dl GprErr
unfolding gpr_dlklist_get_size
gpr_dlklist_insert debug fresh list item pos =
    if debug && (list == null)
    then raise invalid_parameter "Invalid list"
    else if debug && (item == null)
    then raise invalid_parameter "Invalid data"
    else do
      size ← gpr_dlklist_get_size list
      if debug && ltb size pos
          then raise invalid_parameter "Invalid position"
          else if pos == 0
          then gpr_dlklist_push_front debug fresh list item
          else if pos == size
          then gpr_dlklist_push_back debug fresh list item
          else insert_inside debug fresh list item pos

unfoldable pub gpr_dlklist_pop_front : Bool → Bool → Ptr → Cmd Dl GprErr
unfolding gpr_dlklist_is_empty gpr_dlklist_get_size gpr_dlklist_get_head
gpr_dlklist_pop_front debug data_free list =
    if debug && (list == null) then raise invalid_parameter "Invalid list" else do
      empty ← gpr_dlklist_is_empty list
      if empty then raise ko "Empty list" else do
        size ← gpr_dlklist_get_size list
        if size == 1 then gpr_dlklist_reset debug data_free list >> success else do
          first ← gpr_dlklist_get_head list
          second ← gpr_dlklist_node_next first
          l ← load list
          set_prev second null
          save (record l { size = l.size - 1; head = second })
          free_node debug data_free first
          success

unfoldable pub gpr_dlklist_pop_back : Bool → Bool → Ptr → Cmd Dl GprErr
unfolding gpr_dlklist_is_empty gpr_dlklist_get_size gpr_dlklist_get_tail
gpr_dlklist_pop_back debug data_free list =
    if debug && (list == null) then raise invalid_parameter "Invalid list" else do
      empty ← gpr_dlklist_is_empty list
      if empty then raise ko "Empty list" else do
        size ← gpr_dlklist_get_size list
        if size == 1 then gpr_dlklist_reset debug data_free list >> success else do
          last ← gpr_dlklist_get_tail list
          before ← gpr_dlklist_node_prev last
          l ← load list
          set_next before null
          save (record l { size = l.size - 1; tail = before })
          free_node debug data_free last
          success

-- The part of `gpr_dlklist_remove` for a position inside the list. The size is not 0 here.
unfoldable pub remove_inside : Bool → Bool → Ptr → ℕ → Cmd Dl GprErr
remove_inside debug data_free list pos = do
  scout ← search_node_by_position debug list pos
  s ← load_node scout
  set_next s.prev s.next
  s' ← load_node scout
  set_prev s'.next s'.prev
  l ← load list
  save (record l { size = l.size - 1 })
  free_node debug data_free scout
  success

unfoldable pub gpr_dlklist_remove : Bool → Bool → Ptr → ℕ → Cmd Dl GprErr
unfolding gpr_dlklist_is_empty gpr_dlklist_get_size
gpr_dlklist_remove debug data_free list pos =
    if debug && (list == null) then raise invalid_parameter "Invalid list" else do
      size ← gpr_dlklist_get_size list
      if debug && leb size pos then raise invalid_parameter "Invalid position" else do
        empty ← gpr_dlklist_is_empty list
        if empty
            then raise ko "Empty list"
            else if pos == 0
            then gpr_dlklist_pop_front debug data_free list
            else if pos == (size + size_max - 1) % size_max
            then gpr_dlklist_pop_back debug data_free list
            else remove_inside debug data_free list pos

-- A success does not touch the error message.
unfoldable pub gpr_dlklist_replace : Bool → Bool → Ptr → Ptr → ℕ → Cmd Dl GprErr
unfolding gpr_dlklist_is_empty gpr_dlklist_get_size
gpr_dlklist_replace debug data_free list item pos =
    if debug && (list == null)
    then raise invalid_parameter "Invalid list"
    else if debug && (item == null)
    then raise invalid_parameter "Invalid data"
    else do
      size ← gpr_dlklist_get_size list
      if debug && leb size pos then raise invalid_parameter "Invalid position" else do
        empty ← gpr_dlklist_is_empty list
        if empty then raise ko "Empty list" else do
          scout ← search_node_by_position debug list pos
          n ← load_node scout
          when (not (n.item == null) && data_free) (call_back n.item)
          put_node scout (some (record n { item = item }))
          pure ok
