-- ===== src/Klist.antt =====
-- include/gpr_klist.h: circular lists of entries that stand inside the client's structures.
-- The heap maps the address of an entry to its links. A head is an entry as any other. `debug` says
-- whether `DEBUG` is defined. The loops of the macros follow links, on fuel.
mod Chain
mod Delete
mod Edit
mod Loops
mod Splice
mod Tests
mod Visit
use gpr.Base.{
  ℕ, zero, suc, ◌+◌, ◌-◌, ◌%◌, ◌^◌, List, Option, none, some, Bool, true, ◌&&◌, if◌then◌else◌, ◌==◌,
}
use gpr.Machine.{attempt, Ptr, null, done, out_of_fuel, Cmd, ◌>>=◌, ◌>>◌, pure, crash, get_heap}
use gpr.Err.{GprErr, invalid_parameter, raise, success}

pub record Entry : Type 0 where
  pub prev : Ptr
  pub next : Ptr

abbrev pub Entries : Type 0
Entries = Ptr → Option Entry

abbrev pub link_prev : Ptr → Option Entry → Option Entry
link_prev q none = none
link_prev q (some e) = some (record e { prev = q })

abbrev pub link_next : Ptr → Option Entry → Option Entry
link_next q none = none
link_next q (some e) = some (record e { next = q })

abbrev pub update : Entries → Ptr → (Option Entry → Option Entry) → Entries
update h p f r = if r == p then f (h r) else h r

-- `*p`, a fault at `NULL` and where there is no entry
abbrev pub load_entry : Ptr → Cmd Entries Entry
load_entry p = if p == null then crash else do h ← get_heap; attempt (h p)

-- `p->prev = q` and `p->next = q`
unfoldable pub set_prev : Ptr → Ptr → Cmd Entries (Unit {0})
set_prev p q = load_entry p >> (λ w. done tt (record w { heap = update w.heap p (link_prev q) }))

unfoldable pub set_next : Ptr → Ptr → Cmd Entries (Unit {0})
set_next p q = load_entry p >> (λ w. done tt (record w { heap = update w.heap p (link_next q) }))

-- An entry of the client's memory, whatever it held, comes to be.
unfoldable pub gpr_klist_init : Bool → Ptr → Cmd Entries (Unit {0})
gpr_klist_init debug list =
    if debug && (list == null) then pure tt else if list == null then crash else λ w.
    done tt (record w {
      heap = λ r. if r == list then some (record { prev = list; next = list }) else w.heap r;
    })

unfoldable pub list_add_entry : Bool → Ptr → Ptr → Ptr → Cmd Entries GprErr
list_add_entry debug new prev next =
    if debug && (new == null)
    then raise invalid_parameter "Invalid new entry"
    else if debug && (prev == null)
    then raise invalid_parameter "Invalid previous entry"
    else if debug && (next == null)
    then raise invalid_parameter "Invalid next entry"
    else do set_prev next new; set_next new next; set_prev new prev; set_next prev new; success

unfoldable pub list_del_entry : Bool → Ptr → Ptr → Cmd Entries GprErr
list_del_entry debug prev next =
    if debug && (prev == null)
    then raise invalid_parameter "Invalid previous entry"
    else if debug && (next == null)
    then raise invalid_parameter "Invalid next entry"
    else do set_prev next prev; set_next prev next; success

unfoldable pub gpr_klist_push_front : Bool → Ptr → Ptr → Cmd Entries GprErr
gpr_klist_push_front debug new head =
    if debug && (new == null)
    then raise invalid_parameter "Invalid new entry"
    else if debug && (head == null)
    then raise invalid_parameter "Invalid list head"
    else do e ← load_entry head; list_add_entry debug new head e.next

unfoldable pub gpr_klist_push_back : Bool → Ptr → Ptr → Cmd Entries GprErr
gpr_klist_push_back debug new head =
    if debug && (new == null)
    then raise invalid_parameter "Invalid new entry"
    else if debug && (head == null)
    then raise invalid_parameter "Invalid list head"
    else do e ← load_entry head; list_add_entry debug new e.prev head

-- The code of `list_del_entry` is dropped.
unfoldable pub gpr_klist_delete : Bool → Ptr → Cmd Entries GprErr
gpr_klist_delete debug entry =
    if debug && (entry == null) then raise invalid_parameter "Invalid entry" else do
      e ← load_entry entry
      list_del_entry debug e.prev e.next
      set_prev entry entry
      set_next entry entry
      success

unfoldable pub gpr_klist_is_empty : Bool → Ptr → Cmd Entries Bool
gpr_klist_is_empty debug head =
    if debug && (head == null) then pure true else do e ← load_entry head; pure (e.next == head)

-- The structure that an entry stands in, and the entry in a structure, at its offset.
abbrev pub size_max : ℕ
size_max = 2 ^ 64

abbrev pub gpr_container_of : ℕ → Ptr → Ptr
gpr_container_of offset p = (p + size_max - offset) % size_max

abbrev pub member_of : ℕ → Ptr → Ptr
member_of offset pos = (pos + offset) % size_max

pub data Direction : Type 0 where
  forward backward : Direction

abbrev pub follow : Direction → Entry → Ptr
follow forward e = e.next
follow backward e = e.prev

-- The loops over entries, in either direction, with the loop's body.
module _ (d : Direction) (body : Ptr → Cmd Entries (Unit {0})) (head : Ptr) where
  unfoldable pub each_entry : ℕ → Ptr → Cmd Entries (Unit {0})
  each_entry zero pos = λ _. out_of_fuel
  each_entry (suc fuel) pos =
      if pos == head then pure tt else do body pos; e ← load_entry pos; each_entry fuel (follow d e)

  unfoldable pub each_container : ℕ → ℕ → Ptr → Cmd Entries (Unit {0})
  each_container offset zero pos = λ _. out_of_fuel
  each_container offset (suc fuel) pos = if member_of offset pos == head then pure tt else do
    body pos
    e ← load_entry (member_of offset pos)
    each_container offset fuel (gpr_container_of offset (follow d e))

  -- `tmp` is read before the body runs.
  unfoldable pub each_container_safe : ℕ → ℕ → Ptr → Ptr → Cmd Entries (Unit {0})
  each_container_safe offset zero pos tmp = λ _. out_of_fuel
  each_container_safe offset (suc fuel) pos tmp =
      if member_of offset pos == head then pure tt else do
        body pos
        e ← load_entry (member_of offset tmp)
        each_container_safe offset fuel tmp (gpr_container_of offset (follow d e))

module _ (body : Ptr → Cmd Entries (Unit {0})) (fuel : ℕ) (head : Ptr) where
  unfoldable pub gpr_klist_for_each : Cmd Entries (Unit {0})
  gpr_klist_for_each = do e ← load_entry head; each_entry forward body head fuel e.next

  unfoldable pub gpr_klist_for_each_reverse : Cmd Entries (Unit {0})
  gpr_klist_for_each_reverse = do e ← load_entry head; each_entry backward body head fuel e.prev

  unfoldable pub gpr_klist_for_each_entry : ℕ → Cmd Entries (Unit {0})
  gpr_klist_for_each_entry offset = do
    e ← load_entry head
    each_container forward body head offset fuel (gpr_container_of offset e.next)

  unfoldable pub gpr_klist_for_each_entry_reverse : ℕ → Cmd Entries (Unit {0})
  gpr_klist_for_each_entry_reverse offset = do
    e ← load_entry head
    each_container backward body head offset fuel (gpr_container_of offset e.prev)

  unfoldable pub gpr_klist_for_each_entry_safe : ℕ → Cmd Entries (Unit {0})
  gpr_klist_for_each_entry_safe offset = do
    e ← load_entry head
    let pos = gpr_container_of offset e.next
    f ← load_entry (member_of offset pos)
    each_container_safe forward body head offset fuel pos (gpr_container_of offset f.next)

  unfoldable pub gpr_klist_for_each_entry_reverse_safe : ℕ → Cmd Entries (Unit {0})
  gpr_klist_for_each_entry_reverse_safe offset = do
    e ← load_entry head
    let pos = gpr_container_of offset e.prev
    f ← load_entry (member_of offset pos)
    each_container_safe backward body head offset fuel pos (gpr_container_of offset f.prev)
