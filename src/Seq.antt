-- ===== src/Seq.antt =====
-- The sequence that the two containers promise: an abstract machine over a list of elements.
-- include/gpr_array.h and include/gpr_dlklist.h document the same operations; the traits say where
-- the containers differ. `step` is the contract, and the containers' modules prove that they meet it.
pub mod Laws
use Prim.Native.String.{String}
use gpr.Base.{
  ℕ, suc, ◌-◌, ◌<◌, ◌≤◌, ◌≡◌, ◌≢◌, ◌⊎◌, List, [], ◌∷◌, ◌++◌, none, some, Bool, true, false, ◌&&◌,
  if◌then◌else◌, ◌==◌, leb, ltb, length, set, take, drop, get_elem?,
}
use gpr.Machine.{Ptr, null, World}
use gpr.Err.{GprErr, ok, ko, invalid_parameter, memory_failure, codes}

-- The operations, with a non-`NULL` container.
pub data Op : Type 0 where
  push_front push_back : Ptr → Op
  insert replace : Ptr → ℕ → Op
  remove : ℕ → Op
  pop_front pop_back : Op

-- What differs between the containers.
pub record Traits : Type 0 where
  pub empty_text : String
  pub item_text : String
  pub index_text : String
  pub memory_text : String
  -- whether taking one of several elements out needs an allocation
  pub removal_allocates : Bool
  -- whether a successful replacement clears the error message
  pub replace_clears : Bool

pub record State : Type 0 where
  pub items : List Ptr
  pub msg : List ℕ
  pub calls : List Ptr

abbrev pub Reply : Type 0
Reply = GprErr × State

-- `insert_at`, `remove_at`: the list operations of the contract.
abbrev pub insert_at : List Ptr → ℕ → Ptr → List Ptr
insert_at xs i x = take i xs ++ (x ∷ drop i xs)

abbrev pub remove_at : List Ptr → ℕ → List Ptr
remove_at xs i = take i xs ++ drop (suc i) xs

abbrev pub item : List Ptr → ℕ → List Ptr
item xs i = elim (get_elem? xs i) [ none ↦ [] | some x ↦ x ∷ [] ]

abbrev pub fail : State → GprErr → String → Reply
fail s e text = (e, record s { msg = codes text })

-- What the client's callback is called on.
abbrev pub freed : Bool → List Ptr → List Ptr
freed frees xs = if frees then xs else []

-- `debug`: the build; `granted`: the allocator's answer; `frees`: whether the client gave a callback.
module _ (t : Traits) (debug granted frees : Bool) where
  unfoldable pub add : State → Ptr → ℕ → Reply
  add s x i =
      if debug && (x == null)
      then fail s invalid_parameter t.item_text
      else if debug && ltb (length s.items) i
      then fail s invalid_parameter t.index_text
      else if granted
      then (ok, record s { items = insert_at s.items i x; msg = [] })
      else fail s memory_failure t.memory_text

  -- A refused allocation is reported, but the element is gone.
  unfoldable pub take_out : State → ℕ → Reply
  take_out s i =
      let s' = record s {
        items = remove_at s.items i;
        msg = [];
        calls = s.calls ++ freed frees (item s.items i);
      } in
      if length s.items == 0
      then fail s ko t.empty_text
      else if t.removal_allocates && (ltb 1 (length s.items) && (if granted then false else true))
      then fail s' memory_failure t.memory_text
      else (ok, s')

  unfoldable pub step : State → Op → Reply
  unfolding add take_out
  step s (push_front x) = add s x 0
  step s (push_back x) = add s x (length s.items)
  step s (insert x i) = add s x i
  step s pop_front = take_out s 0
  step s pop_back = take_out s (length s.items - 1)
  step s (remove i) =
      if debug && leb (length s.items) i
      then fail s invalid_parameter t.index_text
      else take_out s i
  step s (replace x i) =
      if debug && (x == null)
      then fail s invalid_parameter t.item_text
      else if debug && leb (length s.items) i
      then fail s invalid_parameter t.index_text
      else if length s.items == 0
      then fail s ko t.empty_text
      else (
        ok,
        record s {
          items = set s.items i x;
          msg = if t.replace_clears then [] else s.msg;
          calls = s.calls ++ freed frees (item s.items i);
        },
      )

-- Outside of a debug build the client keeps to these rules; a debug build checks them itself.
abbrev pub Legal : Bool → List Ptr → Op → Type 0
Legal debug xs (push_front x) = (debug ≡ true) ⊎ (x ≢ null)
Legal debug xs (push_back x) = (debug ≡ true) ⊎ (x ≢ null)
Legal debug xs (insert x i) = (debug ≡ true) ⊎ (x ≢ null) × (i ≤ length xs)
Legal debug xs pop_front = Unit
Legal debug xs pop_back = Unit
Legal debug xs (remove i) = (debug ≡ true) ⊎ (xs ≡ []) ⊎ (i < length xs)
Legal debug xs (replace x i) = (debug ≡ true) ⊎ (x ≢ null) × ((xs ≡ []) ⊎ (i < length xs))

-- A client's calls, each with the allocator's answer: the replies' codes, and the last state.
module _ (t : Traits) (debug frees : Bool) where
  unfoldable pub run : State → List (Op × Bool) → List GprErr × State
  run s [] = ([], s)
  run s ((op, granted) ∷ ops) =
      let (e, s') = step t debug granted frees s op in let (es, s'') = run s' ops in (e ∷ es, s'')

  abbrev pub LegalRun : State → List (Op × Bool) → Type 0
  LegalRun s [] = Unit
  LegalRun s ((op, granted) ∷ ops) =
      Legal debug s.items op × LegalRun (step t debug granted frees s op).1 ops

-- A result and a world show the abstract reply, for a container whose contents `Holds` tells.
module _ {H : Type 0} (Holds : H → List Ptr → Type 0) where
  pub record Shows (r : Reply) (e : GprErr) (w : World H) : Type 0 where
    pub code : e ≡ r.0
    pub holds : Holds w.heap r.1.items
    pub message : w.msg ≡ r.1.msg
    pub log : w.calls ≡ r.1.calls

abbrev pub state_of : {H : Type 0} → World H → List Ptr → State
state_of w xs = record { items = xs; msg = w.msg; calls = w.calls }

-- No element of the list passes the test.
abbrev pub NoneOf : (Ptr → Bool) → List Ptr → Type 0
NoneOf p [] = Unit
NoneOf p (x ∷ xs) = (p x ≡ false) × NoneOf p xs
