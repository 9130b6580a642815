-- ===== src/Machine/Core.antt =====
-- Commands, and total correctness of a run.
use gpr.Base.{ℕ, List, [], ◌∷◌, ◌++◌, Bool, true, false, Option, none, some}

-- A `void *`, a function pointer's argument or a heap address. 0 is `NULL`.
abbrev pub Ptr : Type 0
Ptr = ℕ

abbrev pub null : Ptr
null = 0

pub record World (H : Type 0) : Type 0 where
  -- the bytes of `Err_Msg` before its `\0`
  pub msg : List ℕ
  -- the arguments of the calls of the client's callback, oldest first
  pub calls : List Ptr
  pub heap : H

-- `fault` is undefined behaviour, such as a read through `NULL` or out of bounds.
pub data Run (H A : Type 0) : Type 0 where
  done : A → World H → Run H A
  fault : Run H A
  out_of_fuel : Run H A

abbrev pub Cmd : Type 0 → Type 0 → Type 0
Cmd H A = World H → Run H A

module _ {H A B : Type 0} where
  abbrev pub and_then : Run H A → (A → Cmd H B) → Run H B
  and_then (done a w) k = k a w
  and_then fault k = fault
  and_then out_of_fuel k = out_of_fuel

  infixl 5 ◌>>=◌ ◌>>◌
  abbrev pub ◌>>=◌ : Cmd H A → (A → Cmd H B) → Cmd H B
  m >>= k = λ w. and_then (m w) k

  abbrev pub ◌>>◌ : Cmd H A → Cmd H B → Cmd H B
  m >> n = m >>= λ _. n

module _ {H : Type 0} where
  abbrev pub pure : {A : Type 0} → A → Cmd H A
  pure a w = done a w

  abbrev pub crash : {A : Type 0} → Cmd H A
  crash w = fault

  abbrev pub get_heap : Cmd H H
  get_heap w = done w.heap w

  abbrev pub put_heap : H → Cmd H (Unit {0})
  put_heap h w = done tt (record w { heap = h })

-- A step that may fault.
abbrev pub attempt : {H A : Type 0} → Option A → Cmd H A
attempt none = crash
attempt (some a) = pure a

-- A call of the client's callback on a pointer.
abbrev pub call_back : {H : Type 0} → Ptr → Cmd H (Unit {0})
call_back p w = done tt (record w { calls = w.calls ++ (p ∷ []) })

abbrev pub when : {H : Type 0} → Bool → Cmd H (Unit {0}) → Cmd H (Unit {0})
when true m = m
when false m = pure tt

-- Total correctness: no fault, enough fuel, and the postcondition.
abbrev pub Returns : {H A : Type 0} → (A → World H → Type 0) → Run H A → Type 0
Returns P (done a w) = P a w
Returns P fault = ⊥
Returns P out_of_fuel = ⊥

module _ {H A : Type 0} where
  pub Returns-bind :
      {B : Type 0} (P : A → World H → Type 0) (Q : B → World H → Type 0) (r : Run H A)
      (k : A → Cmd H B)
      → Returns P r
      → ((a : A) (w : World H) → P a w → Returns Q (k a w))
      → Returns Q (and_then r k)
  Returns-bind P Q (done a w) k p next = next a w p
  Returns-bind P Q fault k p next = absurd p
  Returns-bind P Q out_of_fuel k p next = absurd p

  pub Returns-mono :
      (P Q : A → World H → Type 0) (r : Run H A)
      → Returns P r
      → ((a : A) (w : World H) → P a w → Q a w)
      → Returns Q r
  Returns-mono P Q (done a w) p weaken = weaken a w p
  Returns-mono P Q fault p weaken = p
  Returns-mono P Q out_of_fuel p weaken = p

  -- What holds of the world that a run leaves, where it leaves one.
  abbrev pub After : Run H A → (World H → Type 0) → Type 0
  After (done a w) Q = Q w
  After fault Q = Unit
  After out_of_fuel Q = Unit

  pub Returns-After :
      (P : A → World H → Type 0) (Q : World H → Type 0) (r : Run H A)
      → Returns P r
      → After r Q
      → Returns (λ a w. P a w × Q w) r
  Returns-After P Q (done a w) p q = (p, q)
  Returns-After P Q fault p q = p
  Returns-After P Q out_of_fuel p q = p
