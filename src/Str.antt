-- ===== src/Str.antt =====
-- gpr_str_tolower and gpr_str_toupper of src/gpr_str.c: case conversion of at most `num` bytes. The
-- memory is one list of bytes, and `dst` and `src` are places in it, so the two may overlap or be the
-- same; `none` is `NULL`. A read or a write outside of the memory is undefined, `none`.
mod Case
mod Tests
pub mod Trim
use gpr.Base.{
  ℕ, zero, suc, ◌+◌, ◌%◌, ◌≢◌, List, [], ◌∷◌, Option, none, some, Bool, true, false, ◌&&◌, ◌||◌,
  if◌then◌else◌, ◌==◌, ltb, get_elem?, set, length,
}

-- A result, or `none` where the code leaves the memory.
abbrev pub after : {A B : Type 0} → Option A → (A → Option B) → Option B
after none k = none
after (some a) k = k a

-- The conversions of the C library, to an `int`; the `char` that is converted, of whatever sign, is
-- given by its byte.
pub record Ctype : Type 0 where
  pub tolower : ℕ → ℕ
  pub toupper : ℕ → ℕ

-- `p[i]`
abbrev pub load : List ℕ → Option ℕ → ℕ → Option ℕ
load mem none i = none
load mem (some p) i = get_elem? mem (p + i)

-- `p[i] = c`, where an `int` is cut to a byte
abbrev pub store : List ℕ → Option ℕ → ℕ → ℕ → Option (List ℕ)
store mem none i c = none
store mem (some p) i c = if ltb (p + i) (length mem) then some (set mem (p + i) (c % 256)) else none

abbrev pub is_null : Option ℕ → Bool
is_null none = true
is_null (some p) = false

-- The loop of both functions at index `i`, with `num` rounds left: the memory, and how many bytes
-- these rounds write.
unfoldable pub convert_loop : (ℕ → ℕ) → List ℕ → Option ℕ → Option ℕ → ℕ → ℕ → Option (List ℕ × ℕ)
convert_loop convert mem dst src i zero = some (mem, 0)
convert_loop convert mem dst src i (suc num) =
    let round : List ℕ → Option (List ℕ × ℕ) = λ mem'.
      after (convert_loop convert mem' dst src (suc i) num)
        (λ (last, count). some (last, suc count)) in
    after (load mem src i)
      (λ c. if c == 0 then some (mem, 0) else after (store mem dst i (convert c)) round)

unfoldable pub gpr_str_tolower :
    Ctype → Bool → List ℕ → Option ℕ → Option ℕ → ℕ → Option (List ℕ × ℕ)
gpr_str_tolower lib debug mem dst src num =
    if debug && (is_null dst || is_null src)
    then some (mem, 0)
    else convert_loop lib.tolower mem dst src 0 num

unfoldable pub gpr_str_toupper :
    Ctype → Bool → List ℕ → Option ℕ → Option ℕ → ℕ → Option (List ℕ × ℕ)
gpr_str_toupper lib debug mem dst src num =
    if debug && (is_null dst || is_null src)
    then some (mem, 0)
    else convert_loop lib.toupper mem dst src 0 num

-- No byte of the text ends it.
abbrev pub NoZero : List ℕ → Type 0
NoZero [] = Unit
NoZero (c ∷ cs) = (c ≢ 0) × NoZero cs
