-- ===== src/Bin.antt =====
-- src/gpr_bin.c: hexadecimal digits of bytes.
-- A byte is a number below 256. The code shifts a `char`, which may be negative, by 4 and keeps 4 bits:
-- these are the high digit of the byte for either sign.
mod Tests
use gpr.Base.{
  ℕ, zero, suc, ◌+◌, ◌*◌, ◌-◌, ◌/◌, ◌%◌, ◌<◌, ◌≤◌, ◌≡◌, refl, sym, ap, ◌∙◌, List, [], ◌∷◌, ◌++◌,
  Option, none, some, Bool, if◌then◌else◌, ltb, get_elem?, length, take, drop, arith, eq→==,
}
use gpr.Err.{codes}

abbrev pub hex_array : List ℕ
hex_array = 48 ∷ 49 ∷ 50 ∷ 51 ∷ 52 ∷ 53 ∷ 54 ∷ 55 ∷ 56 ∷ 57 ∷ 65 ∷ 66 ∷ 67 ∷ 68 ∷ 69 ∷ 70 ∷ []

infixl 5 ◌>>=◌
abbrev ◌>>=◌ : {A B : Type 0} → Option A → (A → Option B) → Option B
none >>= k = none
some a >>= k = k a

-- From `dst`, `src` and the size: the bytes of `dst` after the loop. Past the end of a buffer is
-- undefined.
unfoldable pub gpr_bin_hexlify : List ℕ → List ℕ → ℕ → Option (List ℕ)
gpr_bin_hexlify dst src zero = some dst
gpr_bin_hexlify (_ ∷ (_ ∷ dst)) (b ∷ src) (suc size) = do
  high ← get_elem? hex_array ((b / 16) % 16)
  low ← get_elem? hex_array (b % 16)
  rest ← gpr_bin_hexlify dst src size
  some (high ∷ (low ∷ rest))
gpr_bin_hexlify dst src (suc size) = none

-- The reader of the digits: upper case, two digits a byte.
abbrev pub value : ℕ → ℕ
value c = if ltb c 58 then c - 48 else c - 55

abbrev pub unhexlify : List ℕ → List ℕ
unhexlify (c ∷ (d ∷ cs)) = (value c * 16 + value d) ∷ unhexlify cs
unhexlify cs = []

abbrev pub AllBytes : List ℕ → Type 0
AllBytes [] = Unit
AllBytes (b ∷ bs) = (b < 256) × AllBytes bs

-- The values of the digits count up.
abbrev Counts : ℕ → List ℕ → Type 0
Counts k [] = Unit
Counts k (c ∷ cs) = (value c ≡ k) × Counts (k + 1) cs

hex_array-Counts : Counts 0 hex_array
hex_array-Counts = (
  refl,
  (
    refl,
    (
      refl,
      (
        refl,
        (
          refl,
          (
            refl,
            (refl, (refl, (refl, (refl, (refl, (refl, (refl, (refl, (refl, (refl, tt)))))))))),
          ),
        ),
      ),
    ),
  ),
)

counted :
    (k n : ℕ) (cs : List ℕ)
    → Counts k cs
    → n < length cs
    → (c : ℕ) × (get_elem? cs n ≡ some c) × (value c ≡ k + n)
counted k n [] v h = absurd (omega arith)
counted k zero (c ∷ cs) v h = (c, refl, v.0 ∙ omega arith)
counted k (suc n) (c ∷ cs) v h =
    let (d, e, f) = counted (k + 1) n cs v.1 (omega arith) in (d, e, f ∙ omega arith)

digit : (n : ℕ) → n < 16 → (c : ℕ) × (get_elem? hex_array n ≡ some c) × (value c ≡ n)
digit n h = let (c, e, f) = counted 0 n hex_array hex_array-Counts h in (c, e, f ∙ omega arith)

-- gpr_bin_hexlify writes two digits for each of the first `size` bytes of `src`, from which a reader
-- of digits gets these bytes back, and leaves the rest of `dst` as it was. `src` has `size` bytes and
-- `dst` has room for the digits.
pub hexlify-unhexlify :
    (dst src : List ℕ) (size : ℕ)
    → AllBytes src
    → size ≤ length src
    → 2 * size ≤ length dst
    → (ds : List ℕ) × (gpr_bin_hexlify dst src size ≡ some (ds ++ drop (2 * size) dst))
      × (length ds ≡ 2 * size)
      × (unhexlify ds ≡ take size src)
unfolding gpr_bin_hexlify
hexlify-unhexlify dst src zero v h room = ([], refl, refl, refl)
hexlify-unhexlify dst [] (suc size) v h room = absurd (omega arith)
hexlify-unhexlify [] (b ∷ src) (suc size) v h room = absurd (omega arith)
hexlify-unhexlify (_ ∷ []) (b ∷ src) (suc size) v h room = absurd (omega arith)
hexlify-unhexlify (x ∷ (y ∷ dst)) (b ∷ src) (suc size) v h room =
    let (high, eh, vh) = digit ((b / 16) % 16) (omega arith) in
    let (low, el, vl) = digit (b % 16) (omega arith) in
    let (ds, e, l, u) = hexlify-unhexlify dst src size v.1 (omega arith) (omega arith) in
    let two : 2 * suc size ≡ suc (suc (2 * size)) = omega arith in
    let whole : value high * 16 + value low ≡ b = omega (arith, vh, vl, v.0) in
    (high ∷ (low ∷ ds), rw (two, eh, el) (rw e refl), omega (arith, l), rw (whole, u) refl)
