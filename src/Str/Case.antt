-- ===== src/Str/Case.antt =====
-- gpr_str_tolower and gpr_str_toupper with source and destination in one memory.
use mathlib.Core.Path.{subst}
use gpr.Base.{
  ℕ, zero, suc, ◌+◌, ◌%◌, ◌<◌, ◌≤◌, ◌≡◌, ◌≢◌, ◌⊎◌, inl, inr, refl, sym, ap, ◌∙◌, List, [], ◌∷◌,
  ◌++◌, Option, some, Bool, lt→ltb, min, get_elem?, set, length, take, arith, map, ne→not-==,
  and-false, length-append, length-set, set-length_append, append_assoc,
}
use gpr.Str.{Ctype, convert_loop, gpr_str_tolower, gpr_str_toupper, NoZero}

-- How many bytes are read of a text with its `\0`.
abbrev pub reads : List ℕ → ℕ → ℕ
reads text num = min num (suc (length text))

-- These bytes stand in the memory at `p`.
abbrev pub Stands : List ℕ → ℕ → List ℕ → ℕ → Type 0
Stands text num mem p =
    (j : ℕ) → j < reads text num → get_elem? mem (p + j) ≡ get_elem? (text ++ (0 ∷ [])) j

-- The destination does not begin behind the source within the bytes that are read.
abbrev pub Apart : ℕ → ℕ → ℕ → Type 0
Apart dst src len = (dst ≤ src) ⊎ (src + len ≤ dst)

get_elem?-set_other : (m : List ℕ) (p q v : ℕ) → p ≢ q → get_elem? (set m q v) p ≡ get_elem? m p
get_elem?-set_other [] p q v ne = refl
get_elem?-set_other (x ∷ m) zero zero v ne = absurd (ne refl)
get_elem?-set_other (x ∷ m) zero (suc q) v ne = refl
get_elem?-set_other (x ∷ m) (suc p) zero v ne = refl
get_elem?-set_other (x ∷ m) (suc p) (suc q) v ne = get_elem?-set_other m p q v (λ e. ne (ap suc e))

-- The bytes written one after the other.
abbrev fill : List ℕ → ℕ → List ℕ → List ℕ
fill m p [] = m
fill m p (v ∷ vs) = fill (set m p v) (suc p) vs

fill-eq :
    (pre old post vs : List ℕ)
    → length old ≡ length vs
    → fill (pre ++ (old ++ post)) (length pre) vs ≡ pre ++ (vs ++ post)
fill-eq pre [] post [] e = refl
fill-eq pre [] post (v ∷ vs) e = absurd (omega (arith, e))
fill-eq pre (o ∷ old) post [] e = absurd (omega (arith, e))
fill-eq pre (o ∷ old) post (v ∷ vs) e = rw (set-length_append pre (old ++ post) o v) (
    subst (λ m. fill m (suc (length pre)) vs ≡ pre ++ (v ∷ (vs ++ post))) (moved (old ++ post))
      (subst (λ n. fill ((pre ++ (v ∷ [])) ++ (old ++ post)) n vs ≡ pre ++ (v ∷ (vs ++ post)))
        longer (fill-eq (pre ++ (v ∷ [])) old post vs (omega (arith, e)) ∙ moved (vs ++ post))))
  where
    moved : (us : List ℕ) → (pre ++ (v ∷ [])) ++ us ≡ pre ++ (v ∷ us)
    moved us = append_assoc pre (v ∷ []) us

    longer : length (pre ++ (v ∷ [])) ≡ suc (length pre)
    longer = omega (arith, length-append pre (v ∷ []))

-- The bytes that a conversion writes of a text.
abbrev pub converted : (ℕ → ℕ) → List ℕ → List ℕ
converted convert text = map (λ c. convert c % 256) text

length-converted : (convert : ℕ → ℕ) (text : List ℕ) → length (converted convert text) ≡ length text
length-converted convert [] = refl
length-converted convert (c ∷ text) = ap suc (length-converted convert text)

first_read : (mem : List ℕ) (p : ℕ) {o : Option ℕ} → get_elem? mem (p + 0) ≡ o → get_elem? mem p ≡ o
first_read mem p {o} e = subst (λ q. get_elem? mem q ≡ o) (omega arith) e

next : (d i : ℕ) → d + suc i ≡ suc (d + i)
next d i = omega arith

-- After the first byte is written, the rest of the text still stands in the memory.
Stands-behind :
    (mem : List ℕ) (s s' d c w : ℕ) (text : List ℕ) (num : ℕ)
    → Stands (c ∷ text) (suc num) mem s
    → Apart d s (reads (c ∷ text) (suc num))
    → s' ≡ suc s
    → Stands text num (set mem d w) s'
Stands-behind mem s s' d c w text num stands apart e j lt =
    get_elem?-set_other mem (s' + j) d w (off apart)
    ∙ subst (λ q. get_elem? mem q ≡ get_elem? (text ++ (0 ∷ [])) j) (omega (arith, e))
        (stands (suc j) (omega (arith, lt)))
  where
    off : Apart d s (reads (c ∷ text) (suc num)) → s' + j ≢ d
    off (inl le) same = omega (arith, le, e, same)
    off (inr le) same = omega (arith, le, e, same, lt)

Apart-behind :
    (s d s' d' c : ℕ) (text : List ℕ) (num : ℕ)
    → Apart d s (reads (c ∷ text) (suc num))
    → s' ≡ suc s
    → d' ≡ suc d
    → Apart d' s' (reads text num)
Apart-behind s d s' d' c text num (inl le) e f = inl (omega (arith, le, e, f))
Apart-behind s d s' d' c text num (inr le) e f = inr (omega (arith, le, e, f))

convert_loop-eq :
    (convert : ℕ → ℕ) (num : ℕ) (text mem : List ℕ) (d s i : ℕ)
    → NoZero text
    → Stands text num mem (s + i)
    → Apart (d + i) (s + i) (reads text num)
    → (d + i) + length (take num text) ≤ length mem
    → convert_loop convert mem (some d) (some s) i num
      ≡ some (fill mem (d + i) (converted convert (take num text)), length (take num text))
unfolding convert_loop
convert_loop-eq convert zero text mem d s i v stands apart room = refl
convert_loop-eq convert (suc num) [] mem d s i v stands apart room =
    rw (first_read mem (s + i) (stands 0 (omega arith))) refl
convert_loop-eq convert (suc num) (c ∷ text) mem d s i v stands apart room =
    rw
      (
        first_read mem (s + i) (stands 0 (omega arith)),
        ne→not-== c 0 v.0,
        lt→ltb (d + i) (length mem) (omega (arith, room)),
      )
      (rw
        (convert_loop-eq convert num text (set mem (d + i) (convert c % 256)) d s (suc i) v.1
          (Stands-behind mem (s + i) (s + suc i) (d + i) c (convert c % 256) text num stands apart
            (omega arith))
          (Apart-behind (s + i) (d + i) (s + suc i) (d + suc i) c text num apart (omega arith)
            (omega arith))
          (omega (arith, room, length-set mem (d + i) (convert c % 256))))
        (rw (next d i) refl))

-- gpr_str_tolower and gpr_str_toupper put the conversions by `tolower` and by `toupper` of the first
-- `num` bytes of the text, or of all of them if there are fewer, at `dst`, change no other byte, and
-- return how many they put there, in either build. The text that is read stands at `src`; `old` are
-- the bytes at `dst` that are written over. The two may overlap, as in place, but `dst` does not begin
-- behind `src` within the bytes that are read.
pub case-over :
    (lib : Ctype) (debug : Bool) (pre old post text : List ℕ) (src num : ℕ)
    → NoZero text
    → Stands text num (pre ++ (old ++ post)) src
    → Apart (length pre) src (reads text num)
    → length old ≡ length (take num text)
    → (gpr_str_tolower lib debug (pre ++ (old ++ post)) (some (length pre)) (some src) num
        ≡ some (pre ++ (converted lib.tolower (take num text) ++ post), length (take num text)))
      × (gpr_str_toupper lib debug (pre ++ (old ++ post)) (some (length pre)) (some src) num
          ≡ some (pre ++ (converted lib.toupper (take num text) ++ post), length (take num text)))
unfolding gpr_str_tolower gpr_str_toupper
case-over lib debug pre old post text src num v stands apart room =
    (rw (and-false debug) (whole lib.tolower), rw (and-false debug) (whole lib.toupper))
  where
    from_start :
        Apart (length pre) src (reads text num) → Apart (length pre + 0) (src + 0) (reads text num)
    from_start (inl le) = inl (omega (arith, le))
    from_start (inr le) = inr (omega (arith, le))

    whole :
        (convert : ℕ → ℕ)
        → convert_loop convert (pre ++ (old ++ post)) (some (length pre)) (some src) 0 num
          ≡ some (pre ++ (converted convert (take num text) ++ post), length (take num text))
    whole convert =
        convert_loop-eq convert num text (pre ++ (old ++ post)) (length pre) src 0 v
          (λ j lt.
            subst (λ q. get_elem? (pre ++ (old ++ post)) q ≡ get_elem? (text ++ (0 ∷ [])) j)
              (omega arith) (stands j lt))
          (from_start apart)
          (omega (arith, room, length-append pre (old ++ post), length-append old post))
        ∙ ap (λ m. some (m, length (take num text)))
            (subst
              (λ n.
                fill (pre ++ (old ++ post)) n (converted convert (take num text))
                ≡ pre ++ (converted convert (take num text) ++ post))
              (omega arith)
              (fill-eq pre old post (converted convert (take num text))
                (room ∙ sym (length-converted convert (take num text)))))
