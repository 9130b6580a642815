-- ===== src/Str/Trim.antt =====
-- gpr_str_ltrim, gpr_str_rtrim and gpr_str_trim of src/gpr_str.c. The memory is the bytes of the
-- buffer that `str` points into, at an index. `isspace` of the C library is an argument.
use mathlib.Core.Path.{subst}
use gpr.Base.{
  ℕ, suc, ◌+◌, ◌≡◌, refl, sym, ap, ◌∙◌, List, [], ◌∷◌, ◌++◌, Option, none, some, Bool, true, false,
  if◌then◌else◌, ◌==◌, get_elem?, length, take, drop, ne→not-==, append_assoc, take-length_append,
  get_elem?-length_append, drop-length_append, drop-append_past, take-append_past, rev_onto,
}
use gpr.Str.{NoZero, after}

-- The loop of gpr_str_ltrim, on the bytes from `str` on: how far it steps.
unfoldable pub skip_spaces : (ℕ → Bool) → List ℕ → Option ℕ
skip_spaces isspace [] = none
skip_spaces isspace (c ∷ cs) =
    let rest = skip_spaces isspace cs in
    if isspace c then after rest (λ n. some (suc n)) else some 0

unfoldable pub gpr_str_ltrim : (ℕ → Bool) → Bool → List ℕ → Option ℕ → Option (Option ℕ)
gpr_str_ltrim isspace debug mem none = if debug then some none else none
gpr_str_ltrim isspace debug mem (some str) = after (get_elem? mem str) (λ c.
    if c == 0
    then some (some str)
    else after (skip_spaces isspace (drop str mem)) (λ n. some (some (str + n))))

-- `strlen`
unfoldable pub strlen : List ℕ → Option ℕ
strlen [] = none
strlen (c ∷ cs) = let rest = strlen cs in if c == 0 then some 0 else after rest (λ n. some (suc n))

-- `*p = '\0'`
abbrev pub end_here : List ℕ → List ℕ
end_here [] = []
end_here (c ∷ cs) = 0 ∷ cs

-- The loop of gpr_str_rtrim and the write after it: the bytes in front of `end`, the nearest first,
-- and the bytes from `end` on.
unfoldable pub trim_end : (ℕ → Bool) → List ℕ → List ℕ → Option (List ℕ)
trim_end isspace [] fwd = none
trim_end isspace (c ∷ back) fwd =
    let rest = trim_end isspace back (c ∷ fwd) in
    if isspace c then rest else some (rev_onto (c ∷ back) (end_here fwd))

-- gpr_str_rtrim behind its tests.
unfoldable pub rtrim_text : (ℕ → Bool) → List ℕ → ℕ → Option (List ℕ × Option ℕ)
rtrim_text isspace mem str = after (strlen (drop str mem)) (λ n.
    after {B = List ℕ × Option ℕ}
      (trim_end isspace (rev_onto (take (str + n) mem) []) (drop (str + n) mem))
      (λ mem'. some (mem', some str)))

unfoldable pub gpr_str_rtrim : (ℕ → Bool) → Bool → List ℕ → Option ℕ → Option (List ℕ × Option ℕ)
gpr_str_rtrim isspace debug mem none = if debug then some (mem, none) else none
gpr_str_rtrim isspace debug mem (some str) =
    after (get_elem? mem str)
      (λ c. if c == 0 then some (mem, some str) else rtrim_text isspace mem str)

unfoldable pub gpr_str_trim : (ℕ → Bool) → Bool → List ℕ → Option ℕ → Option (List ℕ × Option ℕ)
gpr_str_trim isspace debug mem none = if debug then some (mem, none) else none
gpr_str_trim isspace debug mem (some str) =
    after (gpr_str_rtrim isspace debug mem (some str))
      (λ (mem', p). after (gpr_str_ltrim isspace debug mem' p) (λ q. some (mem', q)))

-- Every byte is white space.
abbrev pub Spaces : (ℕ → Bool) → List ℕ → Type 0
Spaces isspace [] = Unit
Spaces isspace (c ∷ cs) = (isspace c ≡ true) × Spaces isspace cs

strlen-eq : (text junk : List ℕ) → NoZero text → strlen (text ++ (0 ∷ junk)) ≡ some (length text)
unfolding strlen
strlen-eq [] junk v = refl
strlen-eq (c ∷ text) junk v = rw (ne→not-== c 0 v.0, strlen-eq text junk v.1) refl

module _ (isspace : ℕ → Bool) where
  skip_spaces-eq :
      (ws : List ℕ) (c : ℕ) (cs : List ℕ)
      → Spaces isspace ws
      → isspace c ≡ false
      → skip_spaces isspace (ws ++ (c ∷ cs)) ≡ some (length ws)
  unfolding skip_spaces
  skip_spaces-eq [] c cs s n = rw n refl
  skip_spaces-eq (x ∷ ws) c cs s n = rw (s.0, skip_spaces-eq ws c cs s.1 n) refl

  rev_onto-append : (xs ys acc : List ℕ) → rev_onto (xs ++ ys) acc ≡ rev_onto ys (rev_onto xs acc)
  rev_onto-append [] ys acc = refl
  rev_onto-append (x ∷ xs) ys acc = rev_onto-append xs ys (x ∷ acc)

  rev_onto-rev_onto :
      (xs acc fwd : List ℕ) → rev_onto (rev_onto xs acc) fwd ≡ rev_onto acc (xs ++ fwd)
  rev_onto-rev_onto [] acc fwd = refl
  rev_onto-rev_onto (x ∷ xs) acc fwd = rev_onto-rev_onto xs (x ∷ acc) fwd

  rev_onto-acc : (xs acc : List ℕ) → rev_onto xs acc ≡ rev_onto xs [] ++ acc
  rev_onto-acc [] acc = refl
  rev_onto-acc (x ∷ xs) acc =
      rw
        (
          rev_onto-acc xs (x ∷ acc),
          rev_onto-acc xs (x ∷ []),
          append_assoc (rev_onto xs []) (x ∷ []) acc,
        )
        refl

  Spaces-rev_onto :
      (xs acc : List ℕ) → Spaces isspace xs → Spaces isspace acc → Spaces isspace (rev_onto xs acc)
  Spaces-rev_onto [] acc s t = t
  Spaces-rev_onto (x ∷ xs) acc s t = Spaces-rev_onto xs (x ∷ acc) s.1 (s.0, t)

  -- Over white space, then a byte that is none.
  trim_end-eq :
      (rs : List ℕ) (e : ℕ) (back fwd : List ℕ)
      → Spaces isspace rs
      → isspace e ≡ false
      → trim_end isspace (rs ++ (e ∷ back)) fwd
        ≡ some (rev_onto (e ∷ back) (end_here (rev_onto rs fwd)))
  unfolding trim_end
  trim_end-eq [] e back fwd s n = rw n refl
  trim_end-eq (x ∷ rs) e back fwd s n = rw (s.0, trim_end-eq rs e back (x ∷ fwd) s.1 n) refl

  -- A pointer to a byte that does not end the text.
  at_byte :
      (pre : List ℕ) (c : ℕ) (rest : List ℕ) → get_elem? (pre ++ (c ∷ rest)) (length pre) ≡ some c
  at_byte pre c rest = get_elem?-length_append pre rest c

  ltrim-eq :
      (debug : Bool) (pre ws : List ℕ) (c : ℕ) (rest : List ℕ)
      → NoZero (ws ++ (c ∷ []))
      → Spaces isspace ws
      → isspace c ≡ false
      → gpr_str_ltrim isspace debug (pre ++ (ws ++ (c ∷ rest))) (some (length pre))
        ≡ some (some (length pre + length ws))
  unfolding gpr_str_ltrim
  ltrim-eq debug pre [] c rest v s n =
      rw
        (
          at_byte pre c rest,
          ne→not-== c 0 v.0,
          drop-length_append pre (c ∷ rest),
          skip_spaces-eq [] c rest s n,
        )
        refl
  ltrim-eq debug pre (w ∷ ws) c rest v s n =
      rw
        (
          at_byte pre w (ws ++ (c ∷ rest)),
          ne→not-== w 0 v.0,
          drop-length_append pre (w ∷ (ws ++ (c ∷ rest))),
          skip_spaces-eq (w ∷ ws) c rest s n,
        )
        refl

  back-eq :
      (pre ds : List ℕ) (e : ℕ) (ws junk : List ℕ)
      → Spaces isspace ws
      → isspace e ≡ false
      → trim_end isspace (rev_onto (pre ++ (ds ++ (e ∷ ws))) []) (0 ∷ junk)
        ≡ some (pre ++ (ds ++ (e ∷ end_here (ws ++ (0 ∷ junk)))))
  back-eq pre ds e ws junk s n =
      rw
        (
          rev_onto-append pre (ds ++ (e ∷ ws)) [],
          rev_onto-append ds (e ∷ ws) (rev_onto pre []),
          rev_onto-acc ws (e ∷ rev_onto ds (rev_onto pre [])),
          trim_end-eq (rev_onto ws []) e (rev_onto ds (rev_onto pre [])) (0 ∷ junk)
              (Spaces-rev_onto ws [] s tt) n,
          rev_onto-rev_onto ws [] (0 ∷ junk),
          rev_onto-rev_onto ds (rev_onto pre []) (e ∷ end_here (ws ++ (0 ∷ junk))),
          rev_onto-rev_onto pre [] (ds ++ (e ∷ end_here (ws ++ (0 ∷ junk)))),
        )
        refl

  rtrim_from :
      (pre ds : List ℕ) (e : ℕ) (ws junk : List ℕ)
      → NoZero (ds ++ (e ∷ ws))
      → Spaces isspace ws
      → isspace e ≡ false
      → rtrim_text isspace (pre ++ ((ds ++ (e ∷ ws)) ++ (0 ∷ junk))) (length pre)
        ≡ some (pre ++ (ds ++ (e ∷ end_here (ws ++ (0 ∷ junk)))), some (length pre))
  unfolding rtrim_text
  rtrim_from pre ds e ws junk v s n =
      let text = ds ++ (e ∷ ws) in
      rw (drop-length_append pre (text ++ (0 ∷ junk)), strlen-eq text junk v)
        (rw
          (
            take-append_past pre (text ++ (0 ∷ junk)) (length text),
            take-length_append text (0 ∷ junk),
            drop-append_past pre (text ++ (0 ∷ junk)) (length text),
            drop-length_append text (0 ∷ junk),
            back-eq pre ds e ws junk s n,
          )
          refl)

  rtrim-eq :
      (debug : Bool) (pre ds : List ℕ) (e : ℕ) (ws junk : List ℕ)
      → NoZero (ds ++ (e ∷ ws))
      → Spaces isspace ws
      → isspace e ≡ false
      → gpr_str_rtrim isspace debug (pre ++ ((ds ++ (e ∷ ws)) ++ (0 ∷ junk))) (some (length pre))
        ≡ some (pre ++ (ds ++ (e ∷ end_here (ws ++ (0 ∷ junk)))), some (length pre))
  unfolding gpr_str_rtrim
  rtrim-eq debug pre [] e ws junk v s n =
      rw (at_byte pre e (ws ++ (0 ∷ junk)), ne→not-== e 0 v.0) (rtrim_from pre [] e ws junk v s n)
  rtrim-eq debug pre (d ∷ ds) e ws junk v s n =
      rw (at_byte pre d ((ds ++ (e ∷ ws)) ++ (0 ∷ junk)), ne→not-== d 0 v.0)
        (rtrim_from pre (d ∷ ds) e ws junk v s n)

-- The last byte of a text.
abbrev pub last_byte : ℕ → List ℕ → ℕ
last_byte c [] = c
last_byte c (d ∷ cs) = last_byte d cs

last_split : (c : ℕ) (cs : List ℕ) → (ys : List ℕ) × (c ∷ cs ≡ ys ++ (last_byte c cs ∷ []))
last_split c [] = ([], refl)
last_split c (d ∷ cs) = let (ys, e) = last_split d cs in (c ∷ ys, ap (λ us. c ∷ us) e)

NoZero-front :
    (xs : List ℕ) (c : ℕ) (zs : List ℕ) → NoZero (xs ++ (c ∷ zs)) → NoZero (xs ++ (c ∷ []))
NoZero-front [] c zs v = (v.0, tt)
NoZero-front (x ∷ xs) c zs v = (v.0, NoZero-front xs c zs v.1)

-- gpr_str_trim of a text with white space in front of it and behind it: the pointer is to the text,
-- `\0` stands right behind it, and no other byte changes. The text is not empty, and its first and
-- last bytes are no white space.
pub str_trim-text :
    (isspace : ℕ → Bool) (debug : Bool) (pre ws : List ℕ) (c : ℕ) (cs ws' junk : List ℕ)
    → NoZero (ws ++ ((c ∷ cs) ++ ws'))
    → Spaces isspace ws
    → Spaces isspace ws'
    → isspace c ≡ false
    → isspace (last_byte c cs) ≡ false
    → gpr_str_trim isspace debug
        (pre ++ ((ws ++ ((c ∷ cs) ++ ws')) ++ (0 ∷ junk)))
        (some (length pre))
      ≡ some
          (pre ++ (ws ++ ((c ∷ cs) ++ end_here (ws' ++ (0 ∷ junk)))), some (length pre + length ws))
unfolding gpr_str_trim
str_trim-text isspace debug pre ws c cs ws' junk v s s' n n' =
    let (ys, e) = last_split c cs in
    rw (rtrim_done ys e) (
      rw
        (ltrim-eq isspace debug pre ws c (cs ++ end_here (ws' ++ (0 ∷ junk)))
          (NoZero-front ws c (cs ++ ws') v) s n)
        refl)
  where
    shape :
        (ys tail : List ℕ)
        → c ∷ cs ≡ ys ++ (last_byte c cs ∷ [])
        → ws ++ ((c ∷ cs) ++ tail) ≡ (ws ++ ys) ++ (last_byte c cs ∷ tail)
    shape ys tail e =
        ap (λ us. ws ++ (us ++ tail)) e
        ∙ ap (λ us. ws ++ us) (append_assoc ys (last_byte c cs ∷ []) tail)
        ∙ sym (append_assoc ws ys (last_byte c cs ∷ tail))

    rtrim_done :
        (ys : List ℕ)
        → c ∷ cs ≡ ys ++ (last_byte c cs ∷ [])
        → gpr_str_rtrim isspace debug
            (pre ++ ((ws ++ ((c ∷ cs) ++ ws')) ++ (0 ∷ junk)))
            (some (length pre))
          ≡ some (pre ++ (ws ++ ((c ∷ cs) ++ end_here (ws' ++ (0 ∷ junk)))), some (length pre))
    rtrim_done ys e =
        rw (shape ys ws' e, shape ys (end_here (ws' ++ (0 ∷ junk))) e)
          (rtrim-eq isspace debug pre (ws ++ ys) (last_byte c cs) ws' junk
            (subst NoZero (shape ys ws' e) v) s' n')
