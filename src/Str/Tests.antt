-- ===== src/Str/Tests.antt =====
-- The case conversion and the trimming of concrete texts, with the conversions of ASCII letters.
use gpr.Base.{
  zero, suc, ◌-◌, inl, ℕ, Bool, ◌+◌, ◌≡◌, [], ◌∷◌, some, true, leb, ◌&&◌, if◌then◌else◌, arith,
  ◌==◌, refl,
}
use gpr.Str.Trim.{gpr_str_trim, str_trim-text}
use gpr.Str.Case.{Stands, case-over}
use gpr.Str.{Ctype, convert_loop, gpr_str_tolower, gpr_str_toupper}

abbrev ascii_lower : ℕ → ℕ
ascii_lower c = if leb 65 c && leb c 90 then c + 32 else c

abbrev ascii_upper : ℕ → ℕ
ascii_upper c = if leb 97 c && leb c 122 then c - 32 else c

abbrev ascii : Ctype
ascii = record { tolower = ascii_lower; toupper = ascii_upper }

-- "Gpr", of which two bytes are converted in place.
gpr-Stands : Stands (71 ∷ 112 ∷ 114 ∷ []) 2 (9 ∷ 71 ∷ 112 ∷ 114 ∷ 0 ∷ []) 1
gpr-Stands zero lt = refl
gpr-Stands (suc zero) lt = refl
gpr-Stands (suc (suc j)) lt = absurd (omega arith)

case-over_example :
    (gpr_str_tolower ascii true (9 ∷ 71 ∷ 112 ∷ 114 ∷ 0 ∷ []) (some 1) (some 1) 2
      ≡ some (9 ∷ 103 ∷ 112 ∷ 114 ∷ 0 ∷ [], 2))
    × (gpr_str_toupper ascii true (9 ∷ 71 ∷ 112 ∷ 114 ∷ 0 ∷ []) (some 1) (some 1) 2
        ≡ some (9 ∷ 71 ∷ 80 ∷ 114 ∷ 0 ∷ [], 2))
case-over_example =
    case-over ascii true (9 ∷ []) (71 ∷ 112 ∷ []) (114 ∷ 0 ∷ []) (71 ∷ 112 ∷ 114 ∷ []) 1 2
      (omega arith, (omega arith, (omega arith, tt))) gpr-Stands (inl (omega arith)) refl

-- Where the destination begins one byte behind the source, the first byte is copied all along.
tolower_behind :
    gpr_str_tolower ascii true (65 ∷ 66 ∷ 67 ∷ 0 ∷ []) (some 1) (some 0) 3
    ≡ some (65 ∷ 97 ∷ 97 ∷ 97 ∷ [], 3)
unfolding gpr_str_tolower convert_loop
tolower_behind = refl

abbrev ascii_space : ℕ → Bool
ascii_space c = c == 32

str_trim-text_example :
    gpr_str_trim ascii_space true (1 ∷ 32 ∷ 32 ∷ 65 ∷ 66 ∷ 32 ∷ 32 ∷ 0 ∷ 9 ∷ []) (some 1)
    ≡ some (1 ∷ 32 ∷ 32 ∷ 65 ∷ 66 ∷ 0 ∷ 32 ∷ 0 ∷ 9 ∷ [], some 3)
str_trim-text_example =
    str_trim-text ascii_space true (1 ∷ []) (32 ∷ 32 ∷ []) 65 (66 ∷ []) (32 ∷ 32 ∷ []) (9 ∷ [])
      (omega arith, (omega arith, (omega arith, (omega arith, (omega arith, (omega arith, tt))))))
      (refl, (refl, tt)) (refl, (refl, tt)) refl refl
