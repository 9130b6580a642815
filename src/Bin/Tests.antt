-- ===== src/Bin/Tests.antt =====
-- The digits of concrete bytes.
use gpr.Base.{ℕ, ◌≡◌, refl, List, [], ◌∷◌, ◌++◌, some, length, arith}
use gpr.Err.{codes}
use gpr.Bin.{hex_array, gpr_bin_hexlify, unhexlify, hexlify-unhexlify}

hex_array_text : codes "0123456789ABCDEF" ≡ hex_array
unfolding codes
hex_array_text = refl

two_bytes :
    gpr_bin_hexlify (0 ∷ 0 ∷ 0 ∷ 0 ∷ 0 ∷ []) (171 ∷ 9 ∷ []) 2 ≡ some (65 ∷ 66 ∷ 48 ∷ 57 ∷ 0 ∷ [])
unfolding gpr_bin_hexlify
two_bytes = refl

hexlify-unhexlify_example :
    (ds : List ℕ) × (gpr_bin_hexlify (0 ∷ 0 ∷ 0 ∷ 0 ∷ 1 ∷ []) (171 ∷ 9 ∷ 7 ∷ []) 2
      ≡ some (ds ++ (1 ∷ [])))
    × (length ds ≡ 4)
    × (unhexlify ds ≡ 171 ∷ 9 ∷ [])
hexlify-unhexlify_example =
    hexlify-unhexlify (0 ∷ 0 ∷ 0 ∷ 0 ∷ 1 ∷ []) (171 ∷ 9 ∷ 7 ∷ []) 2
      (omega arith, (omega arith, (omega arith, tt))) (omega arith) (omega arith)
