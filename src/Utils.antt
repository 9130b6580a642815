-- ===== src/Utils.antt =====
-- include/gpr_utils.h and src/gpr_utils.c: formatting with the length that was really written.
-- `vsnprintf` is the C library's: what it prints in unlimited room, or its failure, is an argument.
pub mod Laws
use gpr.Base.{
  ℕ, ◌-◌, List, length, take, ◌==◌, if◌then◌else◌, ℤ, pos, negsuc, ◌<ℤ◌, to_int, to_ssize,
}

-- The expansion of a format with its arguments: the whole text, or an encoding error that returns
-- -(n + 1) and leaves some bytes in the buffer.
pub data Expansion : Type 0 where
  text : List ℕ → Expansion
  error : ℕ → List ℕ → Expansion

-- `vsnprintf` into a buffer of `size` bytes that holds `old`: the result, and the bytes that the
-- buffer holds before its `\0`.
abbrev pub vsnprintf : List ℕ → ℕ → Expansion → ℤ × List ℕ
vsnprintf old size (text t) = (pos (length t), if size == 0 then old else take (size - 1) t)
vsnprintf old size (error n left) = (negsuc n, if size == 0 then old else take (size - 1) left)

unfoldable pub gpr_utils_vscnprintf : List ℕ → ℕ → Expansion → ℤ × List ℕ
gpr_utils_vscnprintf old size e =
    let (i, buf) = vsnprintf old size e in
    if i <ℤ to_ssize size
    then (i, buf)
    else if size == 0
    then (pos 0, buf)
    else (to_int (size - 1), buf)

unfoldable pub gpr_utils_scnprintf : List ℕ → ℕ → Expansion → ℤ × List ℕ
gpr_utils_scnprintf old size e = let (i, buf) = gpr_utils_vscnprintf old size e in (i, buf)
