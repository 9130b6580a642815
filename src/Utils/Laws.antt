-- ===== src/Utils/Laws.antt =====
-- What gpr_utils_vscnprintf returns and writes.
use gpr.Base.{ℕ, ◌-◌, ◌<◌, ◌≤◌, ◌^◌, ◌≡◌, List, length, take, arith, pos, length-take}
use gpr.Utils.{text, gpr_utils_vscnprintf}

-- The text is cut to the room, and the result is the number of bytes that were really written.
pub vscnprintf_text :
    (old : List ℕ) (size : ℕ) (t : List ℕ)
    → 0 < size
    → size ≤ 2 ^ 31
    → length t < 2 ^ 31
    → (gpr_utils_vscnprintf old size (text t)).1 ≡ take (size - 1) t
      × ((gpr_utils_vscnprintf old size (text t)).0 ≡ pos (length (take (size - 1) t)))
unfolding gpr_utils_vscnprintf
vscnprintf_text old size t p q r = ground (arith, length-take (size - 1) t)
