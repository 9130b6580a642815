-- ===== src/Err/Raise.antt =====
-- gpr_err_raise leaves the whole message when it fits.
use Prim.Native.String.{String}
use gpr.Base.{◌≤◌, ◌≡◌, length, take_of_length-le, arith}
use gpr.Machine.{World, done}
use gpr.Utils.{gpr_utils_vscnprintf}
use gpr.Err.{GprErr, codes, gpr_err_raise, raise, gpr_err_msg_len}

pub raise_short :
    {H : Type 0} (e : GprErr) (m : String) (w : World H)
    → length (codes m) ≤ gpr_err_msg_len
    → raise e m w ≡ done e (record w { msg = codes m })
unfolding gpr_err_raise gpr_utils_vscnprintf
raise_short e m w h = ground (arith, take_of_length-le gpr_err_msg_len (codes m))
