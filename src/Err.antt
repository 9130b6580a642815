-- ===== src/Err.antt =====
-- include/gpr_err.h and src/gpr_err.c: error codes, and the thread's error message.
pub mod Raise
use Prim.Native.Char.{code}
use Prim.Native.String.{String}
use gpr.Base.{ℕ, ◌+◌, List, [], ◌∷◌, Option, none, some, Bool, ◌&&◌, if◌then◌else◌, leb, get_elem?}
use gpr.Machine.{done, Cmd}
use gpr.Utils.{Expansion, text, gpr_utils_vscnprintf}

-- `enum GPR_Err`, less its limit `GPR_ERR_NUMBERS`
pub data GprErr : Type 0 where
  ok ko invalid_parameter memory_failure loop_detected not_implemented network_error pending :
      GprErr

abbrev pub gpr_err_msg_len : ℕ
gpr_err_msg_len = 512

-- The bytes of a C string literal.
unfoldable pub codes : String → List ℕ
codes String.[] = []
codes (String.◌∷◌ c s) = code c ∷ codes s

-- The numbers of the enumeration.
unfoldable pub err_code : GprErr → ℕ
err_code ok = 0
err_code ko = 1
err_code invalid_parameter = 2
err_code memory_failure = 3
err_code loop_detected = 4
err_code not_implemented = 5
err_code network_error = 6
err_code pending = 7

abbrev gpr_err_numbers : ℕ
gpr_err_numbers = 8

abbrev err_array : List String
err_array =
    "Success" ∷ "Failure" ∷ "Invalid parameter" ∷ "Memory failure" ∷ "Loop detected"
    ∷ "Not implemented" ∷ "Network error" ∷ "Pending operation" ∷ []

-- `none` is a read outside of `Err_Array`. The enumeration is unsigned.
unfoldable pub gpr_err_to_str : Bool → ℕ → Option String
gpr_err_to_str debug error =
    if debug && leb gpr_err_numbers error then some "Unknown error" else get_elem? err_array error

unfoldable pub gpr_err_get_msg : {H : Type 0} → Cmd H (List ℕ)
gpr_err_get_msg w = done w.msg w

-- `none` is a `NULL` format.
unfoldable pub gpr_err_raise : {H : Type 0} → GprErr → Option Expansion → Cmd H GprErr
unfolding gpr_utils_vscnprintf
gpr_err_raise err none w = done err (record w { msg = [] })
gpr_err_raise err (some e) w =
    let (_, msg) = gpr_utils_vscnprintf w.msg (gpr_err_msg_len + 1) e in
    done err (record w { msg = msg })

-- The two forms in which the library calls it: a message with no conversion, and `NULL`.
abbrev pub raise : {H : Type 0} → GprErr → String → Cmd H GprErr
raise err message = gpr_err_raise err (some (text (codes message)))

abbrev pub success : {H : Type 0} → Cmd H GprErr
success = gpr_err_raise ok none
