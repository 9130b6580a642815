-- ===== src/Log.antt =====
-- include/gpr_log.h and src/gpr_log.c. The heap is the default level and what was written to the
-- standard output; `none` is a stream that a failed `freopen` closed. The levels are numbers, as the
-- code compares them. What a format expands to, and whether `freopen` succeeds, are arguments.
mod Filter
mod Tests
use Prim.Native.String.{String}
use gpr.Base.{
  ℕ, zero, suc, ◌+◌, List, [], ◌∷◌, ◌++◌, Option, none, some, Bool, ◌&&◌, if◌then◌else◌, ◌==◌, not,
  ltb, leb, get_elem?, ℤ, pos, negsuc,
}
use gpr.Machine.{World, done, Cmd, ◌>>=◌, ◌>>◌, pure, crash, get_heap, attempt, fault}
use gpr.Utils.{Expansion, gpr_utils_vscnprintf}
use gpr.Err.{GprErr, ko, invalid_parameter, raise, success}

-- The numbers of `enum GPR_Log`.
abbrev pub gpr_log_debug : ℕ
gpr_log_debug = 0

abbrev pub gpr_log_info : ℕ
gpr_log_info = 1

abbrev pub gpr_log_numbers : ℕ
gpr_log_numbers = 5

abbrev pub gpr_log_default : ℕ
gpr_log_default = 6

abbrev pub gpr_log_message_max_len : ℕ
gpr_log_message_max_len = 8192

pub record Log : Type 0 where
  pub level : ℕ
  pub out : Option (List ℕ)

-- `Default_Log_Level` at the start.
abbrev pub at_start : Log
at_start = record { level = gpr_log_info; out = some [] }

abbrev pub set_level : ℕ → Cmd Log (Unit {0})
set_level level w = done tt (record w { heap = record w.heap { level = level } })

abbrev pub set_out : Option (List ℕ) → Cmd Log (Unit {0})
set_out out w = done tt (record w { heap = record w.heap { out = out } })

-- The change of the level in gpr_log_configure.
unfoldable pub configure_level : ℕ → Cmd Log GprErr
configure_level level =
    if level == gpr_log_default
    then success
    else if leb gpr_log_numbers level
    then raise invalid_parameter "Invalid log level"
    else do set_level level; success

-- A file that `freopen` opens to write is empty.
unfoldable pub gpr_log_configure : (List ℕ → Bool) → Option (List ℕ) → ℕ → Cmd Log GprErr
gpr_log_configure freopen none level = configure_level level
gpr_log_configure freopen (some filename) level =
    if freopen filename
    then (do set_out (some []); if level == gpr_log_default then success else configure_level level)
    else (do set_out none; raise ko "Log redirection failed")

-- `none` is a read outside of the array.
unfoldable pub gpr_log_level_to_str : Bool → ℕ → Option String
gpr_log_level_to_str debug level =
    if debug && leb gpr_log_numbers level
    then some "UNKNOWN"
    else get_elem? ("DEBUG" ∷ "INFO" ∷ "WARNING" ∷ "ERROR" ∷ "CRITICAL" ∷ []) level

-- What "%s" prints of a buffer.
abbrev pub c_string : List ℕ → List ℕ
c_string [] = []
c_string (c ∷ cs) = if c == 0 then [] else c ∷ c_string cs

abbrev pub print_line : List ℕ → Cmd Log (Unit {0})
print_line text = do
  h ← get_heap
  o ← attempt h.out
  set_out (some (o ++ (c_string text ++ (10 ∷ []))))

-- The length of the message, where it is positive.
abbrev pub written : ℤ → List ℕ → Cmd Log ℤ
written (negsuc n) msg = pure (negsuc 0)
written (pos zero) msg = pure (negsuc 0)
written (pos (suc n)) msg = do print_line msg; pure (pos (suc n))

-- The buffer of the message holds `old` at first. A `NULL` format is `none`.
unfoldable pub gpr_log_msg : List ℕ → Bool → ℕ → Option Expansion → Cmd Log ℤ
gpr_log_msg old debug level none =
    if debug
    then pure (negsuc 0)
    else do h ← get_heap; if ltb level h.level then pure (pos 0) else crash
gpr_log_msg old debug level (some e) = do
  h ← get_heap
  if ltb level h.level
      then pure (pos 0)
      else (let (i, msg) = gpr_utils_vscnprintf old (gpr_log_message_max_len + 1) e in
          written i msg)

-- `fflush(stdout)`, whose answer is an argument.
unfoldable pub gpr_log_flush : ℤ → Cmd Log ℤ
gpr_log_flush fflush = pure fflush
