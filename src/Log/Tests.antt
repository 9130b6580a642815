-- ===== src/Log/Tests.antt =====
-- The level of the log, with a message above it.
use gpr.Base.{◌≡◌, refl, [], ◌∷◌, some, none, true, pos, arith}
use gpr.Machine.{World, done, ◌>>◌}
use gpr.Utils.{text}
use gpr.Log.{Log, at_start, gpr_log_configure, gpr_log_msg}
use gpr.Log.Filter.{log_configured-Filter}

abbrev start : World Log
start = record { msg = []; calls = []; heap = at_start }

log_configured-Filter_example :
    (gpr_log_configure (λ f. true) none 2 >> gpr_log_msg [] true 3 (some (text (72 ∷ 105 ∷ []))))
      start
    ≡ done (pos 2) (record {
      msg = [];
      calls = [];
      heap = record { level = 2; out = some (72 ∷ 105 ∷ 10 ∷ []) };
    })
log_configured-Filter_example =
    log_configured-Filter (λ f. true) [] true 2 3 [] (72 ∷ 105 ∷ []) start (omega arith) refl
      (omega arith, (omega arith, tt)) (omega arith) (omega arith)
