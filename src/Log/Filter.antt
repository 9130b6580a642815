-- ===== src/Log/Filter.antt =====
-- gpr_log_configure and gpr_log_msg: what is written.
use gpr.Base.{
  ℕ, zero, suc, ◌<◌, ◌^◌, ◌≡◌, refl, ap, List, [], ◌∷◌, ◌++◌, none, some, Bool, false,
  if◌then◌else◌, ltb, leb, ℤ, pos, length, take, length-take, arith, ne→not-==, inl, inr,
  Bool-cases,
}
use gpr.Machine.{World, done, ◌>>◌, Run}
use gpr.Utils.{text}
use gpr.Utils.Laws.{vscnprintf_text}
use gpr.Err.{gpr_err_raise}
use gpr.Str.{NoZero}
use gpr.Log.{
  Log, c_string, written, gpr_log_msg, gpr_log_configure, configure_level, gpr_log_message_max_len,
}

c_string-take : (n : ℕ) (t : List ℕ) → NoZero t → c_string (take n t) ≡ take n t
c_string-take zero t v = refl
c_string-take (suc n) [] v = refl
c_string-take (suc n) (c ∷ cs) v =
    rw (ne→not-== c 0 v.0) (ap (λ us. c ∷ us) (c_string-take n cs v.1))

-- What a message leaves: nothing, when it is below the level, or its line, cut to 8192 bytes.
abbrev pub after_message : ℕ → List ℕ → ℕ → List ℕ → World Log → Run Log ℤ
after_message threshold out level t w =
    if ltb level threshold
    then done (pos 0) (record w { heap = record { level = threshold; out = some out } })
    else done (pos (length (take gpr_log_message_max_len t))) (record w {
      heap = record {
        level = threshold;
        out = some (out ++ (take gpr_log_message_max_len t ++ (10 ∷ [])));
      };
    })

written-eq :
    (u : List ℕ) (threshold : ℕ) (out : List ℕ) (w : World Log)
    → c_string u ≡ u
    → 0 < length u
    → written (pos (length u)) u (record w { heap = record { level = threshold; out = some out } })
      ≡ done
          (pos (length u))
          (record w { heap = record { level = threshold; out = some (out ++ (u ++ (10 ∷ []))) } })
written-eq [] threshold out w e p = absurd (omega arith)
written-eq (c ∷ cs) threshold out w e p =
    ap
      (λ us.
        done (pos (length (c ∷ cs)))
          (record w { heap = record { level = threshold; out = some (out ++ (us ++ (10 ∷ []))) } }))
      e

log_msg-eq :
    (old : List ℕ) (debug : Bool) (threshold level : ℕ) (out t : List ℕ) (w : World Log)
    → NoZero t
    → 0 < length t
    → length t < 2 ^ 31
    → gpr_log_msg old debug level
        (some (text t))
        (record w { heap = record { level = threshold; out = some out } })
      ≡ after_message threshold out level t w
unfolding gpr_log_msg
log_msg-eq old debug threshold level out t w v p q = elim (Bool-cases (ltb level threshold)) [
  | inl e ↦ rw e refl
  | inr e ↦
      let (message, count) = vscnprintf_text old 8193 t (omega arith) (omega arith) q in
      rw (e, count, message)
        (written-eq (take gpr_log_message_max_len t) threshold out w
          (c_string-take gpr_log_message_max_len t v)
          (omega (arith, length-take gpr_log_message_max_len t, p)))
]

-- gpr_log_configure without a file, to any of the levels, and gpr_log_msg after it: a message below
-- the level gives 0 and writes nothing; any other is written with a line break, and gives its length,
-- both cut to 8192 bytes. The message is not empty, has no \0, and its length is an `int`.
pub log_configured-Filter :
    (freopen : List ℕ → Bool) (old : List ℕ) (debug : Bool) (threshold level : ℕ) (out t : List ℕ)
    (w : World Log)
    → threshold < 5
    → w.heap.out ≡ some out
    → NoZero t
    → 0 < length t
    → length t < 2 ^ 31
    → (gpr_log_configure freopen none threshold >> gpr_log_msg old debug level (some (text t))) w
      ≡ after_message threshold out level t (record w { msg = [] })
unfolding gpr_log_configure configure_level gpr_err_raise
log_configured-Filter freopen old debug threshold level out t w k o v p q =
    rw (ne→not-== threshold 6 (λ e. omega arith), not_leb threshold k, o)
      (log_msg-eq old debug threshold level out t (record w { msg = [] }) v p q)
  where
    not_leb : (a : ℕ) → a < 5 → leb 5 a ≡ false
    not_leb a h = ground arith
