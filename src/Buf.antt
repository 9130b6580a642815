-- ===== src/Buf.antt =====
-- include/gpr_buf.h and src/gpr_buf.c. The heap is the `struct gpr_buffer` (`none` is `NULL`) and the
-- blocks of bytes that are allocated. `fresh` is what `malloc` answers. Pointers are 64 bits and
-- `unsigned int` is 32 bits.
mod Sizes
mod Tests
use gpr.Base.{
  ℕ, ◌+◌, ◌-◌, ◌%◌, ◌^◌, List, [], ◌∷◌, Option, none, some, Bool, true, false, ◌&&◌, ◌||◌,
  if◌then◌else◌, ◌==◌,
}
use gpr.Machine.{Ptr, null, World, done, Cmd, ◌>>=◌, ◌>>◌, pure, get_heap, attempt}
use gpr.Err.{GprErr, memory_failure, raise, success}

pub record GprBuffer : Type 0 where
  pub buf : Ptr
  pub ofs_b : Ptr
  pub ofs_e : Ptr
  pub ofs_d : Ptr
  pub size : ℕ

pub record Buffers : Type 0 where
  pub at : Option GprBuffer
  pub blocks : List Ptr

abbrev pub get_buf : Cmd Buffers GprBuffer
get_buf = do h ← get_heap; attempt h.at

abbrev pub put_buf : GprBuffer → Cmd Buffers (Unit {0})
put_buf b w = done tt (record w { heap = record w.heap { at = some b } })

abbrev pub is_missing : Option GprBuffer → Bool
is_missing none = true
is_missing (some b) = false

abbrev pub when_given : {A : Type 0} → Bool → A → Cmd Buffers A → Cmd Buffers A
when_given debug other go = do h ← get_heap; if debug && is_missing h.at then pure other else go

unfoldable pub gpr_buf_reset : Bool → Cmd Buffers (Unit {0})
gpr_buf_reset debug =
    when_given debug tt
      (do b ← get_buf; put_buf (record b { ofs_b = b.buf; ofs_e = b.buf; ofs_d = b.buf }))

unfoldable pub gpr_buf_new_buffer : Bool → Ptr → ℕ → Cmd Buffers GprErr
gpr_buf_new_buffer debug fresh size = do
  b ← get_buf
  put_buf (record b { buf = fresh })
  if fresh == null then raise memory_failure "Buffer allocation failed" else do
    (λ w. done tt (record w { heap = record w.heap { blocks = fresh ∷ w.heap.blocks } }))
    gpr_buf_reset debug
    c ← get_buf
    put_buf (record c { size = size })
    success

-- The structure is given as what its memory holds, or is not; the code of gpr_buf_new_buffer is dropped.
unfoldable pub gpr_buf_new : Bool → Option GprBuffer → Ptr → ℕ → Cmd Buffers Bool
gpr_buf_new debug none fresh size = pure false
gpr_buf_new debug (some memory) fresh size = do
  put_buf memory
  gpr_buf_new_buffer debug fresh size
  pure true

abbrev pub without : List Ptr → Ptr → List Ptr
without [] p = []
without (x ∷ xs) p = if x == p then xs else x ∷ without xs p

-- `free`
abbrev pub release : Ptr → Cmd Buffers (Unit {0})
release p w = done tt (record w { heap = record w.heap { blocks = without w.heap.blocks p } })

unfoldable pub gpr_buf_free_buffer : Bool → Cmd Buffers (Unit {0})
gpr_buf_free_buffer debug =
    when_given debug tt
      (do b ← get_buf; if debug && (b.buf == null) then pure tt else release b.buf)

unfoldable pub gpr_buf_free : Bool → Cmd Buffers (Unit {0})
gpr_buf_free debug = when_given debug tt (do
  b ← get_buf
  if debug && (b.buf == null) then pure tt else do
    gpr_buf_free_buffer debug
    λ w. done tt (record w { heap = record w.heap { at = none } }))

unfoldable pub gpr_buf_is_empty : Bool → Cmd Buffers Bool
gpr_buf_is_empty debug = when_given debug true (do b ← get_buf; pure (b.ofs_b == b.ofs_e))

-- The difference of two pointers, as an `unsigned int`.
abbrev pub distance : Ptr → Ptr → ℕ
distance p q = (p + 2 ^ 64 - q) % 2 ^ 64 % 2 ^ 32

unfoldable pub gpr_buf_get_size : Bool → Cmd Buffers ℕ
gpr_buf_get_size debug = when_given debug 0 (do b ← get_buf; pure b.size)

unfoldable pub gpr_buf_get_used_size : Bool → Cmd Buffers ℕ
gpr_buf_get_used_size debug = when_given debug 0 (do b ← get_buf; pure (distance b.ofs_e b.ofs_b))

unfoldable pub gpr_buf_get_free_size : Bool → Cmd Buffers ℕ
gpr_buf_get_free_size debug =
    when_given debug 0 (do b ← get_buf; pure ((b.size + 2 ^ 32 - distance b.ofs_e b.buf) % 2 ^ 32))

unfoldable pub gpr_buf_get_rest_size : Bool → Cmd Buffers ℕ
gpr_buf_get_rest_size debug = when_given debug 0 (do b ← get_buf; pure (distance b.ofs_e b.ofs_d))
