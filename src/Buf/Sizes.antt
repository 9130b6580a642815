-- ===== src/Buf/Sizes.antt =====
-- The sizes of a buffer.
use gpr.Base.{
  ℕ, ◌+◌, ◌-◌, ◌%◌, ◌^◌, ◌<◌, ◌≤◌, ◌≡◌, ◌≢◌, refl, ap, ◌∙◌, [], ◌∷◌, some, Bool, true, ◌==◌, arith,
  and-false, ne→not-==, eq→==,
}
use gpr.Machine.{null, World, done}
use gpr.Err.{ok, gpr_err_raise}
use gpr.Buf.{
  GprBuffer, Buffers, distance, gpr_buf_reset, gpr_buf_new_buffer, gpr_buf_free_buffer,
  gpr_buf_is_empty, gpr_buf_get_used_size, gpr_buf_get_free_size, gpr_buf_get_rest_size,
}

-- The offsets are in order within the block, which does not wrap around.
abbrev pub InOrder : GprBuffer → Type 0
InOrder b =
    (b.buf ≤ b.ofs_b)
    × (b.ofs_b ≤ b.ofs_d)
    × (b.ofs_d ≤ b.ofs_e)
    × (b.ofs_e ≤ b.buf + b.size)
    × (b.size < 2 ^ 32)
    × (b.buf + b.size < 2 ^ 64)

abbrev pub holding : World Buffers → GprBuffer → World Buffers
holding w b = record w { heap = record w.heap { at = some b } }

distance-eq : (p q size : ℕ) → q ≤ p → p ≤ q + size → size < 2 ^ 32 → distance p q ≡ p - q
distance-eq p q size le room small = omega arith

free_left : (size d : ℕ) → d ≤ size → size < 2 ^ 32 → (size + 2 ^ 32 - d) % 2 ^ 32 ≡ size - d
free_left size d le small = omega arith

-- The sizes of a buffer whose offsets are in order, in either build: the used size, the rest and the
-- free size are the distances between the offsets, without a wrap-around.
pub buf_sizes-InOrder :
    (debug : Bool) (w : World Buffers) (b : GprBuffer)
    → InOrder b
    → (gpr_buf_get_used_size debug (holding w b) ≡ done (b.ofs_e - b.ofs_b) (holding w b))
      × (gpr_buf_get_rest_size debug (holding w b) ≡ done (b.ofs_e - b.ofs_d) (holding w b))
      × (gpr_buf_get_free_size debug (holding w b)
          ≡ done ((b.buf + b.size) - b.ofs_e) (holding w b))
      × (gpr_buf_is_empty debug (holding w b) ≡ done ((b.ofs_e - b.ofs_b) == 0) (holding w b))
unfolding gpr_buf_get_used_size gpr_buf_get_rest_size gpr_buf_get_free_size gpr_buf_is_empty
buf_sizes-InOrder debug w b (bb, bd, de, room, small, wide) = (
  rw (and-false debug, used) refl,
  rw (and-false debug, rest) refl,
  rw (and-false debug, free) refl,
  rw (and-false debug) (ap (λ t. done t (holding w b)) empty),
)
  where
    used : distance b.ofs_e b.ofs_b ≡ b.ofs_e - b.ofs_b
    used =
        distance-eq b.ofs_e b.ofs_b b.size (omega (arith, bd, de)) (omega (arith, bb, room)) small

    rest : distance b.ofs_e b.ofs_d ≡ b.ofs_e - b.ofs_d
    rest = distance-eq b.ofs_e b.ofs_d b.size de (omega (arith, bb, bd, room)) small

    free : (b.size + 2 ^ 32 - distance b.ofs_e b.buf) % 2 ^ 32 ≡ (b.buf + b.size) - b.ofs_e
    free = rw (distance-eq b.ofs_e b.buf b.size (omega (arith, bb, bd, de)) room small) (
        free_left b.size (b.ofs_e - b.buf) (omega (arith, room)) small
        ∙ omega (arith, bb, bd, de, room))

    empty : (b.ofs_b == b.ofs_e) ≡ ((b.ofs_e - b.ofs_b) == 0)
    empty = ground (arith, bd, de)

-- A buffer with every offset at the first byte of its block.
abbrev pub emptied : ℕ → ℕ → GprBuffer
emptied block size = record {
  buf = block;
  ofs_b = block;
  ofs_e = block;
  ofs_d = block;
  size = size;
}

-- What gpr_buf_new_buffer leaves where it has memory.
abbrev pub allocated : World Buffers → ℕ → ℕ → World Buffers
allocated w block size = record w {
  msg = [];
  heap = record { at = some (emptied block size); blocks = block ∷ w.heap.blocks };
}

emptied-InOrder :
    (block size : ℕ) → size < 2 ^ 32 → block + size < 2 ^ 64 → InOrder (emptied block size)
emptied-InOrder block size small wide =
    (omega arith, omega arith, omega arith, omega arith, small, wide)

-- gpr_buf_new_buffer with memory, in either build: every offset is at the first byte of the block,
-- which is the only one that is new. The buffer is empty, no byte of it is used or left to decode, and
-- its whole size is free. gpr_buf_free_buffer after it frees the block.
pub buf_new-InOrder :
    (debug : Bool) (w : World Buffers) (memory : GprBuffer) (fresh size : ℕ)
    → fresh ≢ null
    → size < 2 ^ 32
    → fresh + size < 2 ^ 64
    → (gpr_buf_new_buffer debug fresh size (holding w memory) ≡ done ok (allocated w fresh size))
      × InOrder (emptied fresh size)
      × (gpr_buf_is_empty debug (allocated w fresh size) ≡ done true (allocated w fresh size))
      × (gpr_buf_get_used_size debug (allocated w fresh size) ≡ done 0 (allocated w fresh size))
      × (gpr_buf_get_rest_size debug (allocated w fresh size) ≡ done 0 (allocated w fresh size))
      × (gpr_buf_get_free_size debug (allocated w fresh size) ≡ done size (allocated w fresh size))
      × (gpr_buf_free_buffer debug (allocated w fresh size)
          ≡ done tt
              (record w { msg = []; heap = record w.heap { at = some (emptied fresh size) } }))
unfolding gpr_buf_new_buffer gpr_buf_reset gpr_buf_free_buffer gpr_err_raise
buf_new-InOrder debug w memory fresh size valid small wide =
    let v = allocated w fresh size in
    let (used, rest, free, empty) =
      buf_sizes-InOrder debug v (emptied fresh size) (emptied-InOrder fresh size small wide) in
    (
      rw (ne→not-== fresh null valid, and-false debug) refl,
      emptied-InOrder fresh size small wide,
      empty ∙ ap (λ b. done b v) (eq→== (fresh - fresh) 0 (omega arith)),
      used ∙ ap (λ n. done n v) (omega arith),
      rest ∙ ap (λ n. done n v) (omega arith),
      free ∙ ap (λ n. done n v) (omega arith),
      rw (and-false debug)
          (rw (ne→not-== fresh null valid, and-false debug) (rw (eq→== fresh fresh refl) refl)),
    )
