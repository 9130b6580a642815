-- ===== src/Buf/Tests.antt =====
-- The sizes of a concrete buffer.
use gpr.Base.{◌≡◌, [], some, none, true, false, arith}
use gpr.Machine.{World, done}
use gpr.Err.{ok}
use gpr.Buf.{
  GprBuffer, Buffers, gpr_buf_get_used_size, gpr_buf_get_rest_size, gpr_buf_get_free_size,
  gpr_buf_is_empty, gpr_buf_new_buffer, gpr_buf_free_buffer,
}
use gpr.Buf.Sizes.{InOrder, holding, emptied, allocated, buf_sizes-InOrder, buf_new-InOrder}

abbrev partly : GprBuffer
partly = record { buf = 100; ofs_b = 102; ofs_e = 108; ofs_d = 105; size = 16 }

abbrev here : World Buffers
here = record { msg = []; calls = []; heap = record { at = none; blocks = [] } }

buf_sizes-InOrder_example :
    (gpr_buf_get_used_size true (holding here partly) ≡ done 6 (holding here partly))
    × (gpr_buf_get_rest_size true (holding here partly) ≡ done 3 (holding here partly))
    × (gpr_buf_get_free_size true (holding here partly) ≡ done 8 (holding here partly))
    × (gpr_buf_is_empty true (holding here partly) ≡ done false (holding here partly))
buf_sizes-InOrder_example =
    buf_sizes-InOrder true here partly
      (omega arith, omega arith, omega arith, omega arith, omega arith, omega arith)

buf_new-InOrder_example :
    (gpr_buf_new_buffer true 200 16 (holding here partly) ≡ done ok (allocated here 200 16))
    × InOrder (emptied 200 16)
    × (gpr_buf_is_empty true (allocated here 200 16) ≡ done true (allocated here 200 16))
    × (gpr_buf_get_used_size true (allocated here 200 16) ≡ done 0 (allocated here 200 16))
    × (gpr_buf_get_rest_size true (allocated here 200 16) ≡ done 0 (allocated here 200 16))
    × (gpr_buf_get_free_size true (allocated here 200 16) ≡ done 16 (allocated here 200 16))
    × (gpr_buf_free_buffer true (allocated here 200 16)
        ≡ done tt
            (record here { msg = []; heap = record here.heap { at = some (emptied 200 16) } }))
buf_new-InOrder_example =
    buf_new-InOrder true here partly 200 16 (λ e. omega arith) (omega arith) (omega arith)
