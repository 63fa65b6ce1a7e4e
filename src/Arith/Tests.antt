-- ===== src/Arith/Tests.antt =====
-- The theorem on checked arithmetic at concrete types: uint8_t and int8_t.
use com_lib.Arith.Exact.{UnsignedExact, SignedExact, arith_exact}
use com_lib.Prelude.{refl, arith}
use com_lib.Prelude.Int.{negsuc}

arith_exact_example :
    UnsignedExact 255 200 100 × SignedExact 128 (omega arith) (negsuc 127) (negsuc 0)
arith_exact_example =
    arith_exact 255 128 (omega arith) 200 100 (negsuc 127) (negsuc 0) (omega arith) (omega arith)
      refl refl
