-- ===== src/Core/Tests.antt =====
-- The theorems on the numbers, the statuses and the buffer of src/core_c at concrete inputs.
use forgerelay.Prelude.{[], arith, bytes, refl, true, ◌∷◌, ◌≡◌, ◌≢◌}
use forgerelay.Core.Buffer.{Allocator, Buf, append, reserve}
use forgerelay.Core.Buffer.Invariant.{AllOrNothing, IsWf, Total, append-AllOrNothing}
use forgerelay.Core.Buffer.Reader.{Reader}
use forgerelay.Core.Buffer.Reserve.{Reserved, reserve-Reserved}
use forgerelay.Core.Checked.{mul_u64_builtin, mul_u64_wrapped}
use forgerelay.Core.Checked.Exact.{mul_u64-agree}
use forgerelay.Core.Crc32.{crc32}
use forgerelay.Core.Crc32.Detect.{crc32_detects_byte}

abbrev always : Allocator
always n = true

always-Total : Total always
always-Total n = refl

abbrev small : Buf
small = record { contents = 1 ∷ 2 ∷ []; cap = 64 }

small-IsWf : IsWf small
small-IsWf = record { within = omega arith; bounded = omega arith }

crc32_detects_byte_example : crc32 (1 ∷ 2 ∷ 3 ∷ []) ≢ crc32 (1 ∷ 6 ∷ 3 ∷ [])
crc32_detects_byte_example =
    crc32_detects_byte (1 ∷ []) 2 6 (3 ∷ []) (omega arith) (omega arith) (omega arith, tt)
      (omega arith)

reserve-Reserved_example : Reserved always small 100 (reserve always small 100)
reserve-Reserved_example = reserve-Reserved always small 100 (omega arith)

append-AllOrNothing_example :
    AllOrNothing small (1 ∷ 2 ∷ 3 ∷ []) (append always small (bytes (3 ∷ [])))
append-AllOrNothing_example = append-AllOrNothing always small-IsWf (3 ∷ [])

abbrev reader : Reader
reader = record { input = 9 ∷ 8 ∷ 7 ∷ []; pos = 1 }

mul_u64-agree_example :
    mul_u64_wrapped 4294967296 4294967297 ≡ mul_u64_builtin 4294967296 4294967297
mul_u64-agree_example = mul_u64-agree 4294967296 4294967297 (omega arith) (omega arith)
