-- ===== src/Control/Words.antt =====
-- Go's int64 as a bit pattern below 2 ^ 64, in two's complement.
use grpc_mesh_server.Prelude.{ℕ, ◌+◌, ◌-◌, ◌%◌, ◌^◌, Bool, ltb}

abbrev pub int64_sign : ℕ
int64_sign = 2 ^ 63

abbrev pub int64_mod : ℕ
int64_mod = 2 ^ 64

-- The order of the patterns that are shifted by 2 ^ 63 is the signed order.
abbrev pub shift : ℕ → ℕ
shift x = (x + int64_sign) % int64_mod

-- `x > y`, `x + y` and `x - y`, with the wrap-around.
abbrev pub gt_int64 : ℕ → ℕ → Bool
gt_int64 x y = ltb (shift y) (shift x)

abbrev pub add_int64 : ℕ → ℕ → ℕ
add_int64 x y = (x + y) % int64_mod

abbrev pub sub_int64 : ℕ → ℕ → ℕ
sub_int64 x y = (x + int64_mod - y) % int64_mod
