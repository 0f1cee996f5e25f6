-- ===== src/Message/Arrays.antt =====
-- The functions `put...Array` of src/Message.cpp, whose bodies are empty. The parameter is a pointer:
-- the address of the first element, without a number of elements.
use kcmsg.Prelude.{ℕ}
use kcmsg.Message.{M, pure}

unfoldable pub put_bool_array : ℕ → M (Unit {0})
put_bool_array arr = pure tt

unfoldable pub put_byte_array : ℕ → M (Unit {0})
put_byte_array arr = pure tt

unfoldable pub put_short_array : ℕ → M (Unit {0})
put_short_array arr = pure tt

unfoldable pub put_int_array : ℕ → M (Unit {0})
put_int_array arr = pure tt

unfoldable pub put_long_array : ℕ → M (Unit {0})
put_long_array arr = pure tt

unfoldable pub put_long_long_array : ℕ → M (Unit {0})
put_long_long_array arr = pure tt

unfoldable pub put_float_array : ℕ → M (Unit {0})
put_float_array arr = pure tt

unfoldable pub put_double_array : ℕ → M (Unit {0})
put_double_array arr = pure tt

unfoldable pub put_string_array : ℕ → M (Unit {0})
put_string_array arr = pure tt

unfoldable pub put_time_array : ℕ → M (Unit {0})
put_time_array arr = pure tt

unfoldable pub put_duration_array : ℕ → M (Unit {0})
put_duration_array arr = pure tt
