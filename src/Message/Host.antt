-- ===== src/Message/Host.antt =====
-- What the functions of src/Message.cpp use of the C library: the block that `malloc` returns for a
-- size, by its content, or none, and the fields that `gmtime` makes of a time, or its null result for
-- a year that an `int` cannot hold.
use kcmsg.Prelude.{ℕ, Bool, Option}
use kcmsg.Prelude.Text.{Text}
use kcmsg.Buffer.{Buffer}

-- The fields of `struct tm`; `zone` is a text and `dst` a condition.
pub record Tm : Type 0 where
  pub sec : ℕ
  pub min : ℕ
  pub hour : ℕ
  pub mday : ℕ
  pub mon : ℕ
  pub wday : ℕ
  pub yday : ℕ
  pub year : ℕ
  pub zone : Text
  pub dst : Bool

pub record Host : Type 0 where
  pub malloc : ℕ → Option Buffer
  pub gmtime : ℕ → Option Tm
