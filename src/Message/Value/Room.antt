-- ===== src/Message/Value/Room.antt =====
-- The tests for room of the functions `put...` of src/Message.cpp, without the wrap of `size_t`.
use kcmsg.Prelude.{ℕ, suc, ◌+◌, ◌≤◌, ◌<◌, ◌≡◌, arith, leb, le→leb, lt→leb, true, false}
use kcmsg.Prelude.Bytes.{add_size}
use kcmsg.Message.{max_msg_data}

-- The test of the fixed-size functions, and the one of the strings, without the wrap of `size_t`.
pub room_for :
    (d n : ℕ) → d + suc n ≤ max_msg_data → leb (add_size (add_size d 1) n) max_msg_data ≡ true
room_for d n h = le→leb _ _ (let e : add_size (add_size d 1) n ≤ max_msg_data = omega arith in e)

pub room_for_string :
    (d k n : ℕ)
    → d + (1 + (k + n)) ≤ max_msg_data
    → leb (add_size (add_size (add_size d 1) k) n) max_msg_data ≡ true
room_for_string d k n h =
    le→leb _ _ (let e : add_size (add_size (add_size d 1) k) n ≤ max_msg_data = omega arith in e)

pub no_room_for :
    (d n : ℕ)
    → d ≤ max_msg_data
    → n ≤ 8
    → max_msg_data < d + suc n
    → leb (add_size (add_size d 1) n) max_msg_data ≡ false
no_room_for d n hd hn h =
    lt→leb _ _ (let e : max_msg_data < add_size (add_size d 1) n = omega arith in e)

pub no_room_for_string :
    (d k n : ℕ)
    → d ≤ max_msg_data
    → k ≤ 2
    → n < 0x8000_0000_0000_0000
    → max_msg_data < d + (1 + (k + n))
    → leb (add_size (add_size (add_size d 1) k) n) max_msg_data ≡ false
no_room_for_string d k n hd hk hn h =
    lt→leb _ _ (let e : max_msg_data < add_size (add_size (add_size d 1) k) n = omega arith in e)
