-- ===== src/Message/Serialize.antt =====
-- `debugMessageSerialize` of src/Message.cpp. The function writes the memory from the member `data`
-- on, which is the pointer itself, and not the block that it leads to.
use kcmsg.Prelude.{ℕ, Bool, List, Option, none, some, if◌then◌else◌}
use kcmsg.Buffer.{Buffer, load}
use kcmsg.Message.{Message}

-- The content of the file, if `fopen` succeeds; `object` is the memory from the member `data` on.
unfoldable pub debug_message_serialize : Bool → Buffer → Message → Option (List ℕ)
debug_message_serialize opened object m =
    if opened then some (load object 0 m.data_length) else none
