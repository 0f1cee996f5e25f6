-- ===== src/Connection/Transfer/Session.antt =====
-- A message from its constructor at the sender to its values at the receiver: src/Message.cpp with
-- `Writen` and `Readn` of src/Connection.cpp. In the classes as they are, no client can make all of
-- these calls: `data`, `writeHeader` and `readHeader` are private.
use kcmsg.Message.Host.{Host}
use kcmsg.Message.{Message}
use kcmsg.Message.Value.{Value}
