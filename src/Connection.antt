-- ===== src/Connection.antt =====
-- The class `Connection` (src/Connection.h, src/Connection.cpp): the life of its socket, and the
-- loops that read and write a number of bytes.
pub mod Calls
pub mod Errno
pub mod Address
pub mod Read
pub mod Write
pub mod Transfer
pub mod Socket
pub mod Sockets
pub mod Descriptors
pub mod Samples
mod Tests
