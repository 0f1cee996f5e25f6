-- ===== src/Lib.antt =====
-- kcmsg: typed messages in a buffer of bytes, the sockets that they travel over,
-- configuration files and network interfaces.
--
-- Parts. `Message` models the class of src/Message.h and src/Message.cpp: a header, an offset and a
-- length in front of one heap block of 65535 bytes. `Message.Put` and `Message.Get` are the
-- functions put... and get...; `Message.Header` and `Message.Flags` the accessors of the header
-- with readHeader and writeHeader; `Message.Print` the loop of debugMessagePrint and its text,
-- `Message.Compose` the calls by which a sender builds a message, `Message.Client` the calls of a
-- client in any order, `Message.Transport` a message whose bytes have come to another block,
-- `Message.Serialize` the file of debugMessageSerialize, `Message.Arrays` the functions
-- put...Array, `Message.Host` what they use of the C library. `Message.Value` is the description of
-- the format that they are held against, and `Message.Queue` the view of a message as a queue of
-- values. `Connection` models the class of
-- src/Connection.h and src/Connection.cpp: `Connection.Socket` its state and the functions that
-- make one system call, `Connection.Read` and `Connection.Write` the loops Readn, ReadMessage,
-- Writen and WriteMessage, `Connection.Calls` the interfaces of read and write that these loops
-- use, `Connection.Transfer` both loops on the two sides of a connection, for one packet, a message
-- and a sequence of packets, `Connection.Sockets` the interface of the other system calls and
-- `Connection.Descriptors` a program that makes them through the class, `Connection.Errno` and
-- `Connection.Address` the texts of formatErrno and formatAddress. `Buffer` is memory, `Prelude`
-- the shared notation and lemmas. A Connection reads and writes a Message only through its memory.
-- `Configuration` models src/Property.h, src/Property.cpp, src/Configuration.h and
-- src/Configuration.cpp: `Configuration.Property` the tagged pointers, `Configuration.Map` the map
-- of properties and its lookups, `Configuration.Walk` the functions insertProperty and
-- mapProperties, `Configuration.Read` the function readConfigurationFile, `Configuration.Dump` the
-- printing of properties and trees, `Configuration.Entries` what a file says, as keys and values.
-- The other modules below it are proofs. It uses neither of the other parts. `NetworkInterface`
-- models the class of src/NetworkInterface.h and src/NetworkInterface.cpp: the addresses, flags and
-- data that the constructor copies, and `NetworkInterface.Probe` its system calls, with
-- testIsWireless, and the accessors. Nothing else uses it. `Lifetime` models the blocks that the
-- constructors of both classes allocate and their destructors free, in programs over many objects,
-- with copies and assignments.
--
-- State. A call on a message is a function from the message to its outcome: a result with the new
-- message, a std::domain_error with the message as it then is, a failed assert, undefined
-- behaviour, or a loop that the fuel has cut off. A copy outside of the block is undefined
-- behaviour. Words are natural numbers with the wrap of size_t written out; a signed number, a
-- float and a character are the patterns of their bits, on a little-endian host where size_t,
-- time_t and double have 8 bytes, int, uint, float and wchar_t 4. malloc is a parameter: the
-- block for a size, by its content, or none; and so is gmtime: the fields of a time, or none for its
-- null result, which debugMessagePrint follows. ReadMessage reads into the memory of the object, in
-- which its pointer, its length and its header stand; what memory an address leads to is a
-- parameter. WriteMessage sends that memory; what stands in and behind the object is a parameter.
--
-- The values of properties stand in a second memory, of strings, vectors and objects of class
-- Property, by their address; to delete or to follow a pointer to what is not there is undefined
-- behaviour. The file and the
-- property tree that Boost reads are arguments. A vector is a list with its back first.
--
-- Fuel. The loop of debugMessagePrint takes one unit for a turn, and so do the loops of
-- Connection: the bytes asked for, the interruptions by signals and one more are enough. The walk
-- of a property tree is recursion on the tree.
--
-- Not modelled: the digits of floating-point numbers and the calendar of gmtime, which are
-- parameters of the text that debugMessagePrint writes, an element that a failing get or
-- a null result of gmtime cuts off, the memory that getString and getWString do not free,
-- and what the system answers to the request for link settings, which the constructor of
-- NetworkInterface drops.
pub mod Prelude
pub mod Buffer
pub mod Lifetime
pub mod Message
pub mod Connection
pub mod Configuration
pub mod NetworkInterface
