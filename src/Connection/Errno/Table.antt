-- ===== src/Connection/Errno/Table.antt =====
-- The cases of the `switch` in `Connection::formatErrno` of src/Connection.cpp: an error number, by
-- its value on Linux, and the text that the case appends, less its closing quotation mark.
use kcmsg.Prelude.{ℕ, List, [], ◌∷◌}
use kcmsg.Prelude.Text.{Text, lit}

-- EPERM to EPIPE.
abbrev pub file_errnos : List (ℕ × Text)
file_errnos =
    (1, lit "EPERM - Operation not permitted")
    ∷ (2, lit "ENOENT - No such file or directory")
    ∷ (3, lit "ESRCH - No such process")
    ∷ (4, lit "EINTR - Interrupted system call")
    ∷ (5, lit "EIO - I/O error")
    ∷ (6, lit "ENXIO - No such device or address")
    ∷ (7, lit "E2BIG - Argument list too long")
    ∷ (8, lit "ENOEXEC - Exec format error")
    ∷ (9, lit "EBADF - Bad file number")
    ∷ (10, lit "ECHILD - No child processes")
    ∷ (11, lit "EAGAIN - Try again")
    ∷ (12, lit "ENOMEM - Out of memory")
    ∷ (13, lit "EACCES - Permission denied")
    ∷ (14, lit "EFAULT - Bad address")
    ∷ (15, lit "ENOTBLK - Block device required")
    ∷ (16, lit "EBUSY - Device or resource busy")
    ∷ (17, lit "EEXIST - File exists")
    ∷ (18, lit "EXDEV - Cross-device link")
    ∷ (19, lit "ENODEV - No such device")
    ∷ (20, lit "ENOTDIR - Not a directory")
    ∷ (21, lit "EISDIR - Is a directory")
    ∷ (22, lit "EINVAL - Invalid argument")
    ∷ (23, lit "ENFILE - File table overflow")
    ∷ (24, lit "EMFILE - Too many open files")
    ∷ (25, lit "ENOTTY - Not a typewriter")
    ∷ (26, lit "ETXTBSY - Text file busy")
    ∷ (27, lit "EFBIG - File too large")
    ∷ (28, lit "ENOSPC - No space left on device")
    ∷ (29, lit "ESPIPE - Illegal seek")
    ∷ (30, lit "EROFS - Read-only file system")
    ∷ (31, lit "EMLINK - Too many links")
    ∷ (32, lit "EPIPE - Broken pipe")
    ∷ []

-- EDEADLK to EOVERFLOW.
abbrev pub system_errnos : List (ℕ × Text)
system_errnos =
    (35, lit "EDEADLK - Resource deadlock would occur")
    ∷ (36, lit "ENAMETOOLONG - File name too long")
    ∷ (37, lit "ENOLCK - No record locks available")
    ∷ (38, lit "ENOSYS - Invalid system call number")
    ∷ (39, lit "ENOTEMPTY - Directory not empty")
    ∷ (40, lit "ELOOP - Too many symbolic links encountered")
    ∷ (42, lit "ENOMSG - No message of desired type")
    ∷ (43, lit "EIDRM - Identifier removed")
    ∷ (60, lit "ENOSTR - Device not a stream")
    ∷ (61, lit "ENODATA - No data available")
    ∷ (62, lit "ETIME - Timer expired")
    ∷ (63, lit "ENOSR - Out of streams resources")
    ∷ (66, lit "EREMOTE - Object is remote")
    ∷ (67, lit "ENOLINK - Link has been severed")
    ∷ (71, lit "EPROTO - Protocol error")
    ∷ (72, lit "EMULTIHOP - Multihop attempted")
    ∷ (74, lit "EBADMSG - Not a data message")
    ∷ (75, lit "EOVERFLOW - Value too large for defined data type")
    ∷ []

-- EUSERS to ENOTRECOVERABLE.
abbrev pub socket_errnos : List (ℕ × Text)
socket_errnos =
    (87, lit "EUSERS - Too many users")
    ∷ (88, lit "ENOTSOCK - Socket operation on non-socket")
    ∷ (89, lit "EDESTADDRREQ - Destination address required")
    ∷ (90, lit "EMSGSIZE - Message too long")
    ∷ (91, lit "EPROTOTYPE - Protocol wrong type for socket")
    ∷ (92, lit "ENOPROTOOPT - Protocol not available")
    ∷ (93, lit "EPROTONOSUPPORT - Protocol not supported")
    ∷ (94, lit "ESOCKTNOSUPPORT - Socket type not supported")
    ∷ (95, lit "EOPNOTSUPP - Operation not supported on transport endpoint")
    ∷ (96, lit "EPFNOSUPPORT - Protocol family not supported")
    ∷ (97, lit "EAFNOSUPPORT - Address family not supported by protocol")
    ∷ (98, lit "EADDRINUSE - Address already in use")
    ∷ (99, lit "EADDRNOTAVAIL - Cannot assign requested address")
    ∷ (100, lit "ENETDOWN - Network is down")
    ∷ (101, lit "ENETUNREACH - Network is unreachable")
    ∷ (102, lit "ENETRESET - Network dropped connection because of reset")
    ∷ (103, lit "ECONNABORTED - Software caused connection abort")
    ∷ (104, lit "ECONNRESET - Connection reset by peer")
    ∷ (105, lit "ENOBUFS - No buffer space available")
    ∷ (106, lit "EISCONN - Transport endpoint is already connected")
    ∷ (107, lit "ENOTCONN - Transport endpoint is not connected")
    ∷ (108, lit "ESHUTDOWN - Cannot send after transport endpoint shutdown")
    ∷ (109, lit "ETOOMANYREFS - Too many references: cannot splice")
    ∷ (110, lit "ETIMEDOUT - Connection timed out")
    ∷ (111, lit "ECONNREFUSED - Connection refused")
    ∷ (112, lit "EHOSTDOWN - Host is down")
    ∷ (113, lit "EHOSTUNREACH - No route to host")
    ∷ (114, lit "EALREADY - Operation already in progress")
    ∷ (115, lit "EINPROGRESS - Operation now in progress")
    ∷ (116, lit "ESTALE - Stale file handle")
    ∷ (122, lit "EDQUOT - Quota exceeded")
    ∷ (125, lit "ECANCELED - Operation Canceled")
    ∷ (130, lit "EOWNERDEAD - Owner died")
    ∷ (131, lit "ENOTRECOVERABLE - State not recoverable")
    ∷ []
