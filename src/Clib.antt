-- ===== src/Clib.antt =====
-- The C library functions that the sources call, as far as the sources use them: strings
-- (`string.h`), `sscanf`, and the conversions of `printf`.
pub mod Text
pub mod Scan
pub mod Print
