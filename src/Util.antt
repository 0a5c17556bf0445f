-- ===== src/Util.antt =====
-- emu/util: bits, files, arrays, texts, command lines and settings.
pub mod Bits
pub mod File
pub mod HeapArray
pub mod Strings
pub mod Cmdline
pub mod Settings
mod Examples
