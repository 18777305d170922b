-- ===== src/Shell.antt =====
-- tasks/_inv/shell.py: splitting, formatting and quoting of command lines.
pub mod Split
pub mod Format
pub mod Posix
pub mod Win32
