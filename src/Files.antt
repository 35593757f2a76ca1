-- ===== src/Files.antt =====
-- The file system as the program uses it: package path (Path), and the files with the calls of
-- package os (Store).
pub mod Path
pub mod Store
