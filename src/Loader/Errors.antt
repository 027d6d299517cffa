-- ===== src/Loader/Errors.antt =====
-- The errors of the three image formats, each in a module of its own since they share names.
pub mod Elf
pub mod Bzimage
pub mod Pe
