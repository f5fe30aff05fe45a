-- ===== src/EhFrame.antt =====
-- src/print_eh_frame.c: the reader of the unwind tables of an ELF file, which prints what it reads. A
-- pointer into the file is the list of the file's bytes from there to its end, and what is printed is
-- a list of lines, each with its values.
pub mod Reading
pub mod Pointers
pub mod Bytecode
pub mod Fde
pub mod Header
pub mod Leb
pub mod Entries
pub mod Tables
pub mod Ends
pub mod Fixed
pub mod Walks
