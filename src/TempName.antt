-- ===== src/TempName.antt =====
-- The names of temporary files: path_search.h, try_tempname_len.h, gen_tempname_len.h, gen_tempname.h
-- and tmpnam.h.
pub mod Buffer
pub mod Search
pub mod Chosen
pub mod Filled
pub mod Letters
pub mod Drawn
pub mod Filling
pub mod Names
pub mod Tmpnam
pub mod Tests
pub mod Runs
