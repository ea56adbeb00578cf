-- ===== src/Term.antt =====
-- common/term.hpp and common/term.cpp: the cells that terms are made of.
pub mod Cell
pub mod Bytes
pub mod Con
pub mod IntCell
mod Examples
