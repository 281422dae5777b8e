-- ===== src/Shared.antt =====
-- What several parts of the program use of the language's library: `f64` as an interface, `HashSet`,
-- results and texts.
pub mod Float
pub mod Result
pub mod Sets
pub mod Text
