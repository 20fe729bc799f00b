-- ===== src/Home.antt =====
-- pkg/home: the manager of the user's contexts, credentials and cache marks.
pub mod File
pub mod State
pub mod Context
pub mod Auth
pub mod Cache
pub mod Start
