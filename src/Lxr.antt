-- ===== src/Lxr.antt =====
-- Reference counting: src/util/rc.rs.
pub mod Counts
