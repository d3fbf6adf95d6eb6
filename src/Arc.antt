-- ===== src/Arc.antt =====
-- pkg/authverify/arc.go: the chain of ARC sets.
pub mod Sets
pub mod Seal
pub mod Chain
