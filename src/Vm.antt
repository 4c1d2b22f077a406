-- ===== src/Vm.antt =====
-- The predicate evaluator of rules/vm.rs.
pub mod Predicates
pub mod Safety
