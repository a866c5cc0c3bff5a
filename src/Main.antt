-- ===== src/Main.antt =====
-- cmd/main.go: the start of the operator.
pub mod Program
pub mod Acts
pub mod Plan
