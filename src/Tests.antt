-- ===== src/Tests.antt =====
-- The model on concrete inputs: tests of the definitions, and inputs that the theorems apply to.
mod Gate
mod Web
mod Github
mod Jobs
mod Guardrails
mod TestGenerator
mod Reviews
mod Indexer
mod Preflight
mod Imports
