-- ===== src/Agents.antt =====
-- The agents' shared framework: agents/decisions.py and agents/dedupe.py.
pub mod Decision
pub mod Signature
pub mod Ledger
pub mod Downgrade
pub mod Gate
pub mod Guardrails
pub mod TestGenerator
pub mod Preflight
pub mod Findings
pub mod Milestones
pub mod Onboarding
pub mod Review
