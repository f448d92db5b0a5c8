-- ===== src/Guardrails.antt =====
-- app/guardrails/: the checks before the agents and behind the judge.
pub mod Entrada
pub mod Saida
