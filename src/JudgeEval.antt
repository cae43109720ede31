-- ===== src/JudgeEval.antt =====
-- judge_eval/: probing a judge.
pub mod Bias
pub mod Agreement
pub mod Gold
pub mod Validation
