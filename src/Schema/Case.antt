-- ===== src/Schema/Case.antt =====
-- schema/case.py: one evaluation task, without the checks on its fields.
use evalstack.Prelude.{ℕ, String, Option, List}

pub data Difficulty : Type 0 where
  easy medium hard : Difficulty

pub record FileSpec : Type 0 where
  pub path : String
  pub contents : String

pub record CaseMetadata : Type 0 where
  pub bug_kind : Option String
  pub difficulty : Difficulty
  pub target_files : List String
  pub tags : List String

pub record EvalCase : Type 0 where
  pub case_id : String
  pub prompt : String
  pub files : List FileSpec
  pub test_command : List String
  pub setup_commands : List (List String)
  pub timeout_s : ℕ
  pub metadata : CaseMetadata
  pub reference_solution : List FileSpec
