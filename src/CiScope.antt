-- ===== src/CiScope.antt =====
-- scripts/ci_scope.py: which jobs a set of changed files needs. The files come from git.
pub mod Reference
mod Tests
use fastapi_sample.Prelude.{
  String, ℕ, Bool, true, false, ◌&&◌, ◌||◌, ◌==◌, List, [], ◌∷◌, any, length, starts_with,
  ends_with, if◌then◌else◌,
}

pub data DependencyMode : Type 0 where
  full quality no_mode : DependencyMode

pub record Scope : Type 0 where
  pub maintenance_only : Bool
  pub application : Bool
  pub sast : Bool
  pub build : Bool
  pub dependencies : Bool
  pub dependency_mode : DependencyMode
  pub changed_count : ℕ

abbrev quality_maintenance_paths : List String
quality_maintenance_paths =
    ".pre-commit-config.yaml" ∷ ".pre-commit-pre-push.yaml" ∷ ".quality-gate-large-deletions"
    ∷ ".github/copilot-instructions.md" ∷ ".mcp.json" ∷ ".vercelignore" ∷ "AGENTS.md" ∷ "CLAUDE.md"
    ∷ "opencode.json" ∷ "renovate.json" ∷ "vercel.json" ∷ "mise.toml" ∷ "justfile"
    ∷ "scripts/agent-publish.sh" ∷ "scripts/agent-quality-gate.sh" ∷ "scripts/check_code_size.py"
    ∷ "scripts/check_docs_links.py" ∷ "scripts/ci-performance-budget.sh" ∷ "scripts/quality-gate.sh"
    ∷ "tests/unit/test_agent_dependency_mode.py" ∷ "tests/unit/test_agent_publication_proof.py"
    ∷ "tests/unit/test_agent_quality_gate_contract.py" ∷ "tests/unit/test_ci_performance_budget.py"
    ∷ "tests/unit/test_ci_scope.py" ∷ "tests/unit/test_docs_contract.py"
    ∷ "tests/unit/test_large_deletion_ack_contract.py"
    ∷ "tests/unit/test_opencode_agent_contract.py" ∷ "tests/unit/test_workflow_security.py" ∷ []

abbrev quality_maintenance_prefixes : List String
quality_maintenance_prefixes =
    ".agents/skills/" ∷ ".cursor/rules/" ∷ ".github/instructions/" ∷ ".opencode/" ∷ []

abbrev security_non_deployable_paths : List String
security_non_deployable_paths = "scripts/ci-scope.sh" ∷ "scripts/ci_scope.py" ∷ []

unfoldable pub is_docs_path : String → Bool
is_docs_path path = starts_with path "docs/" || ends_with path ".md"

unfoldable pub is_quality_maintenance_path : String → Bool
is_quality_maintenance_path path =
    any (λ p. p == path) quality_maintenance_paths
    || any (λ p. starts_with path p) quality_maintenance_prefixes

unfoldable pub is_security_non_deployable_path : String → Bool
is_security_non_deployable_path path =
    any (λ p. p == path) security_non_deployable_paths
    || starts_with path ".github/"
    || starts_with path ".zap/"

unfoldable pub is_test_path : String → Bool
is_test_path path = starts_with path "tests/"

-- The variables of the loop.
pub record Flags : Type 0 where
  pub maintenance_only : Bool
  pub application : Bool
  pub sast : Bool
  pub build : Bool
  pub dependencies : Bool
  pub quality_contract : Bool

abbrev pub first_flags : Flags
first_flags = record {
  maintenance_only = true;
  application = false;
  sast = false;
  build = false;
  dependencies = false;
  quality_contract = false;
}

abbrev pub note_quality : Flags → Flags
note_quality f = record {
  maintenance_only = f.maintenance_only;
  application = f.application;
  sast = f.sast;
  build = f.build;
  dependencies = f.dependencies;
  quality_contract = true;
}

abbrev pub note_security : Flags → Flags
note_security f = record {
  maintenance_only = false;
  application = f.application;
  sast = true;
  build = f.build;
  dependencies = f.dependencies;
  quality_contract = true;
}

abbrev pub note_test : Flags → Flags
note_test f = record {
  maintenance_only = false;
  application = f.application;
  sast = true;
  build = f.build;
  dependencies = true;
  quality_contract = f.quality_contract;
}

abbrev pub note_application : Flags → Flags
note_application f = record {
  maintenance_only = false;
  application = true;
  sast = true;
  build = true;
  dependencies = true;
  quality_contract = f.quality_contract;
}

-- One turn of the loop, and the loop.
unfoldable pub note_path : String → Flags → Flags
note_path path f =
    if is_quality_maintenance_path path
    then note_quality f
    else if is_docs_path path
    then f
    else if is_security_non_deployable_path path
    then note_security f
    else if is_test_path path
    then note_test f
    else note_application f

unfoldable pub note_paths : List String → Flags → Flags
note_paths [] f = f
note_paths (path ∷ paths) f = note_paths paths (note_path path f)

unfoldable pub mode_of : Flags → DependencyMode
mode_of f =
    if f.application || f.dependencies
    then full
    else if f.quality_contract
    then quality
    else no_mode

abbrev pub full_scope : Scope
full_scope = record {
  maintenance_only = false;
  application = true;
  sast = true;
  build = true;
  dependencies = true;
  dependency_mode = full;
  changed_count = 0;
}

unfoldable pub classify : List String → Scope
classify [] = full_scope
classify (path ∷ paths) =
    let f = note_paths (path ∷ paths) first_flags in
    record {
      maintenance_only = f.maintenance_only;
      application = f.application;
      sast = f.sast;
      build = f.build;
      dependencies = f.dependencies;
      dependency_mode = mode_of f;
      changed_count = length (path ∷ paths);
    }
