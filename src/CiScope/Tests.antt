-- ===== src/CiScope/Tests.antt =====
-- scripts/ci_scope.py: the scope of a concrete set of files.
use fastapi_sample.Prelude.{◌≡◌, refl, [], ◌∷◌, ends_with}
use fastapi_sample.CiScope.{
  quality, is_docs_path, is_quality_maintenance_path, is_security_non_deployable_path, is_test_path,
  note_path, note_paths, mode_of, classify,
}
use fastapi_sample.CiScope.Reference.{scope_of, classify-scope_of}

a_workflow : (classify ("docs/a.txt" ∷ ".github/workflows/ci.yml" ∷ [])).dependency_mode ≡ quality
unfolding classify note_paths note_path mode_of is_docs_path is_quality_maintenance_path
    is_security_non_deployable_path is_test_path ends_with
a_workflow = refl

classify-scope_of_example :
    classify ("README.md" ∷ "nabla/app.py" ∷ []) ≡ scope_of ("README.md" ∷ "nabla/app.py" ∷ [])
classify-scope_of_example = classify-scope_of "README.md" ("nabla/app.py" ∷ [])
