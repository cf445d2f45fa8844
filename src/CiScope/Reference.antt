-- ===== src/CiScope/Reference.antt =====
-- scripts/ci_scope.py: the loop over the changed files against what each file asks for by itself.
use fastapi_sample.Prelude.{
  String, ◌≡◌, Bool, not, ◌&&◌, ◌||◌, List, [], ◌∷◌, any, all, length, if◌then◌else◌, arith,
}
use fastapi_sample.CiScope.{
  full, quality, no_mode, Scope, is_docs_path, is_quality_maintenance_path,
  is_security_non_deployable_path, is_test_path, Flags, first_flags, note_path, note_paths, mode_of,
  classify,
}

-- What one changed file is, in the order in which the kinds take precedence.
abbrev pub is_maintenance : String → Bool
is_maintenance path = is_quality_maintenance_path path || is_docs_path path

abbrev pub is_security : String → Bool
is_security path = not (is_maintenance path) && is_security_non_deployable_path path

abbrev pub is_test : String → Bool
is_test path =
    not (is_maintenance path) && not (is_security_non_deployable_path path) && is_test_path path

abbrev pub is_application : String → Bool
is_application path =
    not (is_maintenance path)
    && not (is_security_non_deployable_path path)
    && not (is_test_path path)

-- The flags after the loop.
record AreFlags (paths : List String) (f g : Flags) : Type 0 where
  pub maintenance_only : g.maintenance_only ≡ (f.maintenance_only && all is_maintenance paths)
  pub application : g.application ≡ (f.application || any is_application paths)
  pub sast : g.sast ≡ (f.sast || not (all is_maintenance paths))
  pub build : g.build ≡ (f.build || any is_application paths)
  pub dependencies :
      g.dependencies ≡ (f.dependencies || (any is_test paths || any is_application paths))
  pub quality_contract :
      g.quality_contract
      ≡ (f.quality_contract || (any is_quality_maintenance_path paths || any is_security paths))

note_paths-AreFlags : (paths : List String) (f : Flags) → AreFlags paths f (note_paths paths f)
unfolding note_paths note_path
note_paths-AreFlags [] f = record {
  maintenance_only = ground arith;
  application = ground arith;
  sast = ground arith;
  build = ground arith;
  dependencies = ground arith;
  quality_contract = ground arith;
}
note_paths-AreFlags (path ∷ paths) f =
    let rest = note_paths-AreFlags paths (note_path path f) in
    record {
      maintenance_only = ground (arith, rest.maintenance_only);
      application = ground (arith, rest.application);
      sast = ground (arith, rest.sast);
      build = ground (arith, rest.build);
      dependencies = ground (arith, rest.dependencies);
      quality_contract = ground (arith, rest.quality_contract);
    }

-- What the files ask for, each by itself.
unfoldable pub scope_of : List String → Scope
scope_of paths =
    let application = any is_application paths in
    let dependencies = any is_test paths || application in
    record {
      maintenance_only = all is_maintenance paths;
      application = application;
      sast = not (all is_maintenance paths);
      build = application;
      dependencies = dependencies;
      dependency_mode =
          if dependencies
          then full
          else if any is_quality_maintenance_path paths || any is_security paths
          then quality
          else no_mode;
      changed_count = length paths;
    }

-- The scope of one changed file or more is what the files ask for, each by itself: an application
-- file asks for every job, a test for the security scan and the dependencies, a workflow file for
-- the scan, and only a change of nothing but documents and quality files is maintenance.
pub classify-scope_of :
    (path : String) (paths : List String) → classify (path ∷ paths) ≡ scope_of (path ∷ paths)
unfolding classify scope_of mode_of
classify-scope_of path paths =
    let r = note_paths-AreFlags (path ∷ paths) first_flags in
    rw (r.maintenance_only, r.application, r.sast, r.build, r.dependencies, r.quality_contract)
      (ground arith)
