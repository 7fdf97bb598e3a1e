-- ===== src/Tests/Exit.antt =====
-- The command on one manifest set: a run that finds nothing and one output that is full.
use gwlint.Prelude.{
  String, none, some, List, [], ◌∷◌, true, false, ◌≡◌, ◌↔◌, inr, refl, All, ◌==◌, if◌then◌else◌,
}
use gwlint.Prelude.Tests.{string_eq}
use gwlint.Lint.Merge.{merge_contexts}
use gwlint.Lint.Command.{Environment, Flags, LintResult, report, result_of, run_e}
use gwlint.Lint.Command.Exit.{idle, Leads, Succeeds, report-Leads, run_e-error}
use gwlint.Tests.Sample.{context}

-- The reports are texts.
abbrev machine : Environment String
machine = record {
  load_into = none;
  list = inr ("dangling-parent-ref" ∷ []);
  get_absolute_path = λ path. inr path;
  create_contexts = λ paths. inr (context ∷ []);
  run = λ ctx names. inr [];
  version = "v1";
  load = λ name. none;
  gvk_of = λ obj. record { group = ""; version = "v1"; kind = "Service" };
  pair_formats_outputs = λ formats outputs. inr (("plain", "out.txt") ∷ ("json", "full.json") ∷ []);
  no_formatter = λ format. none;
  open_fails = λ output. none;
  format_fails = λ format output result. if output == "full.json" then some "no space" else none;
  close_fails = λ output. none;
}

abbrev flags : Flags
flags = record {
  fail_if_no_objects = true;
  verbose = false;
  formats = "plain" ∷ "json" ∷ [];
  outputs = "out.txt" ∷ "full.json" ∷ [];
}

abbrev pairs : List (String × String)
pairs = ("plain", "out.txt") ∷ ("json", "full.json") ∷ []

abbrev no_reports : List String
no_reports = []

abbrev result : LintResult String
result = result_of machine (merge_contexts (context ∷ [])) ("dangling-parent-ref" ∷ []) no_reports

report-Leads_example : Leads idle (report machine result pairs).events idle
report-Leads_example = report-Leads machine result pairs

run_e-error_example :
    ((run_e machine flags ("all.yaml" ∷ [])).error ≡ none)
    ↔ (All (Succeeds machine result) pairs × (no_reports ≡ []))
unfolding merge_contexts
run_e-error_example =
    run_e-error machine flags ("all.yaml" ∷ []) "dangling-parent-ref" [] ("all.yaml" ∷ [])
      (context ∷ []) no_reports pairs refl refl refl refl refl refl refl
