-- ===== src/Lint/Command.antt =====
-- pkg/command/lint/command.go: what the command does between its flags and its exit. What it calls
-- of kube-linter, of the file system and of pkg/builtinchecks, pkg/decoder and pkg/version is the
-- environment: a call that can fail gives its error on the left. Texts on standard error are a log,
-- and what happens to the outputs is a list of events.
pub mod Exit
use gwlint.Prelude.{
  ℕ, String, Option, none, some, List, [], ◌∷◌, ◌++◌, Bool, true, false, ◌==◌, ◌⊎◌, inl, inr,
  is_empty, length, any, map, flat_map, filter_map, if◌then◌else◌, Text, lit, consider,
}
use gwlint.Prelude.Tests.{string_eq}
use gwlint.Api.{K8sObject, InvalidObject, LintContext}
use gwlint.Lint.Merge.{merge_contexts}
use gwlint.Lint.Scanned.{Gvk, Check, ScanSummary, summarize}

-- lintResult, with what is read or set of run.Result.
pub record LintResult (Report : Type 0) : Type 0 where
  pub reports : List Report
  pub version : String
  pub scanned : ScanSummary

pub record Environment (Report : Type 0) : Type 0 where
  pub load_into : Option String
  pub list : String ⊎ List String
  pub get_absolute_path : String → String ⊎ String
  pub create_contexts : List String → String ⊎ List LintContext
  pub run : LintContext → List String → String ⊎ List Report
  pub version : String
  pub load : String → Option Check
  pub gvk_of : K8sObject → Gvk
  pub pair_formats_outputs : List String → List String → String ⊎ List (String × String)
  -- The error of FormatterByType for a format, of NewOutputDestination for an output, of the
  -- formatter on both, and of Close.
  pub no_formatter : String → Option String
  pub open_fails : String → Option String
  pub format_fails : String → String → LintResult Report → Option String
  pub close_fails : String → Option String

pub record Flags : Type 0 where
  pub fail_if_no_objects : Bool
  pub verbose : Bool
  pub formats : List String
  pub outputs : List String

pub data OutputEvent : Type 0 where
  opened formatted closed : String → OutputEvent

-- The error of one output, with the format and the error that it wraps.
pub data WriteError : Type 0 where
  cannot_open cannot_format cannot_close : String → String → WriteError

pub data Failure : Type 0 where
  -- An error that is passed on.
  passed_on : String → Failure
  no_valid_objects : Failure
  -- How many of how many outputs, and why.
  write_failed : ℕ → ℕ → List WriteError → Failure
  lint_errors : ℕ → Failure

pub record Written : Type 0 where
  pub events : List OutputEvent
  pub errors : List WriteError

pub record Outcome : Type 0 where
  pub log : List Text
  pub events : List OutputEvent
  pub error : Option Failure

abbrev failing : Failure → Outcome
failing f = record { log = []; events = []; error = some f }

abbrev close_error : String → Option String → Option WriteError
close_error format none = none
close_error format (some err) = some (cannot_close format err)

-- A formatter's error hides the one of Close.
abbrev pub write_error : String → Option String → Option String → Option WriteError
write_error format none close = close_error format close
write_error format (some err) close = some (cannot_format format err)

module _ {Report : Type 0} (env : Environment Report) where
  -- The body of the loop over the pairs, once there is a formatter.
  abbrev pub write_opened : LintResult Report → String → String → Option String → Written → Written
  write_opened result format output (some err) w = record w {
    errors = w.errors ++ cannot_open format err ∷ [];
  }
  write_opened result format output none w = record {
    events = w.events ++ opened output ∷ formatted output ∷ closed output ∷ [];
    errors =
        w.errors
        ++ consider
            (write_error format (env.format_fails format output result) (env.close_fails output))
            [];
  }

  abbrev pub write_pair : LintResult Report → String × String → Written → Written
  write_pair result (format, output) w = write_opened result format output (env.open_fails output) w

  -- The loop, which returns where a format has no formatter.
  unfoldable pub write_all :
      LintResult Report → List (String × String) → Written → Written × Option String
  write_all result [] w = (w, none)
  write_all result (pair ∷ pairs) w =
      let rest = write_all result pairs (write_pair result pair w) in
      elim (env.no_formatter pair.0) [ none ↦ rest | some err ↦ (w, some err) ]

  abbrev pub conclude : LintResult Report → ℕ → List WriteError → Option Failure
  conclude result n [] =
      if is_empty result.reports then none else some (lint_errors (length result.reports))
  conclude result n (e ∷ errors) = some (write_failed (length (e ∷ errors)) n (e ∷ errors))

  abbrev pub finish : LintResult Report → ℕ → Written × Option String → Outcome
  finish result n (w, none) = record {
    log = [];
    events = w.events;
    error = conclude result n w.errors;
  }
  finish result n (w, some err) = record {
    log = [];
    events = w.events;
    error = some (passed_on err);
  }

  -- From the pairs of formats and outputs on.
  unfoldable pub report : LintResult Report → List (String × String) → Outcome
  unfolding write_all
  report result pairs =
      finish result (length pairs) (write_all result pairs (record { events = []; errors = [] }))

  abbrev pub result_of : LintContext → List String → List Report → LintResult Report
  result_of ctx enabled reports = record {
    reports = reports;
    version = env.version;
    scanned = summarize env.gvk_of (filter_map env.load enabled) (ctx ∷ []);
  }

  abbrev report_pairs : LintResult Report → String ⊎ List (String × String) → Outcome
  report_pairs result (inl err) = failing (passed_on err)
  report_pairs result (inr pairs) = report result pairs

  abbrev report_run : Flags → LintContext → List String → String ⊎ List Report → Outcome
  report_run flags ctx enabled (inl err) = failing (passed_on err)
  report_run flags ctx enabled (inr reports) =
      report_pairs (result_of ctx enabled reports)
        (env.pair_formats_outputs flags.formats flags.outputs)

  abbrev load_warning : InvalidObject → Text
  load_warning obj =
      lit "Warning: failed to load object from "
      ∷ lit obj.file_path
      ∷ lit ": "
      ∷ lit obj.load_err
      ∷ []

  abbrev verbose_log : Flags → LintContext → List Text
  verbose_log flags ctx = if flags.verbose then map load_warning ctx.invalid_objects else []

  abbrev without_objects : Flags → Outcome
  without_objects flags = if flags.fail_if_no_objects then failing no_valid_objects else record {
    log = (lit "Warning: no valid objects found." ∷ []) ∷ [];
    events = [];
    error = none;
  }

  abbrev lint_context : Flags → LintContext → List String → Outcome
  lint_context flags ctx enabled =
      if is_empty ctx.objects
      then without_objects flags
      else report_run flags ctx enabled (env.run ctx enabled)

  abbrev lint_contexts : Flags → List String → String ⊎ List LintContext → Outcome
  lint_contexts flags enabled (inl err) = failing (passed_on err)
  lint_contexts flags enabled (inr contexts) =
      let outcome = lint_context flags (merge_contexts contexts) enabled in
      record outcome { log = verbose_log flags (merge_contexts contexts) ++ outcome.log }

  -- The loop over the arguments; "-" is lintcontext.ReadFromStdin.
  abbrev path_of : String → String ⊎ String
  path_of arg = if arg == "-" then inr "-" else env.get_absolute_path arg

  abbrev add_argument : String ⊎ String → String ⊎ List String → String ⊎ List String
  add_argument (inl err) rest = inl err
  add_argument (inr path) (inl err) = inl err
  add_argument (inr path) (inr paths) = inr (path ∷ paths)

  abbrev pub absolute_args : List String → String ⊎ List String
  absolute_args [] = inr []
  absolute_args (arg ∷ args) = add_argument (path_of arg) (absolute_args args)

  abbrev lint_args : Flags → List String → String ⊎ List String → Outcome
  lint_args flags enabled (inl err) = failing (passed_on err)
  lint_args flags enabled (inr paths) = lint_contexts flags enabled (env.create_contexts paths)

  abbrev lint_checks : Flags → List String → String ⊎ List String → Outcome
  lint_checks flags args (inl err) = failing (passed_on err)
  lint_checks flags args (inr []) = record {
    log = (lit "Warning: no checks enabled." ∷ []) ∷ [];
    events = [];
    error = none;
  }
  lint_checks flags args (inr (name ∷ names)) = lint_args flags (name ∷ names) (absolute_args args)

  abbrev lint_loaded : Flags → List String → Option String → Outcome
  lint_loaded flags args (some err) = failing (passed_on err)
  lint_loaded flags args none = lint_checks flags args env.list

  -- RunE
  unfoldable pub run_e : Flags → List String → Outcome
  run_e flags args = lint_loaded flags args env.load_into
