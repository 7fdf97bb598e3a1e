-- ===== src/Lint/Command/Exit.antt =====
-- How the command ends, and what becomes of its outputs.
use mathlib.Core.Bool.{false≢true}
use gwlint.Prelude.{
  ℕ, String, Option, none, some, List, [], ◌∷◌, ◌++◌, true, false, ◌≡◌, ◌↔◌, inl, inr, refl, sym,
  ◌∙◌, is_empty, All, Option-cases, Bool-cases, consider, length,
}
use mathlib.Core.Path.{subst}
use gwlint.Api.{LintContext}
use gwlint.Lint.Merge.{merge_contexts}
use gwlint.Lint.Command.{
  opened, formatted, closed, LintResult, Environment, Written, WriteError, OutputEvent, write_error,
  write_pair, write_all, write_opened, conclude, finish, report, Flags, absolute_args, result_of,
  run_e,
}

nonempty_append : (xs ys : List WriteError) → (xs ++ ys ≡ []) ↔ ((xs ≡ []) × (ys ≡ []))
nonempty_append [] ys = (λ h. (refl, h), λ (_, h). h)
nonempty_append (x ∷ xs) ys = (λ h. cc, λ (h, _). cc)

-- Neither the formatter nor Close fails.
no_error :
    (format : String) (f c : Option String)
    → (consider (write_error format f c) [] ≡ []) ↔ ((f ≡ none) × (c ≡ none))
no_error format none none = (λ h. (refl, refl), λ h. refl)
no_error format none (some err) = (λ h. cc, λ (_, h). cc)
no_error format (some err) c = (λ h. cc, λ (h, _). cc)

module _ {Report : Type 0} (env : Environment Report) (result : LintResult Report) where
  -- The format has a formatter, and the output is opened, written and closed without an error.
  abbrev pub Succeeds : String × String → Type 0
  Succeeds pair =
      (env.no_formatter pair.0 ≡ none)
      × (env.open_fails pair.1 ≡ none)
      × (env.format_fails pair.0 pair.1 result ≡ none)
      × (env.close_fails pair.1 ≡ none)

  -- The loop ended without an error.
  abbrev Clean : Written × Option String → Type 0
  Clean out = (out.1 ≡ none) × (out.0.errors ≡ [])

  pair_iff :
      (pair : String × String) (w : Written)
      → ((write_pair env result pair w).errors ≡ []) ↔ (
          (w.errors ≡ [])
          × ((env.open_fails pair.1 ≡ none)
              × (env.format_fails pair.0 pair.1 result ≡ none)
              × (env.close_fails pair.1 ≡ none)))
  pair_iff pair w = opened_iff (env.open_fails pair.1)
    where
      opened_iff :
          (o : Option String)
          → ((write_opened env result pair.0 pair.1 o w).errors ≡ []) ↔ (
              (w.errors ≡ [])
              × ((o ≡ none)
                  × (env.format_fails pair.0 pair.1 result ≡ none)
                  × (env.close_fails pair.1 ≡ none)))
      opened_iff (some err) =
          (λ h. (let (_, k) = (nonempty_append w.errors _).0 h in cc), λ (_, (k, _, _)). cc)
      opened_iff none =
          let (split, join) = nonempty_append w.errors (
            consider
              (write_error pair.0 (env.format_fails pair.0 pair.1 result) (env.close_fails pair.1))
              []) in
          let (clean, unclean) =
            no_error pair.0 (env.format_fails pair.0 pair.1 result) (env.close_fails pair.1) in
          (
            λ h. let (a, b) = split h in let (f, c) = clean b in (a, (refl, f, c)),
            λ (a, (_, f, c)). join (a, unclean (f, c)),
          )

  write_all_iff :
      (pairs : List (String × String)) (w : Written)
      → Clean (write_all env result pairs w) ↔ ((w.errors ≡ []) × All Succeeds pairs)
  unfolding write_all
  write_all_iff [] w = (λ (_, e). (e, tt), λ (e, _). (refl, e))
  write_all_iff (pair ∷ pairs) w =
      let (forth, back) = write_all_iff pairs (write_pair env result pair w) in
      let (clean, unclean) = pair_iff pair w in
      elim (Option-cases (env.no_formatter pair.0)) [
        | inl e ↦
            rw (write_all, e)
              (
                λ h.
                    let (w_clean, rest) = forth h in
                    let (a, (o, f, c)) = clean w_clean in (a, ((refl, o, f, c), rest)),
                λ (a, ((_, o, f, c), rest)). back (unclean (a, (o, f, c)), rest),
              )
        | inr (err, e) ↦ rw (write_all, e) (λ (h, _). cc, λ (_, ((h, _, _, _), _)). cc)
      ]

  empty_iff : (rs : List Report) → (is_empty rs ≡ true) ↔ (rs ≡ [])
  empty_iff [] = (λ h. refl, λ h. refl)
  empty_iff (r ∷ rs) = (λ h. cc, λ h. cc)

  concluded :
      (n : ℕ) (errors : List WriteError)
      → (conclude env result n errors ≡ none) ↔ ((errors ≡ []) × (result.reports ≡ []))
  concluded n (e ∷ errors) = (λ h. cc, λ (h, _). cc)
  concluded n [] = elim (Bool-cases (is_empty result.reports)) [
    | inl e ↦ rw (conclude, e) (λ h. (refl, (empty_iff result.reports).0 e), λ h. refl)
    | inr e ↦
        rw (conclude, e)
          (λ h. cc, λ (_, k). absurd (false≢true (sym e ∙ (empty_iff result.reports).1 k)))
  ]

  finished :
      (n : ℕ) (out : Written × Option String)
      → ((finish env result n out).error ≡ none) ↔ (Clean out × (result.reports ≡ []))
  finished n (w, none) =
      let (forth, back) = concluded n w.errors in
      (λ h. let (a, b) = forth h in ((refl, a), b), λ ((_, a), b). back (a, b))
  finished n (w, some err) = (λ h. cc, λ ((h, _), _). cc)

  -- With a result and the pairs of formats and outputs, the command ends without an error exactly
  -- when every format has a formatter, every output is opened, written and closed without an error,
  -- and there are no reports.
  pub report_error_iff :
      (pairs : List (String × String))
      → ((report env result pairs).error ≡ none) ↔ (All Succeeds pairs × (result.reports ≡ []))
  unfolding report
  report_error_iff pairs =
      let (forth, back) = write_all_iff pairs (record { events = []; errors = [] }) in
      let (clean, unclean) =
        finished (length pairs)
          (write_all env result pairs (record { events = []; errors = [] })) in
      (
        λ h. let (out, empty) = clean h in ((forth out).1, empty),
        λ (written, empty). unclean (back (refl, written), empty),
      )

-- Whether an output is open, and whether it has been written.
pub data Phase : Type 0 where
  idle : Phase
  unwritten written : String → Phase

-- What an event does: an output is opened while none is open, written once while it is open, and
-- closed after that.
abbrev pub After : OutputEvent → Phase → Phase → Type 0
After (opened o) before now = (before ≡ idle) × (now ≡ unwritten o)
After (formatted o) before now = (before ≡ unwritten o) × (now ≡ written o)
After (closed o) before now = (before ≡ written o) × (now ≡ idle)

-- The events lead from one phase to the other.
abbrev pub Leads : Phase → List OutputEvent → Phase → Type 0
Leads before [] now = before ≡ now
Leads before (e ∷ events) now = (mid : Phase) × After e before mid × Leads mid events now

Leads-append :
    (a b c : Phase) (xs ys : List OutputEvent) → Leads a xs b → Leads b ys c → Leads a (xs ++ ys) c
Leads-append a b c [] ys h k = subst (λ s. Leads s ys c) (sym h) k
Leads-append a b c (x ∷ xs) ys (mid, e, h) k = (mid, e, Leads-append mid b c xs ys h k)

module _ {Report : Type 0} (env : Environment Report) (result : LintResult Report) where
  write_pair-Leads :
      (pair : String × String) (w : Written)
      → Leads idle w.events idle
      → Leads idle (write_pair env result pair w).events idle
  write_pair-Leads pair w h = through (env.open_fails pair.1)
    where
      through :
          (o : Option String) → Leads idle (write_opened env result pair.0 pair.1 o w).events idle
      through (some err) = h
      through none =
          Leads-append idle idle idle w.events
            (opened pair.1 ∷ formatted pair.1 ∷ closed pair.1 ∷ []) h
            (
              unwritten pair.1,
              (refl, refl),
              (written pair.1, (refl, refl), (idle, (refl, refl), refl)),
            )

  write_all-Leads :
      (pairs : List (String × String)) (w : Written)
      → Leads idle w.events idle
      → Leads idle (write_all env result pairs w).0.events idle
  unfolding write_all
  write_all-Leads [] w h = h
  write_all-Leads (pair ∷ pairs) w h = elim (Option-cases (env.no_formatter pair.0)) [
    | inl e ↦
        rw (write_all, e)
          (write_all-Leads pairs (write_pair env result pair w) (write_pair-Leads pair w h))
    | inr (err, e) ↦ rw (write_all, e) h
  ]

  -- Whatever fails, every output that the command opens is given to its formatter once, and then
  -- closed, before the next one is opened, and none is open at the end.
  pub report-Leads :
      (pairs : List (String × String)) → Leads idle (report env result pairs).events idle
  unfolding report
  report-Leads pairs =
      ended (length pairs) (write_all env result pairs (record { events = []; errors = [] }))
        (write_all-Leads pairs (record { events = []; errors = [] }) refl)
    where
      ended :
          (n : ℕ) (out : Written × Option String)
          → Leads idle out.0.events idle
          → Leads idle (finish env result n out).events idle
      ended n (w, none) h = h
      ended n (w, some err) h = h

module _ {Report : Type 0} (env : Environment Report) (flags : Flags) (args : List String)
    (name : String) (names paths : List String) (contexts : List LintContext)
    (reports : List Report) (pairs : List (String × String)) (loaded : env.load_into ≡ none)
    (listed : env.list ≡ inr (name ∷ names)) (found : absolute_args env args ≡ inr paths)
    (parsed : env.create_contexts paths ≡ inr contexts)
    (some_object : is_empty (merge_contexts contexts).objects ≡ false)
    (linted : env.run (merge_contexts contexts) (name ∷ names) ≡ inr reports)
    (paired : env.pair_formats_outputs flags.formats flags.outputs ≡ inr pairs) where
  outcome :
      (run_e env flags args).error
      ≡ (report env (result_of env (merge_contexts contexts) (name ∷ names) reports) pairs).error
  unfolding run_e
  outcome = rw (run_e, loaded, listed, found, parsed, some_object, linted, paired) refl

  -- Where the checks are loaded, the arguments are found, the manifests are parsed to some object,
  -- the run gives reports, and the formats fit the outputs, the command ends without an error exactly
  -- when there are no reports, every format has a formatter, and every output is opened, written and
  -- closed without an error.
  pub run_e-error : ((run_e env flags args).error ≡ none) ↔ (
      All (Succeeds env (result_of env (merge_contexts contexts) (name ∷ names) reports)) pairs
      × (reports ≡ []))
  run_e-error =
      let (forth, back) =
        report_error_iff env (result_of env (merge_contexts contexts) (name ∷ names) reports)
          pairs in
      (λ h. forth (sym outcome ∙ h), λ h. outcome ∙ back h)
