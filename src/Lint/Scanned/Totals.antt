-- ===== src/Lint/Scanned/Totals.antt =====
-- What the numbers of the summary add up to.
use gwlint.Prelude.{
  ℕ, suc, ◌+◌, ◌≤◌, String, List, [], ◌∷◌, ◌++◌, Bool, true, false, ◌==◌, ◌&&◌, ◌≡◌, ◌∙◌, inl, inr,
  refl, ap, arith, any, length, flat_map, if◌then◌else◌, Bool-cases, Counts, count_of, increment,
  count_of-increment, length-add,
}
use gwlint.Prelude.Tests.{string_eq}
use gwlint.Api.{K8sObject, Object, InvalidObject, LintContext}
use gwlint.Lint.Scanned.{
  Gvk, Check, ScanSummary, Scan, add_path, checked_once, scan_object, scan_objects, scan_invalid,
  scan_contexts, empty_scan, summarize,
}

-- All that was counted, whatever the kind.
abbrev pub total : Counts → ℕ
total [] = 0
total ((k, n) ∷ counts) = n + total counts

total-increment : (k : String) (counts : Counts) → total (increment k counts) ≡ suc (total counts)
total-increment k [] = ground arith
total-increment k ((j, n) ∷ counts) = ground (arith, total-increment k counts)

length-add_path :
    (path : String) (paths : List String) → length (add_path path paths) ≤ length paths + 1
length-add_path path paths = elim (Bool-cases (path == "")) [
  | inl e ↦ rw e (omega arith)
  | inr e ↦ rw e (length-add path paths)
]

-- The summary in the making: no object is counted as checked twice, those checked are counted by
-- kind, and every path is that of some object.
pub record Consistent (scan : Scan) : Type 0 where
  pub checked : scan.summary.checked ≤ scan.summary.objects
  pub by_kind : total scan.summary.checked_by_kind ≡ scan.summary.checked
  pub paths : length scan.paths ≤ scan.summary.objects + scan.summary.unparsed

module _ (gvk_of : K8sObject → Gvk) (checks : List Check) where
  -- Some check matches the object.
  abbrev pub is_checked : Object → Bool
  is_checked obj = any (λ c. c.matches (gvk_of obj.k8s_object)) checks

  counted :
      (b : Bool) (gvk : Gvk) (scan : Scan) (path : String)
      → Consistent scan
      → Consistent (record {
        summary =
            if b
            then checked_once gvk (record scan.summary { objects = scan.summary.objects + 1 })
            else record scan.summary { objects = scan.summary.objects + 1 };
        paths = add_path path scan.paths;
      })
  counted true gvk scan path ok = record {
    checked = (let c = ok.checked in omega arith);
    by_kind =
        total-increment gvk.kind scan.summary.checked_by_kind ∙ (let k = ok.by_kind in omega arith);
    paths = (let p = ok.paths in let more = length-add_path path scan.paths in omega arith);
  }
  counted false gvk scan path ok = record {
    checked = (let c = ok.checked in omega arith);
    by_kind = ok.by_kind;
    paths = (let p = ok.paths in let more = length-add_path path scan.paths in omega arith);
  }

  scan_objects-Consistent :
      (objs : List Object) (scan : Scan)
      → Consistent scan
      → Consistent (scan_objects gvk_of checks objs scan)
  unfolding scan_objects scan_object
  scan_objects-Consistent [] scan ok = ok
  scan_objects-Consistent (obj ∷ objs) scan ok =
      scan_objects-Consistent objs (scan_object gvk_of checks obj scan)
        (counted (is_checked obj) (gvk_of obj.k8s_object) scan obj.file_path ok)

  scan_invalid-Consistent :
      (objs : List InvalidObject) (scan : Scan)
      → Consistent scan
      → Consistent (scan_invalid gvk_of checks objs scan)
  unfolding scan_invalid
  scan_invalid-Consistent [] scan ok = ok
  scan_invalid-Consistent (obj ∷ objs) scan ok = scan_invalid-Consistent objs _ (record {
    checked = ok.checked;
    by_kind = ok.by_kind;
    paths =
        (let p = ok.paths in let more = length-add_path obj.file_path scan.paths in omega arith);
  })

  -- Scanning the contexts keeps a summary consistent: of what was consistent before, no more objects
  -- are counted as checked than as loaded, the counts by kind add up to those checked, and there are
  -- at most as many paths as objects, loaded or not.
  pub scan_contexts-Consistent :
      (contexts : List LintContext) (scan : Scan)
      → Consistent scan
      → Consistent (scan_contexts gvk_of checks contexts scan)
  unfolding scan_contexts
  scan_contexts-Consistent [] scan ok = ok
  scan_contexts-Consistent (ctx ∷ contexts) scan ok =
      scan_contexts-Consistent contexts _ (
        scan_invalid-Consistent ctx.invalid_objects _ (scan_objects-Consistent ctx.objects scan ok))

  pub empty_scan-Consistent : Consistent (empty_scan gvk_of checks)
  empty_scan-Consistent = record { checked = omega arith; by_kind = refl; paths = omega arith }

  -- A summary counts no more objects as checked than as loaded, its counts by kind add up to those
  -- checked, and it counts at most as many files as objects, loaded or not.
  pub summarize_bounds :
      (contexts : List LintContext)
      → let s = summarize gvk_of checks contexts in
        (s.checked ≤ s.objects)
        × (total s.checked_by_kind ≡ s.checked)
        × (s.files ≤ s.objects + s.unparsed)
  unfolding summarize
  summarize_bounds contexts =
      let ok = scan_contexts-Consistent contexts _ empty_scan-Consistent in
      (ok.checked, ok.by_kind, ok.paths)

  -- How many objects of the kind some check matches.
  abbrev pub matched : String → List Object → ℕ
  matched kind [] = 0
  matched kind (obj ∷ objs) =
      (if is_checked obj && (gvk_of obj.k8s_object).kind == kind then 1 else 0) + matched kind objs

  matched-append :
      (kind : String) (xs ys : List Object)
      → matched kind (xs ++ ys) ≡ matched kind xs + matched kind ys
  matched-append kind [] ys = omega arith
  matched-append kind (x ∷ xs) ys = ground (arith, matched-append kind xs ys)

  count_checked_kind :
      (b : Bool) (gvk : Gvk) (s : ScanSummary) (kind : String)
      → count_of kind (if b then checked_once gvk s else s).checked_by_kind
        ≡ count_of kind s.checked_by_kind + (if b && gvk.kind == kind then 1 else 0)
  count_checked_kind true gvk s kind = count_of-increment kind gvk.kind s.checked_by_kind
  count_checked_kind false gvk s kind = omega arith

  scan_objects-count :
      (kind : String) (objs : List Object) (scan : Scan)
      → count_of kind (scan_objects gvk_of checks objs scan).summary.checked_by_kind
        ≡ count_of kind scan.summary.checked_by_kind + matched kind objs
  unfolding scan_objects scan_object
  scan_objects-count kind [] scan = omega arith
  scan_objects-count kind (obj ∷ objs) scan =
      scan_objects-count kind objs (scan_object gvk_of checks obj scan)
      ∙ (let here =
            count_checked_kind (is_checked obj) (gvk_of obj.k8s_object)
              (record scan.summary { objects = scan.summary.objects + 1 }) kind in
          ap (λ n. n + matched kind objs) here ∙ omega arith)

  scan_invalid-kinds :
      (objs : List InvalidObject) (scan : Scan)
      → (scan_invalid gvk_of checks objs scan).summary.checked_by_kind
        ≡ scan.summary.checked_by_kind
  unfolding scan_invalid
  scan_invalid-kinds [] scan = refl
  scan_invalid-kinds (obj ∷ objs) scan = scan_invalid-kinds objs _

  scan_contexts-count :
      (kind : String) (contexts : List LintContext) (scan : Scan)
      → count_of kind (scan_contexts gvk_of checks contexts scan).summary.checked_by_kind
        ≡ count_of kind scan.summary.checked_by_kind
          + matched kind (flat_map (λ ctx. ctx.objects) contexts)
  unfolding scan_contexts
  scan_contexts-count kind [] scan = omega arith
  scan_contexts-count kind (ctx ∷ contexts) scan =
      let objects = scan_objects-count kind ctx.objects scan in
      let invalid =
        scan_invalid-kinds ctx.invalid_objects (scan_objects gvk_of checks ctx.objects scan) in
      scan_contexts-count kind contexts _
      ∙ (let split = matched-append kind ctx.objects (flat_map (λ c. c.objects) contexts) in
          let same = ap (count_of kind) invalid in omega arith)

  -- Under each kind, a summary counts the objects of that kind which some check matches, each once.
  pub summarize-count :
      (contexts : List LintContext) (kind : String)
      → count_of kind (summarize gvk_of checks contexts).checked_by_kind
        ≡ matched kind (flat_map (λ ctx. ctx.objects) contexts)
  unfolding summarize
  summarize-count contexts kind =
      scan_contexts-count kind contexts (empty_scan gvk_of checks) ∙ omega arith
