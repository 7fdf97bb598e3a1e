-- ===== src/Lint/Scanned.antt =====
-- pkg/command/lint/scanned.go. What an object's GroupVersionKind is, and which ones a check of
-- kube-linter matches, is known to kube-linter: the first is a parameter, and the second a field of
-- the check.
pub mod Totals
use gwlint.Prelude.{
  ℕ, zero, suc, ◌+◌, String, Option, none, some, List, [], ◌∷◌, ◌++◌, Bool, true, false, not, ◌==◌,
  map, any, length, flat_map, if◌then◌else◌, Counts, count_of, increment, add, add_all, str_less,
  sort, sort_strings, Text, lit, dec,
}
use gwlint.Prelude.Tests.{string_eq, nat_eq, ltb}
use gwlint.Api.{K8sObject, Object, InvalidObject, LintContext}

pub record Gvk : Type 0 where
  pub group : String
  pub version : String
  pub kind : String

-- What is read of an instantiatedcheck.InstantiatedCheck.
pub record Check : Type 0 where
  pub object_kinds : List String
  pub matches : Gvk → Bool

-- scanSummary. `looks_for` is in order.
pub record ScanSummary : Type 0 where
  pub objects : ℕ
  pub files : ℕ
  pub checked : ℕ
  pub checked_by_kind : Counts
  pub looks_for : List String
  pub unparsed : ℕ

-- The summary in the making, and the set of the paths.
pub record Scan : Type 0 where
  pub summary : ScanSummary
  pub paths : List String

abbrev pub add_path : String → List String → List String
add_path path paths = if not (path == "") then add path paths else paths

unfoldable pub looks_for_of : List Check → List String
looks_for_of checks = sort_strings (add_all (flat_map (λ c. c.object_kinds) checks) [])

abbrev pub checked_once : Gvk → ScanSummary → ScanSummary
checked_once gvk s = record s {
  checked = s.checked + 1;
  checked_by_kind = increment gvk.kind s.checked_by_kind;
}

-- The loop over the checks, which leaves with `break` at the first that matches.
abbrev pub count_checked : Gvk → List Check → ScanSummary → ScanSummary
count_checked gvk checks s = if any (λ c. c.matches gvk) checks then checked_once gvk s else s

module _ (gvk_of : K8sObject → Gvk) (checks : List Check) where
  -- The body of the loop over the objects.
  unfoldable pub scan_object : Object → Scan → Scan
  scan_object obj scan = record {
    summary =
        count_checked (gvk_of obj.k8s_object) checks
          (record scan.summary { objects = scan.summary.objects + 1 });
    paths = add_path obj.file_path scan.paths;
  }

  unfoldable pub scan_objects : List Object → Scan → Scan
  unfolding scan_object
  scan_objects [] scan = scan
  scan_objects (obj ∷ objs) scan = scan_objects objs (scan_object obj scan)

  -- The body of the loop over the invalid objects.
  unfoldable pub scan_invalid : List InvalidObject → Scan → Scan
  scan_invalid [] scan = scan
  scan_invalid (obj ∷ objs) scan = scan_invalid objs (record {
    summary = record scan.summary { unparsed = scan.summary.unparsed + 1 };
    paths = add_path obj.file_path scan.paths;
  })

  unfoldable pub scan_contexts : List LintContext → Scan → Scan
  unfolding scan_objects scan_invalid
  scan_contexts [] scan = scan
  scan_contexts (ctx ∷ contexts) scan =
      scan_contexts contexts (scan_invalid ctx.invalid_objects (scan_objects ctx.objects scan))

  abbrev pub empty_scan : Scan
  empty_scan = record {
    summary = record {
      objects = 0;
      files = 0;
      checked = 0;
      checked_by_kind = [];
      looks_for = looks_for_of checks;
      unparsed = 0;
    };
    paths = [];
  }

  unfoldable pub summarize : List LintContext → ScanSummary
  unfolding scan_contexts looks_for_of
  summarize contexts =
      let scan = scan_contexts contexts empty_scan in
      record scan.summary { files = length scan.paths }

abbrev pub object_noun : ℕ → String
object_noun n = if n == 1 then "object" else "objects"

abbrev pub plural : ℕ → String → String → Text
plural n one many = dec n ∷ lit " " ∷ lit (if n == 1 then one else many) ∷ []

abbrev pub were : ℕ → String
were n = if n == 1 then "was" else "were"

abbrev sole_kind : Counts → Text
sole_kind [] = []
sole_kind ((kind, n) ∷ counts) = dec n ∷ lit " " ∷ lit kind ∷ lit " " ∷ lit (object_noun n) ∷ []

-- The commonest first, and then by name.
abbrev pub commoner : Counts → String → String → Bool
commoner counts a b =
    if not (count_of a counts == count_of b counts)
    then ltb (count_of b counts) (count_of a counts)
    else str_less a b

abbrev list_kinds : Counts → List String → Text
list_kinds counts [] = []
list_kinds counts (k ∷ []) = dec (count_of k counts) ∷ lit " " ∷ lit k ∷ []
list_kinds counts (k ∷ l ∷ ks) =
    dec (count_of k counts) ∷ lit " " ∷ lit k ∷ lit ", " ∷ list_kinds counts (l ∷ ks)

unfoldable pub by_kind : Counts → Text
unfolding str_less
by_kind counts = list_kinds counts (sort (commoner counts) (map (λ c. c.0) counts))

abbrev enumerate : List String → Text
enumerate [] = []
enumerate (k ∷ []) = lit k ∷ []
enumerate (k ∷ l ∷ []) = lit k ∷ lit " or " ∷ lit l ∷ []
enumerate (k ∷ l ∷ m ∷ ks) = lit k ∷ lit ", " ∷ enumerate (l ∷ m ∷ ks)

abbrev pub join_kinds : List String → Text
join_kinds [] = lit "checkable objects" ∷ []
join_kinds (k ∷ ks) = enumerate (k ∷ ks) ++ lit " objects" ∷ []

abbrev loaded_text : ScanSummary → Text
loaded_text s =
    plural s.objects "object" "objects" ++ lit " loaded from " ∷ plural s.files "file" "files"

abbrev checked_line : ScanSummary → Text
checked_line s =
    if s.checked == 0
    then lit "No "
      ∷ (join_kinds s.looks_for
          ++ lit " found, so nothing was checked (" ∷ (loaded_text s ++ lit ")." ∷ []))
    else if length s.checked_by_kind == 1
    then lit "Checked "
      ∷ (sole_kind s.checked_by_kind ++ lit " (" ∷ (loaded_text s ++ lit ")." ∷ []))
    else lit "Checked "
      ∷ (plural s.checked "object" "objects"
          ++ lit ": " ∷ (by_kind s.checked_by_kind ++ lit " (" ∷ (loaded_text s ++ lit ")." ∷ [])))

abbrev unparsed_text : ℕ → Text
unparsed_text n =
    if n == 0
    then []
    else lit " "
      ∷ (plural n "object" "objects"
          ++ lit " could not be parsed and "
            ∷ lit (were n)
            ∷ lit " not checked; re-run with --verbose to see them."
            ∷ [])

-- scanSummary.String
unfoldable pub render : ScanSummary → Text
unfolding by_kind
render s = checked_line s ++ unparsed_text s.unparsed
