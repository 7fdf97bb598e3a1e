-- ===== src/Lint/Merge/Whole.antt =====
-- The merged context has all of every directory.
use gwlint.Prelude.{List, [], ◌∷◌, ◌++◌, ◌≡◌, sym, ◌∙◌, flat_map, append_assoc, append-nil}
use gwlint.Api.{LintContext}
use gwlint.Lint.Merge.{merge_onto, merge_contexts}

-- The objects and the invalid objects of the context are these.
abbrev pub Holds : LintContext → LintContext → List LintContext → Type 0
Holds merged start contexts =
    (merged.objects ≡ start.objects ++ flat_map (λ ctx. ctx.objects) contexts)
    × (merged.invalid_objects
        ≡ start.invalid_objects ++ flat_map (λ ctx. ctx.invalid_objects) contexts)

merge_onto-Holds :
    (start : LintContext) (contexts : List LintContext)
    → Holds (merge_onto start contexts) start contexts
unfolding merge_onto
merge_onto-Holds start [] = (sym (append-nil start.objects), sym (append-nil start.invalid_objects))
merge_onto-Holds start (ctx ∷ contexts) =
    let (objects, invalid) = merge_onto-Holds _ contexts in
    (
      objects ∙ append_assoc start.objects ctx.objects _,
      invalid ∙ append_assoc start.invalid_objects ctx.invalid_objects _,
    )

-- The merged context has the objects of every context, those of an earlier context first, and in
-- the same way their invalid objects.
pub merge_contexts-flat_map :
    (contexts : List LintContext)
    → ((merge_contexts contexts).objects ≡ flat_map (λ ctx. ctx.objects) contexts)
      × ((merge_contexts contexts).invalid_objects ≡ flat_map (λ ctx. ctx.invalid_objects) contexts)
unfolding merge_contexts
merge_contexts-flat_map contexts = merge_onto-Holds _ contexts
