-- ===== src/Lint/Merge.antt =====
-- pkg/command/lint/merge.go: one lint context out of those of all directories.
pub mod Whole
use gwlint.Prelude.{List, [], ◌∷◌, ◌++◌}
use gwlint.Api.{Object, InvalidObject, LintContext}

-- The loop, from the context merged so far.
unfoldable pub merge_onto : LintContext → List LintContext → LintContext
merge_onto merged [] = merged
merge_onto merged (ctx ∷ contexts) =
    merge_onto
      (record {
        objects = merged.objects ++ ctx.objects;
        invalid_objects = merged.invalid_objects ++ ctx.invalid_objects;
      })
      contexts

unfoldable pub merge_contexts : List LintContext → LintContext
unfolding merge_onto
merge_contexts contexts = merge_onto (record { objects = []; invalid_objects = [] }) contexts
