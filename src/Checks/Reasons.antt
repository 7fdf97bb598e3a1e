-- ===== src/Checks/Reasons.antt =====
-- The loop that route-not-permitted, protocol-mismatch and hostname-never-matches share: each
-- listener is passed over, ends the loop with no finding, or adds a reason; the reasons are joined.
use gwlint.Prelude.{
  iff_trans, All-mono, Any-mono, String, Option, none, some, List, [], ◌∷◌, ◌++◌, false, ◌≡◌, ◌≢◌,
  ◌↔◌, inl, inr, refl, Text, lit, quoted, dec, int, blank, join, All, Any, Any_of_All, arith,
}

pub data Verdict : Type 0 where
  -- `continue`, and `return ""`
  skip stop : Verdict
  report : Text → Verdict

abbrev pub IsReport : Verdict → Type 0
IsReport v = (t : Text) × (v ≡ report t)

abbrev add : Verdict → Option (List Text) → Option (List Text)
add skip rest = rest
add stop rest = none
add (report t) none = none
add (report t) (some ts) = some (t ∷ ts)

abbrev joined : String → Option (List Text) → Text
joined sep none = []
joined sep (some ts) = join sep ts

module _ {A : Type 0} (verdict : A → Verdict) where
  -- The reasons in order, or none after a `return ""`.
  unfoldable pub collect : List A → Option (List Text)
  collect [] = some []
  collect (x ∷ xs) = add (verdict x) (collect xs)

  -- What the loop's function returns.
  unfoldable pub reasons : String → List A → Text
  unfolding collect
  reasons sep xs = joined sep (collect xs)

blank-append : (t u : Text) → blank t ≡ false → blank (t ++ u) ≡ false
blank-append [] u h = cc
blank-append (lit s ∷ t) u h = ground (arith, blank-append t u)
blank-append (quoted s ∷ t) u h = refl
blank-append (dec n ∷ t) u h = refl
blank-append (int n ∷ t) u h = refl

blank-join :
    (sep : String) (t : Text) (ts : List Text) → blank t ≡ false → blank (join sep (t ∷ ts)) ≡ false
blank-join sep t [] h = h
blank-join sep t (u ∷ ts) h = blank-append t _ h

module _ {A : Type 0} (verdict : A → Verdict)
    (worded : (x : A) (t : Text) → verdict x ≡ report t → blank t ≡ false) where
  -- The loop over `xs` finds something to say.
  abbrev pub Speaks : List A → Type 0
  Speaks xs = All (λ x. verdict x ≢ stop) xs × Any (λ x. IsReport (verdict x)) xs

  -- What the collected reasons say of the elements.
  abbrev Collected : List A → Option (List Text) → Type 0
  Collected xs none = Any (λ x. verdict x ≡ stop) xs
  Collected xs (some []) = All (λ x. verdict x ≢ stop) xs × (¬ Any (λ x. IsReport (verdict x)) xs)
  Collected xs (some (t ∷ ts)) = Speaks xs × (blank t ≡ false)

  extend :
      (x : A) (xs : List A) (v : Verdict) (r : Option (List Text))
      → verdict x ≡ v
      → Collected xs r
      → Collected (x ∷ xs) (add v r)
  extend x xs skip none e h = inr h
  extend x xs skip (some []) e (free, quiet) =
      ((λ k. cc, free), elim [ inl (t, k) ↦ cc | inr k ↦ quiet k ])
  extend x xs skip (some (t ∷ ts)) e ((free, said), h) = (((λ k. cc, free), inr said), h)
  extend x xs stop r e h = inl e
  extend x xs (report t) none e h = inr h
  extend x xs (report t) (some []) e (free, quiet) = (((λ k. cc, free), inl (t, e)), worded x t e)
  extend x xs (report t) (some (u ∷ us)) e ((free, said), h) =
      (((λ k. cc, free), inl (t, e)), worded x t e)

  collect-Collected : (xs : List A) → Collected xs (collect verdict xs)
  unfolding collect
  collect-Collected [] = (tt, λ h. h)
  collect-Collected (x ∷ xs) =
      extend x xs (verdict x) (collect verdict xs) refl (collect-Collected xs)

  stopped_not_Speaks : (xs : List A) → Any (λ x. verdict x ≡ stop) xs → ¬ Speaks xs
  stopped_not_Speaks xs h (free, _) = let (x, f, e) = Any_of_All xs free h in f e

  joined_iff :
      (sep : String) (xs : List A) (r : Option (List Text))
      → Collected xs r
      → (blank (joined sep r) ≡ false) ↔ Speaks xs
  joined_iff sep xs none h = (λ k. cc, λ k. absurd (stopped_not_Speaks xs h k))
  joined_iff sep xs (some []) (free, quiet) = (λ k. cc, λ k. absurd (quiet k.1))
  joined_iff sep xs (some (t ∷ ts)) (said, h) = (λ _. said, λ _. blank-join sep t ts h)

  -- The loop returns a text that is not empty exactly when no element stops it and some element
  -- gives a reason.
  pub reasons_iff :
      (sep : String) (xs : List A) → (blank (reasons verdict sep xs) ≡ false) ↔ Speaks xs
  unfolding reasons
  reasons_iff sep xs = joined_iff sep xs (collect verdict xs) (collect-Collected xs)

  -- The same, with what stops the loop and what gives a reason said in other words.
  pub reasons_judged :
      (S R : A → Type 0)
      → ((x : A) → (verdict x ≡ stop) ↔ S x)
      → ((x : A) → IsReport (verdict x) ↔ R x)
      → (sep : String) (xs : List A)
      → (blank (reasons verdict sep xs) ≡ false) ↔ (All (λ x. ¬ S x) xs × Any R xs)
  reasons_judged S R stops reports sep xs = iff_trans (reasons_iff sep xs) (
    λ (free, said).
        (All-mono (λ x f s. f ((stops x).1 s)) xs free, Any-mono (λ x. (reports x).0) xs said),
    λ (free, said).
        (All-mono (λ x f e. f ((stops x).0 e)) xs free, Any-mono (λ x. (reports x).1) xs said),
  )
