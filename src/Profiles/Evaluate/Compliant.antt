-- ===== src/Profiles/Evaluate/Compliant.antt =====
-- Steps of Evaluate that check something, and loops of them (internal/profiles/evaluate.go).
pub mod Events
pub mod Relations
pub mod Conditions
use atb.Prelude.{
  ◌≡◌, ◌⊎◌, ◌↔◌, refl, sym, ap, ◌∙◌, subst, String, Bool, true, false, List, [], ◌∷◌, ◌++◌, All,
}
use atb.Profiles.{CriticalFailure, EvaluationResult, add_failure, add_warning}
use atb.Profiles.Evaluate.{for_each}

-- No critical failure has been found.
abbrev pub IsClean : EvaluationResult → Type 0
IsClean r = r.critical_failures ≡ []

-- A step adds no failure exactly if `Q` holds.
abbrev pub Checks : EvaluationResult → EvaluationResult → Type 0 → Type 0
Checks before after Q = IsClean after ↔ (IsClean before × Q)

pub kept : {Q : Type 0} (r : EvaluationResult) → Q → Checks r r Q
kept r q = (λ c. (c, q), λ p. p.0)

pub snoc-ne-nil : {A : Type 0} (xs : List A) (x : A) → xs ++ x ∷ [] ≡ [] → ⊥
snoc-ne-nil [] x e = cc
snoc-ne-nil (y ∷ ys) x e = cc

pub failed :
    {Q : Type 0} (r : EvaluationResult) (f : CriticalFailure)
    → (Q → ⊥)
    → Checks r (add_failure f r) Q
failed r f refuted = (λ c. absurd (snoc-ne-nil r.critical_failures f c), λ p. absurd (refuted p.1))

pub cons-ne-nil : {A : Type 0} {x : A} {xs : List A} → x ∷ xs ≡ [] → ⊥
cons-ne-nil e = cc

pub restated :
    {Q S : Type 0} (before after : EvaluationResult)
    → Q ↔ S
    → Checks before after Q
    → Checks before after S
restated before after same checks =
    (λ c. let (b, q) = checks.0 c in (b, same.0 q), λ p. checks.1 (p.0, same.1 p.1))

-- A loop checks what its body checks, on every element.
pub for_each-Checks :
    {A : Type 0} (body : EvaluationResult → A → EvaluationResult) (Q : A → Type 0)
    → ((r : EvaluationResult) (x : A) → Checks r (body r x) (Q x))
    → (r : EvaluationResult) (xs : List A) → Checks r (for_each body r xs) (All Q xs)
for_each-Checks body Q step r [] = kept r tt
for_each-Checks body Q step r (x ∷ xs) =
    let rest = for_each-Checks body Q step (body r x) xs in
    let one = step r x in
    (
      λ c. let (clean, all) = rest.0 c in let (before, q) = one.0 clean in (before, (q, all)),
      λ p. rest.1 (one.1 (p.0, p.1.0), p.1.1),
    )
