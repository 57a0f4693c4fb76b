-- ===== src/Profiles/Dsl.antt =====
-- compileDSLEvents (internal/profiles/dsl.go).
use atb.Prelude.{
  ◌≡◌, ◌↔◌, refl, sym, ap, ◌∙◌, subst, String, concat, true, false, List, [], ◌∷◌, All, map, str_eq,
  eq_iff, Bool-cases, inl, inr, eq_refl,
}
use atb.Prelude.Result.{Result, ok, ◌>>=◌, ◌>>◌, fail_if, >>=-eq-ok, fail_if-then, ok_injective}
use atb.Profiles.{EventRule}
use atb.Profiles.Text.{trim_text}
use atb.Profiles.Evaluate.{contains}

-- The errors on one list of event types.
pub data DslError : Type 0 where
  empty_type : DslError
  duplicate_type : String → DslError

abbrev pub compiled_rule : String → String → EventRule
compiled_rule severity event_type = record {
  type_id = event_type;
  fields = [];
  message = concat event_type " missing";
  severity = severity;
  required_when = [];
}

-- The loop, with the types seen so far.
unfoldable pub compile_from : String → List String → List String → Result DslError (List EventRule)
compile_from severity seen [] = ok []
compile_from severity seen (t ∷ ts) = do
  fail_if (str_eq (trim_text t) "") empty_type
  fail_if (contains (trim_text t) seen) (duplicate_type (trim_text t))
  rules ← compile_from severity (trim_text t ∷ seen) ts
  ok (compiled_rule severity (trim_text t) ∷ rules)

unfoldable pub compile_dsl_events : List String → String → Result DslError (List EventRule)
unfolding compile_from
compile_dsl_events types severity = compile_from severity [] types

-- No element occurs again behind itself.
abbrev pub IsDistinct : List String → Type 0
IsDistinct [] = Unit
IsDistinct (t ∷ ts) = (contains t ts ≡ false) × IsDistinct ts

abbrev pub IsGiven : String → Type 0
IsGiven t = str_eq t "" ≡ false

str_eq_sym : (a b : String) → str_eq a b ≡ false → str_eq b a ≡ false
str_eq_sym a b h = elim (Bool-cases (str_eq b a)) [
  | inr e ↦ e
  | inl e ↦ cc (sym (subst (λ x. str_eq a x ≡ true) (sym ((eq_iff b a).0 e)) (eq_refl a)) ∙ h)
]

contains-cons :
    (x t : String) (l : List String)
    → (contains x (t ∷ l) ≡ false) ↔ ((str_eq t x ≡ false) × (contains x l ≡ false))
contains-cons x t l = elim (Bool-cases (str_eq t x)) [
  | inl e ↦ (λ h. cc (rw (e) at h), λ h. cc (h.0, e))
  | inr e ↦ (λ h. (e, rw (e) at h), λ h. rw (e) h.1)
]

-- A type behind which nothing equals it, and what is seen afterwards.
fresh-cons :
    (t : String) (seen ts : List String)
    → All (λ x. contains x (t ∷ seen) ≡ false) ts
      ↔ (All (λ x. contains x seen ≡ false) ts × (contains t ts ≡ false))
fresh-cons t seen [] = (λ h. (tt, refl), λ h. tt)
fresh-cons t seen (x ∷ ts) =
    let more = fresh-cons t seen ts in
    let here = contains-cons x t seen in
    let there = contains-cons t x ts in
    (
      λ h.
          let (other, unseen) = here.0 h.0 in
          let (rest, absent) = more.0 h.1 in
          ((unseen, rest), there.1 (str_eq_sym t x other, absent)),
      λ h.
          let (other, absent) = there.0 h.1 in
          (here.1 (str_eq_sym x t other, h.0.0), more.1 (h.0.1, absent)),
    )

-- What the compiled rules are, for types of which some are seen already.
abbrev IsCompiled : String → List String → List String → List EventRule → Type 0
IsCompiled severity seen types rules =
    All IsGiven types
    × All (λ x. contains x seen ≡ false) types
    × IsDistinct types
    × (rules ≡ map (compiled_rule severity) types)

IsCompiled-cons :
    (severity : String) (seen : List String) (t : String) (ts : List String)
    (rules : List EventRule)
    → IsGiven t
    → contains t seen ≡ false
    → IsCompiled severity (t ∷ seen) ts rules
    → IsCompiled severity seen (t ∷ ts) (compiled_rule severity t ∷ rules)
IsCompiled-cons severity seen t ts rules given unseen h =
    let (fresh, absent) = (fresh-cons t seen ts).0 h.1 in
    ((given, h.0), (unseen, fresh), (absent, h.2), ap (λ l. compiled_rule severity t ∷ l) h.3)

compile_from-IsCompiled :
    (severity : String) (seen types : List String) (rules : List EventRule)
    → compile_from severity seen types ≡ ok rules
    → IsCompiled severity seen (map trim_text types) rules
unfolding compile_from
compile_from-IsCompiled severity seen [] rules h = (tt, tt, tt, sym (ok_injective h))
compile_from-IsCompiled severity seen (t ∷ ts) rules h =
    let (given, h₁) = fail_if-then (str_eq (trim_text t) "") empty_type _ h in
    let (unseen, h₂) =
      fail_if-then (contains (trim_text t) seen) (duplicate_type (trim_text t)) _ h₁ in
    let (more, p, q) = >>=-eq-ok (compile_from severity (trim_text t ∷ seen) ts) _ h₂ in
    subst (IsCompiled severity seen (trim_text t ∷ map trim_text ts)) (ok_injective q) (
      IsCompiled-cons severity seen (trim_text t) (map trim_text ts) more given unseen
        (compile_from-IsCompiled severity (trim_text t ∷ seen) ts more p))

IsCompiled-compile_from :
    (severity : String) (seen types : List String)
    → All IsGiven (map trim_text types)
    → All (λ x. contains x seen ≡ false) (map trim_text types)
    → IsDistinct (map trim_text types)
    → compile_from severity seen types ≡ ok (map (compiled_rule severity) (map trim_text types))
unfolding compile_from
IsCompiled-compile_from severity seen [] given fresh distinct = refl
IsCompiled-compile_from severity seen (t ∷ ts) given fresh distinct =
    let rest =
      IsCompiled-compile_from severity (trim_text t ∷ seen) ts given.1
        ((fresh-cons (trim_text t) seen (map trim_text ts)).1 (fresh.1, distinct.0)) distinct.1 in
    rw (compile_from, given.0, fresh.0, rest) refl

-- Compiling a list of event types succeeds exactly when none of them is blank and no two are the same
-- without the white space around them, and gives one rule for each of them in their order.
pub compile_dsl_events-IsDistinct :
    (types : List String) (severity : String) (rules : List EventRule)
    → (compile_dsl_events types severity ≡ ok rules) ↔ (
        All IsGiven (map trim_text types)
        × IsDistinct (map trim_text types)
        × (rules ≡ map (compiled_rule severity) (map trim_text types)))
unfolding compile_dsl_events
compile_dsl_events-IsDistinct types severity rules = (
  λ h.
      let compiled = compile_from-IsCompiled severity [] types rules h in
      (compiled.0, compiled.2, compiled.3),
  λ h.
      IsCompiled-compile_from severity [] types h.0 (all_fresh (map trim_text types)) h.1
      ∙ ap ok (sym h.2),
)
  where
    all_fresh : (ts : List String) → All (λ x. contains x [] ≡ false) ts
    all_fresh [] = tt
    all_fresh (t ∷ ts) = (refl, all_fresh ts)
