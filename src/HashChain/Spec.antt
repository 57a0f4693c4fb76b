-- ===== src/HashChain/Spec.antt =====
-- What Verify accepts: exactly the well-linked chains (internal/hash/hash.go).
use mathlib.Core.Path.{subst₂}
use atb.Prelude.{
  ℕ, suc, ◌+◌, ◌≡◌, ◌↔◌, refl, sym, subst, ◌∙◌, String, true, List, [], ◌∷◌, none, some, length,
  eq_iff, eq_refl, ◌==◌, ==_iff, arith, Bool-cases, inl, inr,
}
use atb.Prelude.Int.{ℤ, pos, eqb_ℤ}
use atb.Prelude.Result.{ok, err, Result-cases}
use atb.Canonicalize.{Platform}
use atb.Event.{Event}
use atb.HashChain.{compute, VerifyError, verify_step, verify_from, zip, verify, genesis_hash}

-- Each event has the next sequence and the hash of the one before it, and its own hash is recorded.
abbrev pub IsChain : Platform → ℕ → String → List (Event × String) → Type 0
IsChain pf n prev [] = Unit
IsChain pf n prev ((e, h) ∷ rest) =
    (e.sequence ≡ pos n)
    × (e.prev_hash ≡ prev)
    × (compute pf e ≡ some h)
    × IsChain pf (suc n) h rest

eqb_ℤ_iff : (a b : ℤ) → (eqb_ℤ a b ≡ true) ↔ (a ≡ b)
eqb_ℤ_iff a b = ground arith

-- An event with the expected links is left alone by setting them.
pub compute-relink :
    (pf : Platform) (q : ℤ) (prev : String) (e : Event)
    → e.sequence ≡ q
    → e.prev_hash ≡ prev
    → compute pf (record e { prev_hash = prev; sequence = q }) ≡ compute pf e
compute-relink pf q prev e s p =
    λ i. compute pf (record e { prev_hash = sym p i; sequence = sym s i })

-- One round passes exactly where the event has the expected links and the recorded hash.
pub verify_step_ok :
    (pf : Platform) (i : ℕ) (q : ℤ) (prev : String) (e : Event) (h c : String)
    → verify_step pf i q prev e h ≡ ok c
    → (e.sequence ≡ q) × (e.prev_hash ≡ prev) × (compute pf e ≡ some h) × (c ≡ h)
unfolding verify_step
verify_step_ok pf i q prev e h c v =
    ground (
      arith,
      eqb_ℤ_iff e.sequence q,
      eq_iff e.prev_hash prev,
      eq_iff c h,
      compute-relink pf q prev e,
    )

pub verify_step_passes :
    (pf : Platform) (i : ℕ) (q : ℤ) (prev : String) (e : Event) (h : String)
    → e.sequence ≡ q
    → e.prev_hash ≡ prev
    → compute pf e ≡ some h
    → verify_step pf i q prev e h ≡ ok h
unfolding verify_step
verify_step_passes pf i q prev e h s p c = ground (
  arith,
  eqb_ℤ_iff e.sequence q,
  eq_iff e.prev_hash prev,
  eq_refl h,
  compute-relink pf q prev e s p,
)

module _ (pf : Platform) (base i : ℕ) (prev : String) (e : Event) (h : String)
    (l : List (Event × String)) where
  pub verify_from-ok :
      (c : String)
      → verify_step pf i (pos (base + i)) prev e h ≡ ok c
      → verify_from pf base i prev ((e, h) ∷ l) ≡ verify_from pf base (suc i) c l
  unfolding verify_from
  verify_from-ok c r = rw (r, verify_from)

  pub verify_from-err :
      (x : VerifyError)
      → verify_step pf i (pos (base + i)) prev e h ≡ err x
      → verify_from pf base i prev ((e, h) ∷ l) ≡ some x
  unfolding verify_from
  verify_from-err x r = rw (r, verify_from)

pub verify_from_sound :
    (pf : Platform) (base i : ℕ) (prev : String) (l : List (Event × String))
    → verify_from pf base i prev l ≡ none
    → IsChain pf (base + i) prev l
unfolding verify_from
verify_from_sound pf base i prev [] v = tt
verify_from_sound pf base i prev ((e, h) ∷ l) v =
    elim (Result-cases (verify_step pf i (pos (base + i)) prev e h)) [
      | inr (x, r) ↦ cc (verify_from-err pf base i prev e h l x r)
      | inl (c, r) ↦
          let (s, p, k, same) = verify_step_ok pf i (pos (base + i)) prev e h c r in
          let rest =
            verify_from_sound pf base (suc i) c l
              (sym (verify_from-ok pf base i prev e h l c r) ∙ v) in
          (s, p, k, subst₂ (λ n d. IsChain pf n d l) (omega arith) same rest)
    ]

pub verify_from_complete :
    (pf : Platform) (base i : ℕ) (prev : String) (l : List (Event × String))
    → IsChain pf (base + i) prev l
    → verify_from pf base i prev l ≡ none
unfolding verify_from
verify_from_complete pf base i prev [] c = refl
verify_from_complete pf base i prev ((e, h) ∷ l) (s, p, k, rest) =
    verify_from-ok pf base i prev e h l h (verify_step_passes pf i (pos (base + i)) prev e h s p k)
    ∙ (verify_from_complete pf base (suc i) h l (subst (λ n. IsChain pf n h l) (omega arith) rest))

-- Verify passes exactly on a list of events with as many hashes, linked from sequence 1 and the
-- genesis hash on, each event with its own hash.
pub verify_iff :
    (pf : Platform) (es : List Event) (hs : List String)
    → (verify pf es hs ≡ none) ↔ ((length es ≡ length hs) × IsChain pf 1 genesis_hash (zip es hs))
unfolding verify
verify_iff pf es hs = elim (Bool-cases (length es == length hs)) [
  | inr differ ↦ (λ v. ground arith, λ c. ground arith)
  | inl same ↦ (
    λ v. ((==_iff _ _).0 same, verify_from_sound pf 1 0 genesis_hash (zip es hs) (rw same at v)),
    λ c. rw same (verify_from_complete pf 1 0 genesis_hash (zip es hs) c.1),
  )
]
