-- ===== src/HashChain/Linked.antt =====
-- Chain makes chains that Verify accepts (internal/hash/hash.go).
use mathlib.Core.Path.{subst₂}
use atb.Prelude.{
  ℕ, suc, ◌+◌, ◌≡◌, refl, sym, subst, ap, ◌∙◌, String, List, [], ◌∷◌, none, some, length, last_or,
  map, arith, Option-cases, inl, inr,
}
use atb.Prelude.Int.{pos}
use atb.Prelude.Result.{Result, ok, err}
use atb.Canonicalize.{Platform}
use atb.Event.{Event}
use atb.HashChain.{compute, chain_from, chain, zip, verify, genesis_hash}
use atb.HashChain.Spec.{IsChain, verify_iff}

-- The recorded hash of an event.
abbrev pub hash_or_empty : Platform → Event → String
hash_or_empty pf e = elim (compute pf e) [ none ↦ "" | some h ↦ h ]

abbrev pub hashes : Platform → List Event → List String
hashes pf [] = []
hashes pf (e ∷ es) = hash_or_empty pf e ∷ hashes pf es

-- The part of an event that its place in a chain does not determine.
abbrev pub body : Event → Event
body e = record e { prev_hash = ""; sequence = pos 0 }

module _ (pf : Platform) (i : ℕ) (prev : String) (e : Event) (es : List Event) where
  abbrev linked : Event
  linked = record e { prev_hash = prev; sequence = pos (i + 1) }

  chain_from-some :
      (h : String)
      → compute pf linked ≡ some h
      → chain_from pf i prev (e ∷ es)
        ≡ (linked ∷ (chain_from pf (suc i) h es).0, (chain_from pf (suc i) h es).1)
  unfolding chain_from
  chain_from-some h c = rw (c, chain_from)

  chain_from-none : compute pf linked ≡ none → chain_from pf i prev (e ∷ es) ≡ (linked ∷ es, err i)
  unfolding chain_from
  chain_from-none c = rw (c, chain_from)

-- Where it succeeds, the events are a chain, and its result is the last hash.
abbrev Links : Platform → ℕ → String → String → List Event × Result ℕ String → Type 0
Links pf i prev last r =
    r.1 ≡ ok last
    → IsChain pf (i + 1) prev (zip r.0 (hashes pf r.0)) × (last_or prev (hashes pf r.0) ≡ last)

link_head :
    (pf : Platform) (i : ℕ) (prev last h : String) (e : Event) (r : List Event × Result ℕ String)
    → e.sequence ≡ pos (i + 1)
    → e.prev_hash ≡ prev
    → compute pf e ≡ some h
    → Links pf (suc i) h last r
    → Links pf i prev last (e ∷ r.0, r.1)
link_head pf i prev last h e r s p c ih ended =
    let (rest, end) = ih ended in
    let own : hash_or_empty pf e ≡ h = rw (c, hash_or_empty) in
    (
      (
        s,
        p,
        c ∙ ap some (sym own),
        subst₂ (λ n d. IsChain pf n d (zip r.0 (hashes pf r.0))) (omega arith) (sym own) rest,
      ),
      subst (λ d. last_or d (hashes pf r.0) ≡ last) (sym own) end,
    )

some_ok : {a b : String} → ◌≡◌ {A = Result ℕ String} (ok a) (ok b) → a ≡ b
some_ok h = cc

chain_from-Links :
    (pf : Platform) (i : ℕ) (prev last : String) (es : List Event)
    → Links pf i prev last (chain_from pf i prev es)
chain_from-Links pf i prev last [] = unfold chain_from in λ h. (tt, some_ok h)
chain_from-Links pf i prev last (e ∷ es) =
    elim (Option-cases (compute pf (linked pf i prev e es))) [
      | inl failed ↦
          subst (Links pf i prev last) (sym (chain_from-none pf i prev e es failed)) (λ h. cc)
      | inr (c, hashed) ↦
          subst (Links pf i prev last) (sym (chain_from-some pf i prev e es c hashed)) (
            link_head pf i prev last c (linked pf i prev e es) (chain_from pf (suc i) c es) refl
              refl hashed (chain_from-Links pf (suc i) c last es))
    ]

module _ (pf : Platform) where
  -- Bodies are left alone by chaining, also where it fails.
  bodies-chain_from :
      (i : ℕ) (prev : String) (es : List Event) → map body (chain_from pf i prev es).0 ≡ map body es
  bodies-chain_from i prev [] = unfold chain_from in refl
  bodies-chain_from i prev (e ∷ es) = elim (Option-cases (compute pf (linked pf i prev e es))) [
    | inl failed ↦ rw (chain_from-none pf i prev e es failed) refl
    | inr (c, hashed) ↦
        rw (chain_from-some pf i prev e es c hashed)
          (ap (λ r. body e ∷ r) (bodies-chain_from (suc i) c es))
  ]

  length-chain_from :
      (i : ℕ) (prev : String) (es : List Event) → length (chain_from pf i prev es).0 ≡ length es
  length-chain_from i prev [] = unfold chain_from in refl
  length-chain_from i prev (e ∷ es) = elim (Option-cases (compute pf (linked pf i prev e es))) [
    | inl failed ↦ rw (chain_from-none pf i prev e es failed) refl
    | inr (c, hashed) ↦
        rw (chain_from-some pf i prev e es c hashed) (ap suc (length-chain_from (suc i) c es))
  ]

length-hashes : (pf : Platform) (es : List Event) → length es ≡ length (hashes pf es)
length-hashes pf [] = refl
length-hashes pf (e ∷ es) = ap suc (length-hashes pf es)

-- Where Chain succeeds, Verify accepts the events that it leaves with their own hashes, the hash that
-- it returns is the last of these, and the events are those given but for their sequences and
-- previous hashes.
pub verify-chain :
    (pf : Platform) (es : List Event) (last : String)
    → (chain pf es).1 ≡ ok last
    → (verify pf (chain pf es).0 (hashes pf (chain pf es).0) ≡ none)
      × (last_or genesis_hash (hashes pf (chain pf es).0) ≡ last)
      × (map body (chain pf es).0 ≡ map body es)
unfolding chain
verify-chain pf es last h =
    let (links, end) = chain_from-Links pf 0 genesis_hash last es h in
    ((verify_iff pf _ _).1 (length-hashes pf _, links), end, bodies-chain_from pf 0 genesis_hash es)
