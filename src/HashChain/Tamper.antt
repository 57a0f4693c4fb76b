-- ===== src/HashChain/Tamper.antt =====
-- Tamper evidence: the last hash of a chain determines all of it, up to a collision of SHA-256
-- (internal/hash/hash.go).
use mathlib.Core.Path.{ap₂}
use atb.Prelude.{
  ℕ, suc, ◌≡◌, ◌≢◌, ◌⊎◌, inl, inr, refl, sym, subst, ap, ◌∙◌, String, List, [], ◌∷◌, ◌++◌, Option,
  none, some, length, codes, arith, Option-cases,
}
use native.Mathlib.Decide.{ℕ_discrete}
use atb.Canonicalize.{Platform, marshal}
use atb.Canonicalize.Text.Unique.{codes_injective}
use atb.Event.{Event, event_value}
use atb.HashChain.{compute, message, zip, verify, genesis_hash}
use atb.HashChain.Spec.{IsChain, verify_iff}

-- Two different texts with one digest.
abbrev pub Collision : Platform → Type 0
Collision pf = (a : List ℕ) × (b : List ℕ) × (a ≢ b) × (pf.sha256_hex a ≡ pf.sha256_hex b)

-- The canonical texts of the events of a chain.
abbrev pub canonical_texts : Platform → List (Event × String) → List (Option (List ℕ))
canonical_texts pf [] = []
canonical_texts pf ((e, h) ∷ r) = marshal pf (event_value e) ∷ canonical_texts pf r

abbrev pub last_hash : String → List (Event × String) → String
last_hash d [] = d
last_hash d ((e, h) ∷ r) = last_hash h r

runes_discrete : Discrete (List ℕ)
runes_discrete = hlevel ℕ_discrete

append_split : (a b x y : List ℕ) → length a ≡ length b → a ++ x ≡ b ++ y → (a ≡ b) × (x ≡ y)
append_split [] [] x y n e = (refl, e)
append_split [] (c ∷ b) x y n e = absurd (omega arith)
append_split (c ∷ a) [] x y n e = absurd (omega arith)
append_split (c ∷ a) (d ∷ b) x y n e =
    let (same, rest) = append_split a b x y (omega arith) (cc) in (cc, rest)

-- A computed hash is the digest of the previous hash and the canonical text.
compute_parts :
    (pf : Platform) (e : Event) (h : String)
    → compute pf e ≡ some h
    → (t : List ℕ) × (marshal pf (event_value e) ≡ some t)
      × (pf.sha256_hex (codes e.prev_hash ++ t) ≡ h)
unfolding compute message
compute_parts pf e h c = elim (Option-cases (marshal pf (event_value e))) [
  | inl failed ↦ ground arith
  | inr (t, wrote) ↦ (t, wrote, ground arith)
]

-- One link further back: equal hashes have equal texts and equal previous hashes, or collide.
link_back :
    (pf : Platform) (d e : Event) (h : String)
    → length (codes d.prev_hash) ≡ length (codes e.prev_hash)
    → compute pf d ≡ some h
    → compute pf e ≡ some h
    → ((d.prev_hash ≡ e.prev_hash) × (marshal pf (event_value d) ≡ marshal pf (event_value e)))
      ⊎ Collision pf
link_back pf d e h n c k =
    let (t, wrote, digest) = compute_parts pf d h c in
    let (u, wrote', digest') = compute_parts pf e h k in
    elim (runes_discrete (codes d.prev_hash ++ t) (codes e.prev_hash ++ u)) [
      | yes same ↦
          let (prev, text) = append_split (codes d.prev_hash) (codes e.prev_hash) t u n same in
          inl (codes_injective d.prev_hash e.prev_hash prev, wrote ∙ ap some text ∙ sym wrote')
      | no differ ↦
          inr (codes d.prev_hash ++ t, codes e.prev_hash ++ u, differ, digest ∙ sym digest')
    ]

module _ (pf : Platform)
    (sha256_hex_length : (t : List ℕ) → length (codes (pf.sha256_hex t)) ≡ 64) where
  length-hash : (e : Event) (h : String) → compute pf e ≡ some h → length (codes h) ≡ 64
  length-hash e h c =
      let (t, wrote, digest) = compute_parts pf e h c in
      subst (λ d. length (codes d) ≡ 64) digest (sha256_hex_length (codes e.prev_hash ++ t))

  IsChain-unique :
      (n m : ℕ) (p q : String) (l l' : List (Event × String))
      → length (codes p) ≡ 64
      → length (codes q) ≡ 64
      → length l ≡ length l'
      → IsChain pf n p l
      → IsChain pf m q l'
      → last_hash p l ≡ last_hash q l'
      → ((p ≡ q) × (canonical_texts pf l ≡ canonical_texts pf l')) ⊎ Collision pf
  IsChain-unique n m p q [] [] lp lq len c d end = inl (end, refl)
  IsChain-unique n m p q [] (x ∷ l') lp lq len c d end = absurd (omega arith)
  IsChain-unique n m p q (x ∷ l) [] lp lq len c d end = absurd (omega arith)
  IsChain-unique n m p q ((e, h) ∷ l) ((e', h') ∷ l') lp lq len (s, pe, k, rest)
        (s', pe', k', rest') end =
      elim (IsChain-unique (suc n) (suc m) h h' l l' (length-hash e h k) (length-hash e' h' k')
        (omega arith) rest rest' end) [
          | inr clash ↦ inr clash
          | inl (same, texts) ↦
              elim (link_back pf e e' h'
                (ap (λ x. length (codes x)) pe ∙ lp ∙ sym lq ∙ ap (λ x. length (codes x)) (sym pe'))
                (k ∙ ap some same) k') [
                  | inr clash ↦ inr clash
                  | inl (prevs, text) ↦ inl (sym pe ∙ prevs ∙ pe', ap₂ (λ x y. x ∷ y) text texts)
                ]
        ]

  -- Two chains of one length that Verify accepts and that end in one hash have the same canonical
  -- text at every position, or else two different texts with one digest are at hand. The digest of a
  -- text is taken to have 64 digits.
  pub tamper_evidence :
      (es ds : List Event) (hs ks : List String)
      → verify pf es hs ≡ none
      → verify pf ds ks ≡ none
      → length (zip es hs) ≡ length (zip ds ks)
      → last_hash genesis_hash (zip es hs) ≡ last_hash genesis_hash (zip ds ks)
      → (canonical_texts pf (zip es hs) ≡ canonical_texts pf (zip ds ks)) ⊎ Collision pf
  tamper_evidence es ds hs ks v w len end =
      elim (IsChain-unique 1 1 genesis_hash genesis_hash (zip es hs) (zip ds ks) refl refl len
        ((verify_iff pf es hs).0 v).1 ((verify_iff pf ds ks).0 w).1 end) [
          | inl (_, texts) ↦ inl texts
          | inr clash ↦ inr clash
        ]
