-- ===== src/Bundle/Append/Laws.antt =====
-- Appending keeps a bundle verifiable (internal/bundle/bundle.go).
pub mod Floor
pub mod New
use atb.Prelude.{
  ℕ, zero, suc, ◌+◌, ◌≡◌, ◌↔◌, refl, sym, subst, ap, ◌∙◌, String, Bool, true, false, not, ◌&&◌,
  List, [], ◌∷◌, ◌++◌, Option, none, some, length, str_eq, ◌==◌, ==_iff, arith, Bool-cases,
  Option-cases, inl, inr, if◌then◌else◌,
}
use atb.Prelude.Int.{pos}
use atb.Prelude.Result.{Result, ok, err, ◌>>=◌, ◌>>◌, fail_if, fail_if-ok, >>=-eq-ok}
use atb.Json.{Value}
use atb.Canonicalize.{Platform}
use atb.HashChain.{compute, genesis_hash}
use atb.HashChain.Spec.{IsChain}
use atb.Event.{Event, AcquisitionInfo}
use atb.Bundle.{
  Record, no_prefix, AppendOptions, Error, bad_event_type, not_encodable, manifest_not_first, Codec,
  manifest_event_type, has_manifest_record, pairs,
}
use atb.Bundle.Append.{
  check_acquisition, acquisition_of, next_sequence, head_hash, base_event, with_options,
  append_with_options,
}
use atb.Bundle.Append.TypeName.{is_event_type}
use atb.Bundle.Verify.{verify_bundle}
use atb.Bundle.Verify.Laws.{first_sequence, verify_bundle_iff}

-- The event that an append builds.
pub new_event : List Record → String → Value → Option AppendOptions → Event
new_event rs type_id payload opts = with_options (base_event rs type_id payload) opts

-- What a successful append has checked, and the one record that it adds.
pub record Appended (pf : Platform) (c : Codec) (rs : List Record) (type_id : String)
    (payload : Value) (opts : Option AppendOptions) (rs' : List Record) : Type 0 where
  pub first_if_manifest : (str_eq type_id manifest_event_type && not (length rs == 0)) ≡ false
  pub floor : check_acquisition c rs type_id (acquisition_of opts) ≡ ok tt
  pub well_named : is_event_type type_id ≡ true
  pub hash : String
  pub hashed : compute pf (new_event rs type_id payload opts) ≡ some hash
  pub extended :
      rs'
      ≡ rs
        ++ record { event = new_event rs type_id payload opts; hash = hash; prefix = no_prefix }
          ∷ []

module _ (pf : Platform) (c : Codec) (rs : List Record) (type_id : String) (payload : Value)
    (opts : Option AppendOptions) (rs' : List Record) where
  pub append-Appended :
      append_with_options pf c rs type_id payload opts ≡ ok rs'
      → Appended pf c rs type_id payload opts rs'
  unfolding append_with_options new_event
  append-Appended h =
      let (u, first, h₁) =
        >>=-eq-ok
          (fail_if (str_eq type_id manifest_event_type && not (length rs == 0)) manifest_not_first)
          _ h in
      let (w, floor, h₂) = >>=-eq-ok (check_acquisition c rs type_id (acquisition_of opts)) _ h₁ in
      let (x, named, h₃) =
        >>=-eq-ok (fail_if (not (is_event_type type_id)) (bad_event_type type_id)) _ h₂ in
      elim (Option-cases (compute pf (new_event rs type_id payload opts))) [
        | inl failed ↦ absurd (ground arith)
        | inr (d, hashed) ↦ record {
          first_if_manifest = fail_if-ok _ manifest_not_first first;
          floor = floor;
          well_named = ground arith;
          hash = d;
          hashed = hashed;
          extended = ground arith;
        }
      ]

-- The fields of the new event.
module _ (rs : List Record) (type_id : String) (payload : Value) (opts : Option AppendOptions) where
  pub new_event-links :
      ((new_event rs type_id payload opts).sequence ≡ next_sequence rs type_id)
      × ((new_event rs type_id payload opts).prev_hash ≡ head_hash rs)
      × ((new_event rs type_id payload opts).type_id ≡ type_id)
      × ((new_event rs type_id payload opts).payload ≡ payload)
      × ((new_event rs type_id payload opts).acquisition ≡ acquisition_of opts)
  unfolding new_event with_options base_event
  new_event-links = ground arith

-- The last hash of a chain that started behind `prev`.
abbrev last_of : String → List (Event × String) → String
last_of prev [] = prev
last_of prev ((e, h) ∷ l) = last_of h l

IsChain-snoc :
    (pf : Platform) (n : ℕ) (prev : String) (l : List (Event × String)) (e : Event) (h : String)
    → IsChain pf n prev l
    → e.sequence ≡ pos (n + length l)
    → e.prev_hash ≡ last_of prev l
    → compute pf e ≡ some h
    → IsChain pf n prev (l ++ (e, h) ∷ [])
IsChain-snoc pf n prev [] e h c s p k = (s ∙ ap pos (omega arith), p, k, tt)
IsChain-snoc pf n prev ((d, g) ∷ l) e h (q, r, m, rest) s p k =
    (q, r, m, IsChain-snoc pf (suc n) g l e h rest (s ∙ ap pos (omega arith)) p k)

pairs-append :
    (rs : List Record) (r : Record) → pairs (rs ++ r ∷ []) ≡ pairs rs ++ (r.event, r.hash) ∷ []
pairs-append [] r = refl
pairs-append (s ∷ rs) r = ap (λ l. (s.event, s.hash) ∷ l) (pairs-append rs r)

length-pairs : (rs : List Record) → length (pairs rs) ≡ length rs
length-pairs [] = refl
length-pairs (r ∷ rs) = ap suc (length-pairs rs)

last_of-pairs :
    (r : Record) (rs : List Record) (d : String) → head_hash (r ∷ rs) ≡ last_of d (pairs (r ∷ rs))
last_of-pairs r [] d = refl
last_of-pairs r (s ∷ rs) d = last_of-pairs s rs r.hash

head_hash-pairs : (rs : List Record) → head_hash rs ≡ last_of genesis_hash (pairs rs)
head_hash-pairs [] = refl
head_hash-pairs (r ∷ rs) = last_of-pairs r rs genesis_hash

-- The sequence of the next record follows on from the chain before it.
IsChain-before :
    (pf : Platform) (rs : List Record) (r : Record)
    → IsChain pf (first_sequence rs) genesis_hash (pairs rs)
    → IsChain pf (first_sequence (rs ++ r ∷ [])) genesis_hash (pairs rs)
IsChain-before pf [] r c = tt
IsChain-before pf (s ∷ rs) r c = c

next_sequence-eq :
    (rs : List Record) (r : Record)
    → (str_eq r.event.type_id manifest_event_type && not (length rs == 0)) ≡ false
    → next_sequence rs r.event.type_id ≡ pos (first_sequence (rs ++ r ∷ []) + length (pairs rs))
unfolding next_sequence
next_sequence-eq [] r h = ground arith
next_sequence-eq (s ∷ rs) r h = ground (arith, length-pairs rs)

module _ (pf : Platform) (rs : List Record) (r : Record) where
  -- A record that is linked to the last one may be added.
  verify_bundle-snoc :
      verify_bundle pf rs ≡ none
      → (str_eq r.event.type_id manifest_event_type && not (length rs == 0)) ≡ false
      → r.event.sequence ≡ next_sequence rs r.event.type_id
      → r.event.prev_hash ≡ head_hash rs
      → compute pf r.event ≡ some r.hash
      → verify_bundle pf (rs ++ r ∷ []) ≡ none
  verify_bundle-snoc v first q p k =
      let before = IsChain-before pf rs r ((verify_bundle_iff pf rs).0 v) in
      (verify_bundle_iff pf (rs ++ r ∷ [])).1 (
        rw (pairs-append rs r) (
          IsChain-snoc pf (first_sequence (rs ++ r ∷ [])) genesis_hash (pairs rs) r.event r.hash
            before (q ∙ next_sequence-eq rs r first) (p ∙ head_hash-pairs rs) k))

-- A bundle that passes Verify passes it after every successful append, whatever the type, the data
-- and the options.
pub verify-append :
    (pf : Platform) (c : Codec) (rs rs' : List Record) (type_id : String) (payload : Value)
    (opts : Option AppendOptions)
    → verify_bundle pf rs ≡ none
    → append_with_options pf c rs type_id payload opts ≡ ok rs'
    → verify_bundle pf rs' ≡ none
verify-append pf c rs rs' type_id payload opts v h =
    let a = append-Appended pf c rs type_id payload opts rs' h in
    let (q, p, t, _, _) = new_event-links rs type_id payload opts in
    let r : Record = record {
      event = new_event rs type_id payload opts;
      hash = a.hash;
      prefix = no_prefix;
    } in
    subst (λ l. verify_bundle pf l ≡ none) (sym a.extended)
      (verify_bundle-snoc pf rs r v (rw t a.first_if_manifest) (q ∙ ap (next_sequence rs) (sym t)) p
        a.hashed)
