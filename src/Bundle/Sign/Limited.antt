-- ===== src/Bundle/Sign/Limited.antt =====
-- What signToWithSignerLimited has checked and written when it succeeds (internal/bundle/sign.go).
use atb.Prelude.{
  ℕ, ◌≤◌, ◌≡◌, refl, sym, ap, ◌∙◌, subst, String, ◌||◌, List, [], ◌∷◌, ◌++◌, Option, none, some,
  length, ltb, ◌==◌, ◌≢◌, false, inl, inr, Bool-cases, arith,
}
use atb.Prelude.Result.{
  Result, ok, err, ◌>>=◌, ◌>>◌, fail_if, >>=-eq-ok, fail_if-then, ok_injective,
}
use atb.Canonicalize.{Platform}
use atb.Json.{Fields, str, obj, get}
use atb.Event.{Event}
use atb.Bundle.{Record, Error, Codec, bundle_signature_type, no_prefix}
use atb.Bundle.Append.{append_with_options}
use atb.Bundle.Append.Laws.{append-Appended, new_event, new_event-links, verify-append}
use atb.Bundle.Verify.{verify_bundle}
use atb.Bundle.Load.{load_reader, default_limits}
use atb.Bundle.Sign.{
  Signing, Signature, max_int, invalid_read_limit, input_too_large, read_signing_input,
  check_algorithm, new_bundle_signature_record, at_time, separator, append_signed_record, lift,
  verified, signed, last_record, write_signed, record_signature, sign_records, sign_limited,
}
use atb.Bundle.Sign.Laws.{append_signed_record-bounds}

lift-ok : {A : Type 0} (r : Result Error A) (a : A) → lift r ≡ ok a → r ≡ ok a
unfolding lift
lift-ok (err e) a p = cc
lift-ok (ok b) a p = ap ok (ok_injective p)

verified-ok : (o : Option Error) {u : Unit {0}} → verified o ≡ ok u → o ≡ none
unfolding verified
verified-ok none p = refl
verified-ok (some e) p = cc

read_signing_input-ok :
    (input raw : List ℕ) (max_bytes : ℕ) → read_signing_input input max_bytes ≡ ok raw → input ≡ raw
unfolding read_signing_input
read_signing_input-ok input raw max_bytes p =
    let rest = fail_if (ltb max_bytes (length input)) input_too_large >> ok input in
    let q = fail_if-then (max_bytes == 0 || max_bytes == max_int) invalid_read_limit rest p in
    ok_injective (fail_if-then (ltb max_bytes (length input)) input_too_large (ok input) q.1).1

-- The event is a signature record with the texts of the digest of the bytes, of the signature and of
-- the key.
abbrev pub Attests : Signing → List ℕ → Signature → Event → Type 0
Attests g raw s e =
    (e.type_id ≡ "atb.bundle.signature")
    × (fs : Fields) × (e.payload ≡ obj fs)
    × (get "bundle_hash" fs ≡ some (str (g.hex (g.sum raw))))
    × (get "signature" fs ≡ some (str (g.base64 s.signature)))
    × (get "pubkey" fs ≡ some (str (g.base64 s.public_key)))

-- The bytes, the records that they hold, and those with the signature record.
pub record IsSigned (g : Signing) (pf : Platform) (c : Codec) (reads : ℕ → ℕ) (raw payload : List ℕ)
    : Type 0 where
  pub before : List Record
  pub after : List Record
  pub last : Record
  pub loaded : load_reader g.sum c default_limits reads raw ≡ ok before
  pub before_verified : verify_bundle pf before ≡ none
  pub after_verified : verify_bundle pf after ≡ none
  pub appended : after ≡ before ++ last ∷ []
  pub signature : Signature
  pub made : g.sign (g.sum raw) ≡ some signature
  pub not_empty : signature.signature ≢ []
  pub attests : Attests g raw signature last.event
  pub written : payload ≡ raw ++ (separator raw ++ (g.encode_record last ++ 10 ∷ []))

write_signed-ok :
    (g : Signing) (raw : List ℕ) (max_bytes : ℕ) (rs : List Record) (out : String × List ℕ)
    → write_signed g raw max_bytes rs ≡ ok out
    → (last : Record) × (last_record rs ≡ ok last)
      × (out.1 ≡ raw ++ (separator raw ++ (g.encode_record last ++ 10 ∷ [])))
      × (length out.1 ≤ max_bytes)
      × (out.0 ≡ g.hex (g.sum raw))
unfolding write_signed
write_signed-ok g raw max_bytes rs out p =
    let text = g.hex (g.sum raw) in
    let (last, k, q) =
      >>=-eq-ok (last_record rs)
        (λ r. append_signed_record raw (g.encode_record r) max_bytes >>= (λ z. ok (text, z))) p in
    let (payload, w, t) =
      >>=-eq-ok (append_signed_record raw (g.encode_record last) max_bytes) (λ z. ok (text, z)) q in
    let result = ok_injective t in
    let (form, bound, _) =
      append_signed_record-bounds raw (g.encode_record last) payload max_bytes w in
    (
      last,
      k,
      sym (ap (λ z. z.1) result) ∙ form,
      subst (λ z. length z.1 ≤ max_bytes) result bound,
      sym (ap (λ z. z.0) result),
    )

signed-ok :
    (o : Option Signature) (s : Signature) → signed o ≡ ok s → (o ≡ some s) × (s.signature ≢ [])
unfolding signed
signed-ok none s p = cc
signed-ok (some made) s p = elim (Bool-cases (length made.signature == 0)) [
  | inl e ↦ cc (rw (signed, e) at p)
  | inr e ↦
      let same : made ≡ s = ok_injective (rw (signed, e) at p) in
      (ap some same, λ none_left. given e (subst (λ x. x.signature ≡ []) (sym same) none_left))
]
  where
    given : {l : List ℕ} → (length l == 0) ≡ false → l ≡ [] → ⊥
    given {l = []} h e = absurd (ground arith)
    given {l = x ∷ l} h e = cc

last_record-snoc : (rs : List Record) (r : Record) → last_record (rs ++ r ∷ []) ≡ ok r
last_record-snoc [] r = refl
last_record-snoc (x ∷ []) r = refl
last_record-snoc (x ∷ y ∷ rs) r = last_record-snoc (y ∷ rs) r

record_signature-ok :
    (g : Signing) (pf : Platform) (c : Codec) (raw : List ℕ) (max_bytes : ℕ) (now : String)
    (rs : List Record) (s : Signature) (out : String × List ℕ)
    → verify_bundle pf rs ≡ none
    → record_signature g pf c raw max_bytes now rs s ≡ ok out
    → (r : Record) × (verify_bundle pf (rs ++ r ∷ []) ≡ none)
      × Attests g raw s r.event
      × (write_signed g raw max_bytes (rs ++ r ∷ []) ≡ ok out)
unfolding record_signature new_bundle_signature_record
record_signature-ok g pf c raw max_bytes now rs s out good p =
    let value = λ (algorithm : String). new_bundle_signature_record g (g.sum raw) s algorithm now in
    let appended = λ (algorithm : String).
      append_with_options pf c rs bundle_signature_type (value algorithm) (at_time now) in
    let (algorithm, _, q) =
      >>=-eq-ok (check_algorithm s) (λ a. lift (appended a) >>= write_signed g raw max_bytes) p in
    let (rs', a, t) = >>=-eq-ok (lift (appended algorithm)) (write_signed g raw max_bytes) q in
    let made = lift-ok (appended algorithm) rs' a in
    let one =
      append-Appended pf c rs bundle_signature_type (value algorithm) (at_time now) rs' made in
    let links = new_event-links rs bundle_signature_type (value algorithm) (at_time now) in
    (
      record {
        event = new_event rs bundle_signature_type (value algorithm) (at_time now);
        hash = one.hash;
        prefix = no_prefix;
      },
      subst (λ l. verify_bundle pf l ≡ none) one.extended
          (verify-append pf c rs rs' bundle_signature_type (value algorithm) (at_time now) good
            made),
      (links.2, _, links.3, refl, refl, refl),
      subst (λ l. write_signed g raw max_bytes l ≡ ok out) one.extended t,
    )

sign_records-ok :
    (g : Signing) (pf : Platform) (c : Codec) (raw : List ℕ) (max_bytes : ℕ) (now : String)
    (rs : List Record) (out : String × List ℕ)
    → sign_records g pf c raw max_bytes now rs ≡ ok out
    → (verify_bundle pf rs ≡ none)
      × ((s : Signature) × (g.sign (g.sum raw) ≡ some s)
          × (s.signature ≢ [])
          × (r : Record) × (verify_bundle pf (rs ++ r ∷ []) ≡ none)
          × Attests g raw s r.event
          × (write_signed g raw max_bytes (rs ++ r ∷ []) ≡ ok out))
unfolding sign_records
sign_records-ok g pf c raw max_bytes now rs out p =
    let signing = signed (g.sign (g.sum raw)) in
    let (_, v, q) =
      >>=-eq-ok (verified (verify_bundle pf rs))
        (λ _. signing >>= record_signature g pf c raw max_bytes now rs) p in
    let (s, k, t) = >>=-eq-ok signing (record_signature g pf c raw max_bytes now rs) q in
    let good = verified-ok (verify_bundle pf rs) v in
    let (made, given) = signed-ok (g.sign (g.sum raw)) s k in
    let (r, better, attests, w) = record_signature-ok g pf c raw max_bytes now rs s out good t in
    (good, (s, made, given, r, better, attests, w))

-- If signing succeeds, the file was a bundle that Verify accepts, the signer has signed the digest of
-- its bytes, and Verify also accepts its records with one record appended: a signature record with the
-- texts of that digest, of the signature, which is not empty, and of the key. What is written is the
-- file's own bytes, with a line feed if they do not end in one, and the line of that record, within
-- the limit. The returned text is that of the hash of the file's bytes.
pub sign_limited-IsSigned :
    (g : Signing) (pf : Platform) (c : Codec) (reads : ℕ → ℕ) (input : List ℕ) (max_bytes : ℕ)
    (now : String) (out : String × List ℕ)
    → sign_limited g pf c reads input max_bytes now ≡ ok out
    → IsSigned g pf c reads input out.1 × (length out.1 ≤ max_bytes) × (out.0 ≡ g.hex (g.sum input))
unfolding sign_limited
sign_limited-IsSigned g pf c reads input max_bytes now out p =
    let load = λ (raw : List ℕ). lift (load_reader g.sum c default_limits reads raw) in
    let (raw, r, q) =
      >>=-eq-ok (read_signing_input input max_bytes)
        (λ raw. load raw >>= sign_records g pf c raw max_bytes now) p in
    let (rs, l, t) = >>=-eq-ok (load raw) (sign_records g pf c raw max_bytes now) q in
    let same = read_signing_input-ok input raw max_bytes r in
    let (good, more) = sign_records-ok g pf c raw max_bytes now rs out t in
    let (s, made, given, r, better, attests, w) = more in
    let (last, k, form, bound, text) = write_signed-ok g raw max_bytes (rs ++ r ∷ []) out w in
    let is_last : r ≡ last = ok_injective (sym (last_record-snoc rs r) ∙ k) in
    (
      subst (λ k. IsSigned g pf c reads k out.1) (sym same)
          (record {
            before = rs;
            after = rs ++ r ∷ [];
            last = r;
            loaded = lift-ok (load_reader g.sum c default_limits reads raw) rs l;
            before_verified = good;
            after_verified = better;
            appended = refl;
            signature = s;
            made = made;
            not_empty = given;
            attests = attests;
            written =
                form
                ∙ ap (λ x. raw ++ (separator raw ++ (g.encode_record x ++ 10 ∷ []))) (sym is_last);
          }),
      bound,
      text ∙ ap (λ z. g.hex (g.sum z)) (sym same),
    )
