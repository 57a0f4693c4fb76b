-- ===== src/CaptureStatus/Contract.antt =====
-- The contract of the entries and of the checkpoint of a capture (internal/proxy/status.go, capture.go).
use atb.Prelude.{
  ℕ, zero, suc, ◌-◌, ◌≡◌, ◌⊎◌, inl, inr, refl, sym, ap, ◌∙◌, String, Bool, true, false, not, ◌&&◌,
  ◌||◌, List, [], ◌∷◌, Option, none, some, All, length, get_elem?, ltb, str_eq, eq_iff, Bool-cases,
  if◌then◌else◌, arith,
}
use atb.Prelude.Int.{ℤ, pos, negsuc, ltb_ℤ, eqb_ℤ}
use atb.Prelude.Result.{Result, ok, err}
use atb.Canonicalize.{Platform}
use atb.Bundle.{Record}
use atb.Acquisition.Checkpoint.{Checkpoint, CheckpointError}
use atb.CaptureJournal.{Entry}
use atb.CaptureStatus.{
  digest_representation, has_digest, is_of_capture, all_of_capture, one_incarnation,
  seen_incarnation, foreign_checkpoint, journal_inconsistent, head_at, valid_prefix,
}

-- An observation of this capture, with the digest of its payload.
abbrev pub IsOfCapture : Platform → Entry → Type 0
IsOfCapture pf e =
    (e.source_system ≡ "atb.proxy")
    × (e.adapter ≡ "atb.intercept")
    × (e.adapter_version ≡ "1.0.0")
    × (e.representation_version ≡ "atb.intercept.event.v1")
    × (digest_representation pf e ≡ some e.representation_digest)

-- The checkpoint names a record of the bundle: the one behind which its count of records ends.
abbrev pub NamesRecord : Checkpoint → List Record → Type 0
NamesRecord cp rs =
    (n : ℕ) × (r : Record) × (cp.bundle_record_count ≡ pos (suc n))
    × (get_elem? rs n ≡ some r)
    × (r.hash ≡ cp.bundle_head_hash)

pub both : {a b : Bool} → (a && b) ≡ true → (a ≡ true) × (b ≡ true)
both {a = true} {b = b} h = (refl, h)
both {a = false} {b = b} h = cc

neither : {a b : Bool} → (a || b) ≡ false → (a ≡ false) × (b ≡ false)
neither {a = true} {b = b} h = cc
neither {a = false} {b = b} h = (refl, h)

not-false : (b : Bool) → not b ≡ false → b ≡ true
not-false true h = refl
not-false false h = cc

has_digest-eq :
    (d : Option String) (e : Entry) → has_digest d e ≡ true → d ≡ some e.representation_digest
unfolding has_digest
has_digest-eq none e h = cc
has_digest-eq (some d) e h = ap some ((eq_iff d e.representation_digest).0 h)

is_of_capture-IsOfCapture :
    (pf : Platform) (e : Entry) → is_of_capture pf e ≡ true → IsOfCapture pf e
unfolding is_of_capture
is_of_capture-IsOfCapture pf e h =
    let (a, h₁) = both h in
    let (b, h₂) = both h₁ in
    let (d, h₃) = both h₂ in
    let (f, g) = both h₃ in
    (
      (eq_iff _ _).0 a,
      (eq_iff _ _).0 b,
      (eq_iff _ _).0 d,
      (eq_iff _ _).0 f,
      has_digest-eq (digest_representation pf e) e g,
    )

all_of_capture-All :
    (pf : Platform) (es : List Entry) → all_of_capture pf es ≡ true → All (IsOfCapture pf) es
all_of_capture-All pf [] h = tt
all_of_capture-All pf (e ∷ es) h =
    let (a, b) = both h in (is_of_capture-IsOfCapture pf e a, all_of_capture-All pf es b)

one_incarnation-All :
    (i : String) (es : List Entry)
    → one_incarnation i es ≡ true
    → All (λ e. e.source_incarnation ≡ i) es
one_incarnation-All i [] h = tt
one_incarnation-All i (e ∷ es) h =
    let (a, b) = both h in ((eq_iff e.source_incarnation i).0 a, one_incarnation-All i es b)

-- The incarnation that the entries have is also that of the checkpoint, if it has one.
abbrev pub IsOfRun : String → List Entry → Result CheckpointError Checkpoint → Type 0
IsOfRun i [] o = Unit
IsOfRun i (e ∷ es) (err x) = Unit
IsOfRun i (e ∷ es) (ok cp) = (cp.source_incarnation ≡ "") ⊎ (cp.source_incarnation ≡ i)

seen_incarnation-one :
    (i j : String) (es : List Entry)
    → All (λ e. e.source_incarnation ≡ i) es
    → seen_incarnation j es ≡ true
    → j ≡ i
seen_incarnation-one i j [] all h = cc
seen_incarnation-one i j (e ∷ es) all h = elim (Bool-cases (str_eq e.source_incarnation j)) [
  | inl same ↦ sym ((eq_iff e.source_incarnation j).0 same) ∙ all.0
  | inr other ↦ seen_incarnation-one i j es all.1 (rw (other) at h)
]

foreign_checkpoint-IsOfRun :
    (i : String) (e : Entry) (es : List Entry) (o : Result CheckpointError Checkpoint)
    → All (λ x. x.source_incarnation ≡ i) (e ∷ es)
    → foreign_checkpoint (e ∷ es) o ≡ false
    → IsOfRun i (e ∷ es) o
unfolding foreign_checkpoint
foreign_checkpoint-IsOfRun i e es (err x) all h = tt
foreign_checkpoint-IsOfRun i e es (ok cp) all h =
    elim (Bool-cases (str_eq cp.source_incarnation "")) [
      | inl blank ↦ inl ((eq_iff cp.source_incarnation "").0 blank)
      | inr given ↦ inr (
          seen_incarnation-one i cp.source_incarnation (e ∷ es) all (not-false _ (rw (given) at h)))
    ]

-- A journal that is not inconsistent.
pub consistent :
    (pf : Platform) (es : List Entry) (o : Result CheckpointError Checkpoint)
    → journal_inconsistent pf es o ≡ false
    → All (IsOfCapture pf) es
      × (i : String) × All (λ e. e.source_incarnation ≡ i) es
      × IsOfRun i es o
unfolding journal_inconsistent
consistent pf [] o h = (tt, "", tt, tt)
consistent pf (e ∷ es) o h =
    let (a, h₁) = neither h in
    let (b, d) = neither h₁ in
    let all : All (λ x. x.source_incarnation ≡ e.source_incarnation) (e ∷ es) =
      (refl, one_incarnation-All e.source_incarnation es (not-false _ b)) in
    (
      all_of_capture-All pf (e ∷ es) (not-false (all_of_capture pf (e ∷ es)) a),
      e.source_incarnation,
      all,
      foreign_checkpoint-IsOfRun e.source_incarnation e es o all d,
    )

head_at-some :
    (h : String) (o : Option Record)
    → head_at h o ≡ true
    → (r : Record) × (o ≡ some r) × (r.hash ≡ h)
unfolding head_at
head_at-some h none t = cc
head_at-some h (some r) t = (r, refl, (eq_iff r.hash h).0 t)

-- What a valid prefix is, by the checkpoint's hash and count.
prefix_of_count :
    (h : String) (count : ℤ) (rs : List Record)
    → (if str_eq h "" || not (ltb_ℤ (pos 0) count) then false else elim count [
      | negsuc n ↦ false
      | pos n ↦ if ltb (length rs) n then false else head_at h (get_elem? rs (n - 1))
    ])
      ≡ true
    → (n : ℕ) × (r : Record) × (count ≡ pos (suc n)) × (get_elem? rs n ≡ some r) × (r.hash ≡ h)
prefix_of_count h (negsuc n) rs t = absurd (ground arith)
prefix_of_count h (pos zero) rs t = absurd (ground arith)
prefix_of_count h (pos (suc n)) rs t =
    let at : head_at h (get_elem? rs n) ≡ true = ground arith in
    let (r, there, same) = head_at-some h (get_elem? rs n) at in (n, r, refl, there, same)

eqb_ℤ-zero : (z : ℤ) → eqb_ℤ z (pos 0) ≡ true → z ≡ pos 0
eqb_ℤ-zero (pos n) h = ap pos (ground arith)
eqb_ℤ-zero (negsuc n) h = cc

valid_prefix-cases :
    (cp : Checkpoint) (rs : List Record)
    → valid_prefix cp rs ≡ true
    → NamesRecord cp rs ⊎ ((cp.bundle_head_hash ≡ "") × (cp.bundle_record_count ≡ pos 0))
unfolding valid_prefix
valid_prefix-cases cp rs h =
    elim (Bool-cases (str_eq cp.bundle_head_hash "" && eqb_ℤ cp.bundle_record_count (pos 0))) [
      | inl e ↦ let (a, b) = both e in inr ((eq_iff _ _).0 a, eqb_ℤ-zero cp.bundle_record_count b)
      | inr e ↦ inl (
          prefix_of_count cp.bundle_head_hash cp.bundle_record_count rs (rw (valid_prefix, e) at h))
    ]

-- With a committed position the checkpoint names a record.
pub bound_by :
    (cp : Checkpoint) (rs : List Record) (committed : ℕ)
    → valid_prefix cp rs ≡ true
    → (ltb 0 committed && (str_eq cp.bundle_head_hash "" || eqb_ℤ cp.bundle_record_count (pos 0)))
      ≡ false
    → NamesRecord cp rs
      ⊎ ((committed ≡ 0) × (cp.bundle_head_hash ≡ "") × (cp.bundle_record_count ≡ pos 0))
bound_by cp rs zero v g = elim (valid_prefix-cases cp rs v) [
  | inl named ↦ inl named
  | inr (a, b) ↦ inr (refl, a, b)
]
bound_by cp rs (suc n) v g = elim (valid_prefix-cases cp rs v) [
  | inl named ↦ inl named
  | inr (a, b) ↦
      let blank : str_eq cp.bundle_head_hash "" ≡ true = (eq_iff _ _).1 a in
      absurd (ground (arith, blank))
]
