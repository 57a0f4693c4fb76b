-- ===== src/Acquisition/Checkpoint/Laws.antt =====
-- What a checkpoint admits (internal/acquisition/checkpoint.go).
use atb.Prelude.{
  same_iff, ◌≡◌, ◌≢◌, ◌↔◌, ◌⊎◌, inl, inr, refl, sym, ap, subst, String, Bool, true, false, not,
  ◌&&◌, ◌||◌, Option, some, str_eq, eq_iff, Bool-cases, if◌then◌else◌,
}
use atb.Prelude.Int.{eqb_ℤ→eq, eqb_ℤ-refl, ℤ, pos, eqb_ℤ, ltb_ℤ}
use atb.Prelude.Result.{ok, fail_if, ◌>>◌, fail_if-ok}
use atb.Acquisition.Checkpoint.{
  Checkpoint, CheckpointError, CheckpointCodec, Source, differ, validate, validate_bundle,
  bind_bundle, update_position, load, save, load_or_create, versioned, supported, bundle_mismatch,
  decoded_file, or_create,
}

-- Two names agree, or one of them is not given.
abbrev pub IsCompatible : String → String → Type 0
IsCompatible expected recorded = (expected ≡ "") ⊎ (recorded ≡ "") ⊎ (recorded ≡ expected)

-- The checkpoint is one of the source.
pub record IsOf (cp : Checkpoint) (s : Source) : Type 0 where
  pub system_same : cp.source_system ≡ s.system
  pub stream_same : cp.acquisition_stream ≡ s.stream
  pub adapter_same : cp.adapter ≡ s.adapter
  pub version_compatible : IsCompatible s.adapter_version cp.adapter_version
  pub incarnation_compatible : IsCompatible s.incarnation cp.source_incarnation

one_true :
    (x y z : Bool) → (not x && (not y && not z)) ≡ false → (x ≡ true) ⊎ (y ≡ true) ⊎ (z ≡ true)
one_true true y z p = inl refl
one_true false true z p = inr (inl refl)
one_true false false true p = inr (inr refl)
one_true false false false p = cc

none_false :
    (x y z : Bool) → (x ≡ true) ⊎ (y ≡ true) ⊎ (z ≡ true) → (not x && (not y && not z)) ≡ false
none_false true y z h = refl
none_false false true z h = refl
none_false false false true h = refl
none_false false false false (inl p) = cc
none_false false false false (inr (inl p)) = cc
none_false false false false (inr (inr p)) = cc

differ→IsCompatible : (e r : String) → differ e r ≡ false → IsCompatible e r
differ→IsCompatible e r p = elim (one_true (str_eq e "") (str_eq r "") (str_eq r e) p) [
  | inl x ↦ inl ((eq_iff e "").0 x)
  | inr (inl y) ↦ inr (inl ((eq_iff r "").0 y))
  | inr (inr z) ↦ inr (inr ((eq_iff r e).0 z))
]

IsCompatible→differ : (e r : String) → IsCompatible e r → differ e r ≡ false
IsCompatible→differ e r h = none_false (str_eq e "") (str_eq r "") (str_eq r e) (elim h [
  | inl x ↦ inl ((eq_iff e "").1 x)
  | inr (inl y) ↦ inr (inl ((eq_iff r "").1 y))
  | inr (inr z) ↦ inr (inr ((eq_iff r e).1 z))
])

-- Five guards in a row.
all_passed :
    (a b c d e : Bool) (u v w x y : CheckpointError)
    → (fail_if a u >> (fail_if b v >> (fail_if c w >> (fail_if d x >> fail_if e y)))) ≡ ok tt
    → (a ≡ false) × (b ≡ false) × (c ≡ false) × (d ≡ false) × (e ≡ false)
all_passed true b c d e u v w x y p = cc
all_passed false true c d e u v w x y p = cc
all_passed false false true d e u v w x y p = cc
all_passed false false false true e u v w x y p = cc
all_passed false false false false true u v w x y p = cc
all_passed false false false false false u v w x y p = (refl, refl, refl, refl, refl)

pass_all :
    (a b c d e : Bool) (u v w x y : CheckpointError)
    → a ≡ false
    → b ≡ false
    → c ≡ false
    → d ≡ false
    → e ≡ false
    → (fail_if a u >> (fail_if b v >> (fail_if c w >> (fail_if d x >> fail_if e y)))) ≡ ok tt
pass_all a b c d e u v w x y p q r s t = rw (p, q, r, s, t) refl

-- Validate passes exactly the checkpoints of the source: system, stream and adapter are the same, and
-- the adapter version and the incarnation agree where both sides give one.
pub validate_iff : (cp : Checkpoint) (s : Source) → (validate cp s ≡ ok tt) ↔ IsOf cp s
unfolding validate
validate_iff cp s = (
  λ p.
      let (a, b, c, d, e) = all_passed _ _ _ _ _ _ _ _ _ _ p in
      record {
        system_same = (same_iff cp.source_system s.system).0 a;
        stream_same = (same_iff cp.acquisition_stream s.stream).0 b;
        adapter_same = (same_iff cp.adapter s.adapter).0 c;
        version_compatible = differ→IsCompatible s.adapter_version cp.adapter_version d;
        incarnation_compatible = differ→IsCompatible s.incarnation cp.source_incarnation e;
      },
  λ h.
      pass_all _ _ _ _ _ _ _ _ _ _ ((same_iff cp.source_system s.system).1 h.system_same)
        ((same_iff cp.acquisition_stream s.stream).1 h.stream_same)
        ((same_iff cp.adapter s.adapter).1 h.adapter_same)
        (IsCompatible→differ s.adapter_version cp.adapter_version h.version_compatible)
        (IsCompatible→differ s.incarnation cp.source_incarnation h.incarnation_compatible),
)

both_true : (x y : Bool) → not x || not y ≡ false → (x ≡ true) × (y ≡ true)
both_true true true p = (refl, refl)
both_true true false p = cc
both_true false y p = cc

given : (s : String) → s ≢ "" → str_eq s "" ≡ false
given s h = elim (Bool-cases (str_eq s "")) [ inl e ↦ absurd (h ((eq_iff s "").0 e)) | inr e ↦ e ]

bundle_guard :
    (b x y : Bool) (e : CheckpointError)
    → b ≡ false
    → (if b then ok tt else fail_if (not x || not y) e) ≡ ok tt
    → (x ≡ true) × (y ≡ true)
bundle_guard b x y e q p = both_true x y (fail_if-ok (not x || not y) e (rw q at p))

bundle_pass :
    (b x y : Bool) (e : CheckpointError)
    → x ≡ true
    → y ≡ true
    → (if b then ok tt else fail_if (not x || not y) e) ≡ ok tt
bundle_pass true x y e p q = refl
bundle_pass false x y e p q = rw (p, q) refl

-- A checkpoint that is bound to a head with a name admits the bundle with that head and that number of
-- records, and no other.
pub validate_bundle-bind_bundle :
    (cp : Checkpoint) (head other : String) (n m : ℤ)
    → head ≢ ""
    → (validate_bundle (bind_bundle cp head n) other m ≡ ok tt) ↔ ((head ≡ other) × (n ≡ m))
unfolding validate_bundle bind_bundle
validate_bundle-bind_bundle cp head other n m h = (
  λ p.
      let (x, y) =
        bundle_guard (str_eq head "") (str_eq head other) (eqb_ℤ n m)
          (bundle_mismatch head n other m) (given head h) p in
      ((eq_iff head other).0 x, eqb_ℤ→eq n m y),
  λ p.
      bundle_pass (str_eq head "") (str_eq head other) (eqb_ℤ n m) (bundle_mismatch head n other m)
        ((eq_iff head other).1 p.0) (subst (λ k. eqb_ℤ n k ≡ true) p.1 (eqb_ℤ-refl n)),
)

module _ (cp : Checkpoint) where
  versioned-versioned : versioned (versioned cp) ≡ versioned cp
  versioned-versioned = elim (Bool-cases (eqb_ℤ cp.format_version (pos 0))) [
    | inl e ↦ rw e refl
    | inr e ↦ rw (e, e) refl
  ]

  versioned-old :
      ltb_ℤ (pos 1) cp.format_version ≡ false → ltb_ℤ (pos 1) (versioned cp).format_version ≡ false
  versioned-old old = elim (Bool-cases (eqb_ℤ cp.format_version (pos 0))) [
    | inl e ↦ rw e refl
    | inr e ↦ rw e old
  ]

decoded_file-old :
    (o : Option Checkpoint) (cp : Checkpoint)
    → o ≡ some (versioned cp)
    → ltb_ℤ (pos 1) cp.format_version ≡ false
    → decoded_file o ≡ ok (versioned cp)
unfolding decoded_file supported
decoded_file-old o cp p old =
    rw (p, decoded_file)
      (subst (λ x. supported x ≡ ok (versioned cp)) (sym (versioned-versioned cp))
        (rw (versioned-old cp old) refl))

-- A checkpoint that is not of a newer format is loaded as it was saved, a missing version read as 1.
load-save :
    (c : CheckpointCodec) (cp : Checkpoint)
    → ltb_ℤ (pos 1) cp.format_version ≡ false
    → c.decode (c.encode (versioned cp)) ≡ some (versioned cp)
    → load c (save c cp) ≡ ok (versioned cp)
unfolding load save
load-save c cp old law = decoded_file-old (c.decode (c.encode (versioned cp))) cp law old

-- Where JSON gives back what it encoded, a run that goes on from a checkpoint that is valid for its
-- source and not of a newer format, moves it and binds it to a bundle's head, which is not the empty text,
-- leaves a file from which the next run of that source takes the same checkpoint; the checkpoint then
-- passes Validate for the source, and ValidateBundle for exactly that head and number of records.
pub resume :
    (c : CheckpointCodec) (cp : Checkpoint) (s : Source) (position digest now later head : String)
    (count records : ℤ)
    → let moved = bind_bundle (update_position cp position digest count now) head records in
      c.decode (c.encode (versioned moved)) ≡ some (versioned moved)
      → validate cp s ≡ ok tt
      → ltb_ℤ (pos 1) cp.format_version ≡ false
      → head ≢ ""
      → let next =
          versioned (bind_bundle (update_position cp position digest count now) head records) in
        (load_or_create c
            (save c (bind_bundle (update_position cp position digest count now) head records))
            s
            later
          ≡ ok next)
        × (validate next s ≡ ok tt)
        × ((other : String) (n : ℤ)
            → (validate_bundle next other n ≡ ok tt) ↔ ((head ≡ other) × (records ≡ n)))
unfolding load_or_create or_create update_position bind_bundle validate_bundle
resume c cp s position digest now later head count records law v old h =
    let moved = bind_bundle (update_position cp position digest count now) head records in
    let of = (validate_iff cp s).0 v in
    (
      ap (or_create s later) (load-save c moved old law),
      (validate_iff (versioned moved) s).1 (record {
        system_same = of.system_same;
        stream_same = of.stream_same;
        adapter_same = of.adapter_same;
        version_compatible = of.version_compatible;
        incarnation_compatible = of.incarnation_compatible;
      }),
      λ other n. validate_bundle-bind_bundle (versioned cp) head other records n h,
    )
