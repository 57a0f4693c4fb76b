-- ===== src/Bundle/Load/Prefix/Laws.antt =====
-- The tracker's running state is a function of the bytes that were added, however they were cut into
-- lines (internal/bundle/bundle.go).
use atb.Prelude.{
  ℕ, suc, ◌+◌, ◌≡◌, refl, ap, sym, true, List, [], ◌∷◌, ◌++◌, length, length-append, ltb, arith,
  if◌then◌else◌,
}
use atb.Bundle.Load.Prefix.{Tracker, init, last_byte, byte_before, add}

-- The state behind the bytes `bs`, written without the running updates.
abbrev pub behind : List ℕ → Tracker
behind bs = record {
  with_lf = bs;
  without_last_byte = init bs;
  processed = length bs;
  previous = last_byte 0 bs;
  before_previous = byte_before 0 bs;
}

pub init-snoc : (b : ℕ) (bs : List ℕ) → init (b ∷ bs) ++ last_byte b bs ∷ [] ≡ b ∷ bs
init-snoc b [] = refl
init-snoc b (c ∷ r) = ap (λ l. b ∷ l) (init-snoc c r)

pub init-append : (bs : List ℕ) (b : ℕ) (r : List ℕ) → init (bs ++ b ∷ r) ≡ bs ++ init (b ∷ r)
init-append [] b r = refl
init-append (x ∷ []) b r = refl
init-append (x ∷ y ∷ bs) b r = ap (λ l. x ∷ l) (init-append (y ∷ bs) b r)

pub last_byte-append :
    (d : ℕ) (bs : List ℕ) (b : ℕ) (r : List ℕ) → last_byte d (bs ++ b ∷ r) ≡ last_byte b r
last_byte-append d [] b r = refl
last_byte-append d (x ∷ bs) b r = last_byte-append x bs b r

pub byte_before-snoc :
    (x : ℕ) (bs : List ℕ) (b d : ℕ) → byte_before d ((x ∷ bs) ++ b ∷ []) ≡ last_byte x bs
byte_before-snoc x [] b d = refl
byte_before-snoc x (y ∷ bs) b d = byte_before-snoc y bs b x

pub byte_before-append :
    (d : ℕ) (bs : List ℕ) (b c : ℕ) (r : List ℕ)
    → byte_before d (bs ++ b ∷ c ∷ r) ≡ byte_before b (c ∷ r)
byte_before-append d [] b c r = refl
byte_before-append d (x ∷ []) b c r = refl
byte_before-append d (x ∷ y ∷ bs) b c r = byte_before-append x (y ∷ bs) b c r

pub append_nil : (bs : List ℕ) → bs ≡ bs ++ []
append_nil [] = refl
append_nil (x ∷ bs) = ap (λ r. x ∷ r) (append_nil bs)

append_nil' : (bs : List ℕ) → bs ++ [] ≡ bs
append_nil' bs = sym (append_nil bs)

length_after :
    (bs : List ℕ) (b : ℕ) (r : List ℕ) → length bs + suc (length r) ≡ length (bs ++ b ∷ r)
length_after bs b r = omega (arith, length-append bs (b ∷ r))

is_positive : (n : ℕ) → ltb 0 (suc n) ≡ true
is_positive n = ground arith

Tracker-eq :
    {s t : Tracker}
    → s.with_lf ≡ t.with_lf
    → s.without_last_byte ≡ t.without_last_byte
    → s.processed ≡ t.processed
    → s.previous ≡ t.previous
    → s.before_previous ≡ t.before_previous
    → s ≡ t
Tracker-eq p q r u v = λ i. record {
  with_lf = p i;
  without_last_byte = q i;
  processed = r i;
  previous = u i;
  before_previous = v i;
}

-- What `add` appends to the hash without the last byte.
written :
    (x : ℕ) (bs : List ℕ)
    → (if ltb 0 (suc (length bs)) then init (x ∷ bs) ++ last_byte x bs ∷ [] else init (x ∷ bs))
      ≡ x ∷ bs
written x bs = rw (is_positive (length bs), init-snoc x bs)

-- Adding a line moves the tracker from the state behind some bytes to the one behind these and the line.
pub add-behind : (bs raw : List ℕ) → add (behind bs) raw ≡ behind (bs ++ raw)
unfolding add
add-behind [] [] = refl
add-behind (x ∷ bs) [] = ap behind (append_nil (x ∷ bs))
add-behind [] (b ∷ []) = refl
add-behind [] (b ∷ c ∷ r) = Tracker-eq refl refl (omega arith) refl refl
add-behind (x ∷ bs) (b ∷ []) =
    Tracker-eq refl (rw (written x bs, init-append (x ∷ bs) b [], append_nil' bs))
      (length_after (x ∷ bs) b []) (sym (last_byte-append x bs b []))
      (sym (byte_before-snoc x bs b 0))
add-behind (x ∷ bs) (b ∷ c ∷ r) =
    Tracker-eq refl (rw (written x bs, init-append (x ∷ bs) b (c ∷ r)))
      (length_after (x ∷ bs) b (c ∷ r)) (sym (last_byte-append x bs b (c ∷ r)))
      (sym (byte_before-append 0 (x ∷ bs) b c r))
