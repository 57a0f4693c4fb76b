-- ===== src/Canonicalize/Sort/Laws.antt =====
-- The sorted members are in ascending order of their keys, and do not depend on the order given.
use atb.Prelude.{
  refl, sym, ap, subst, codes, ◌++◌, Bool-cases, ◌≡◌, ◌≢◌, ◌⊎◌, String, true, List, [], ◌∷◌, inl,
  inr, arith,
}
use atb.Canonicalize.Keys.{utf16_less}
use atb.Canonicalize.Keys.Laws.{utf16_less_irrefl, utf16_less_trans, utf16_less_connected}
use atb.Canonicalize.Keys.Runes.{IsBefore, utf16_less-IsBefore}
use atb.Canonicalize.Sort.{Member, insert, sort}

-- Each key is strictly before the next one, in the order of UTF-16, which is stated by the runes.
abbrev pub IsAscending : List Member → Type 0
IsAscending [] = Unit
IsAscending (m ∷ []) = Unit
IsAscending (m ∷ n ∷ ns) = IsBefore (codes m.0) (codes n.0) × IsAscending (n ∷ ns)

-- The same members in another order.
pub data IsRearranged : List Member → List Member → Type 0 where
  no_members : IsRearranged [] []
  one_more :
      (m : Member) (ms front back : List Member)
      → IsRearranged ms (front ++ back)
      → IsRearranged (m ∷ ms) (front ++ m ∷ back)

abbrev IsSorted : List Member → Type 0
IsSorted [] = Unit
IsSorted (m ∷ []) = Unit
IsSorted (m ∷ n ∷ ns) = (utf16_less m.0 n.0 ≡ true) × IsSorted (n ∷ ns)

IsSorted-IsAscending : (ms : List Member) → IsSorted ms → IsAscending ms
IsSorted-IsAscending [] h = tt
IsSorted-IsAscending (m ∷ []) h = tt
IsSorted-IsAscending (m ∷ n ∷ ns) h =
    ((utf16_less-IsBefore m.0 n.0).0 h.0, IsSorted-IsAscending (n ∷ ns) h.1)

insert-splits :
    (m : Member) (ns : List Member)
    → (front : List Member) × (back : List Member) × (ns ≡ front ++ back)
      × (insert m ns ≡ front ++ m ∷ back)
unfolding insert
insert-splits m [] = ([], [], refl, refl)
insert-splits m (n ∷ ns) = elim (Bool-cases (utf16_less n.0 m.0)) [
  | inl e ↦
      let (front, back, whole, put) = insert-splits m ns in
      (n ∷ front, back, ap (λ l. n ∷ l) whole, rw (insert, e) (ap (λ l. n ∷ l) put))
  | inr e ↦ ([], n ∷ ns, refl, rw (insert, e) refl)
]

sort-IsRearranged : (ms : List Member) → IsRearranged ms (sort ms)
unfolding sort
sort-IsRearranged [] = no_members
sort-IsRearranged (m ∷ ms) =
    let (front, back, whole, put) = insert-splits m (sort ms) in
    subst (IsRearranged (m ∷ ms)) (sym put)
      (one_more m ms front back (subst (IsRearranged ms) whole (sort-IsRearranged ms)))

abbrev pub HasKey : String → List Member → Type 0
HasKey k [] = ⊥
HasKey k (m ∷ ms) = (m.0 ≡ k) ⊎ HasKey k ms

abbrev pub IsDistinct : List Member → Type 0
IsDistinct [] = Unit
IsDistinct (m ∷ ms) = ¬ HasKey m.0 ms × IsDistinct ms

insert-insert :
    (a b : Member) (ms : List Member) → a.0 ≢ b.0 → insert a (insert b ms) ≡ insert b (insert a ms)
unfolding insert
insert-insert a b [] h =
    ground
      (arith, utf16_less_connected a.0 b.0, utf16_less_trans a.0 b.0 a.0, utf16_less_irrefl a.0)
insert-insert a b (m ∷ ms) h = ground (
  arith,
  utf16_less_connected a.0 b.0,
  utf16_less_trans a.0 b.0 a.0,
  utf16_less_irrefl a.0,
  utf16_less_trans m.0 a.0 b.0,
  utf16_less_trans m.0 b.0 a.0,
  insert-insert a b ms,
)

HasKey-insert :
    (k : String) (m : Member) (ns : List Member) → HasKey k (insert m ns) → HasKey k (m ∷ ns)
unfolding insert
HasKey-insert k m [] h = h
HasKey-insert k m (n ∷ ns) h = ground (arith, HasKey-insert k m ns)

HasKey-sort : (k : String) (ms : List Member) → HasKey k (sort ms) → HasKey k ms
unfolding sort
HasKey-sort k [] h = h
HasKey-sort k (m ∷ ms) h = elim (HasKey-insert k m (sort ms) h) [
  | inl e ↦ inl e
  | inr t ↦ inr (HasKey-sort k ms t)
]

insert-IsSorted :
    (m : Member) (ns : List Member) → ¬ HasKey m.0 ns → IsSorted ns → IsSorted (insert m ns)
unfolding insert
insert-IsSorted m [] h s = tt
insert-IsSorted m (n ∷ []) h s = ground (arith, utf16_less_connected n.0 m.0)
insert-IsSorted m (n ∷ p ∷ ns) h s =
    ground (arith, utf16_less_connected n.0 m.0, insert-IsSorted m (p ∷ ns))

sort-IsSorted : (ms : List Member) → IsDistinct ms → IsSorted (sort ms)
unfolding sort
sort-IsSorted [] h = tt
sort-IsSorted (m ∷ ms) h =
    insert-IsSorted m (sort ms) (λ k. h.0 (HasKey-sort m.0 ms k)) (sort-IsSorted ms h.1)

-- Members with different keys are put in strictly ascending order of their keys, each of them once: by
-- the first rune that differs, where runes from 0x10000 on come before those from 0xE000 to 0xFFFF, as
-- their UTF-16 units do.
pub sort-IsAscending :
    (ms : List Member) → IsDistinct ms → IsAscending (sort ms) × IsRearranged ms (sort ms)
sort-IsAscending ms h = (IsSorted-IsAscending (sort ms) (sort-IsSorted ms h), sort-IsRearranged ms)

-- Two neighbours with different keys may be exchanged.
pub sort-swap :
    (a b : Member) (ms : List Member) → a.0 ≢ b.0 → sort (a ∷ b ∷ ms) ≡ sort (b ∷ a ∷ ms)
unfolding sort
sort-swap a b ms h = insert-insert a b (sort ms) h

pub sort-cons :
    (a b : Member) (ms ns : List Member) → a ≡ b → sort ms ≡ sort ns → sort (a ∷ ms) ≡ sort (b ∷ ns)
unfolding sort
sort-cons a b ms ns p q = cc
