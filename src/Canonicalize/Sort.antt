-- ===== src/Canonicalize/Sort.antt =====
-- sort.Slice over the keys of an object, as writeValue calls it (internal/canonicalize/canonicalize.go).
-- The keys of a Go map are distinct, so every sorting algorithm gives the one ascending order;
-- here it is insertion.
pub mod Laws
use atb.Prelude.{ℕ, String, Bool, List, [], ◌∷◌, if◌then◌else◌}
use atb.Canonicalize.Keys.{utf16_less}

-- A key with the text written for its value.
abbrev pub Member : Type 0
Member = String × List ℕ

pub insert : Member → List Member → List Member
insert m [] = m ∷ []
insert m (n ∷ ns) = if utf16_less n.0 m.0 then n ∷ insert m ns else m ∷ n ∷ ns

unfoldable pub sort : List Member → List Member
unfolding insert
sort [] = []
sort (m ∷ ms) = insert m (sort ms)
