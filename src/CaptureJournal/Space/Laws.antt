-- ===== src/CaptureJournal/Space/Laws.antt =====
-- A JSON object and its line feed: what trimming leaves of the line.
use atb.Prelude.{
  ℕ, suc, ◌+◌, ◌≡◌, refl, ap, ◌∙◌, false, List, [], ◌∷◌, ◌++◌, none, length, length-append, arith,
}
use atb.CaptureJournal.Space.{
  is_space_2, is_space_3, trim_space, reversed, reverse_onto, drop_all, drop_front, drop_back, wide,
  wide_back,
}

reverse_onto-append :
    (acc s t : List ℕ) → reverse_onto acc (s ++ t) ≡ reverse_onto (reverse_onto acc s) t
reverse_onto-append acc [] t = refl
reverse_onto-append acc (b ∷ s) t = reverse_onto-append (b ∷ acc) s t

reverse_onto-reverse_onto :
    (x acc s : List ℕ) → reverse_onto x (reverse_onto acc s) ≡ reverse_onto (s ++ x) acc
reverse_onto-reverse_onto x acc [] = refl
reverse_onto-reverse_onto x acc (b ∷ s) = reverse_onto-reverse_onto x (b ∷ acc) s

wide-brace : (r : List ℕ) → wide 123 r ≡ none
unfolding wide
wide-brace [] = refl
wide-brace (b ∷ []) = refl
wide-brace (b ∷ c ∷ r) = refl

no_space_2 : (b : ℕ) → is_space_2 b 125 ≡ false
no_space_2 b = ground arith

no_space_3 : (a b : ℕ) → is_space_3 a b 125 ≡ false
no_space_3 a b = ground arith

wide_back-brace : (r : List ℕ) → wide_back 125 r ≡ none
unfolding wide_back
wide_back-brace [] = refl
wide_back-brace (b ∷ []) = rw (no_space_2 b) refl
wide_back-brace (b ∷ c ∷ r) = rw (no_space_2 b, no_space_3 c b) refl

module _ (body : List ℕ) where
  abbrev line : List ℕ
  line = 123 ∷ (body ++ 125 ∷ 10 ∷ [])

  front : (n : ℕ) → drop_all drop_front (suc n) line ≡ line
  unfolding drop_all drop_front
  front n = rw (drop_all, wide-brace (body ++ 125 ∷ 10 ∷ [])) refl

  back : (n : ℕ) (r : List ℕ) → drop_all drop_back (suc (suc n)) (10 ∷ 125 ∷ r) ≡ 125 ∷ r
  unfolding drop_all drop_back
  back n r = rw (drop_all, wide_back-brace r) refl

  long_enough : length line ≡ suc (suc (length body + 1))
  long_enough = omega (arith, length-append body (125 ∷ 10 ∷ []))

  -- Trimming takes the line feed behind an object, and nothing else.
  pub trim_space-line : trim_space line ≡ 123 ∷ (body ++ 125 ∷ [])
  unfolding trim_space
  trim_space-line =
      let k = length body + 1 in
      ap (λ f. reversed (drop_all drop_back (length f) (reversed f)))
        (front (length (body ++ 125 ∷ 10 ∷ [])))
      ∙ ap (λ n. reversed (drop_all drop_back n (reversed line))) long_enough
      ∙ ap (λ l. reversed (drop_all drop_back (suc (suc k)) l))
          (reverse_onto-append [] (123 ∷ body) (125 ∷ 10 ∷ []))
      ∙ ap reversed (back k (reversed (123 ∷ body)))
      ∙ reverse_onto-reverse_onto (125 ∷ []) [] (123 ∷ body)
