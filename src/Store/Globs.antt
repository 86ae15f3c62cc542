-- ===== src/Store/Globs.antt =====
-- `globToLike` of internal/store/sqlite/search.go against the matching of globs and that of LIKE patterns with
-- the escape character `\`. How LIKE compares two characters is a parameter.
use omni_logging.Common.{
  ◌≡◌, refl, ap, ℕ, Bool, true, false, ◌&&◌, ◌||◌, inl, inr, [], ◌∷◌, if◌then◌else◌, ◌==◌, Text,
  Bool-cases, arith,
}
use omni_logging.Store.Conditions.{glob_to_like}

-- Some rest of the text has it.
unfoldable pub any_rest : (Text → Bool) → Text → Bool
any_rest p [] = p []
any_rest p (c ∷ s) = let rest = any_rest p s in p (c ∷ s) || rest

-- The text has a first character, and it and the rest have it.
unfoldable pub headed : (ℕ → Text → Bool) → Text → Bool
headed p [] = false
headed p (d ∷ t) = p d t

-- A glob matches a text: `*` any part of it, any other character itself.
unfoldable pub glob_matches : (ℕ → ℕ → Bool) → Text → Text → Bool
unfolding any_rest headed
glob_matches alike [] [] = true
glob_matches alike [] (d ∷ s) = false
glob_matches alike (c ∷ glob) s =
    let star = any_rest (glob_matches alike glob) s in
    let one = headed (λ d t. alike c d && glob_matches alike glob t) s in
    if c == b'*' then star else one

-- A LIKE pattern matches a text: `%` any part of it, `_` one character, and a character behind `\` itself. A pattern
-- that ends in `\` matches nothing.
unfoldable pub like_matches : (ℕ → ℕ → Bool) → Bool → Text → Text → Bool
unfolding any_rest headed
like_matches alike escaped [] [] = if escaped then false else true
like_matches alike escaped [] (d ∷ s) = false
like_matches alike true (c ∷ p) s = headed (λ d t. alike c d && like_matches alike false p t) s
like_matches alike false (c ∷ p) s =
    let star = any_rest (like_matches alike false p) s in
    let rest = like_matches alike true p s in
    let any_one = headed (λ d t. like_matches alike false p t) s in
    let one = headed (λ d t. alike c d && like_matches alike false p t) s in
    if c == b'%' then star else if c == b'\\' then rest else if c == b'_' then any_one else one

apart : (a b c : Bool) → (a || (b || c)) ≡ false → (a ≡ false) × (b ≡ false) × (c ≡ false)
apart a b c h = ground arith

-- The pattern that is made of a glob matches exactly the texts that the glob matches, whatever characters it has: `%`,
-- `_` and `\` stand for themselves.
pub glob_to_like-matches :
    (alike : ℕ → ℕ → Bool) (glob s : Text)
    → like_matches alike false (glob_to_like glob) s ≡ glob_matches alike glob s
unfolding glob_to_like like_matches glob_matches
glob_to_like-matches alike [] [] = refl
glob_to_like-matches alike [] (d ∷ s) = refl
glob_to_like-matches alike (c ∷ glob) s =
    let same : like_matches alike false (glob_to_like glob) ≡ glob_matches alike glob =
      λ i t. glob_to_like-matches alike glob t i in
    elim (Bool-cases (c == b'*')) [
      | inl e ↦ rw e (ap (λ p. any_rest p s) same)
      | inr e ↦ elim (Bool-cases (c == b'%' || (c == b'_' || c == b'\\'))) [
        | inl h ↦ rw (e, h) (ap (λ p. headed (λ d t. alike c d && p t) s) same)
        | inr h ↦
            let plain = apart (c == b'%') (c == b'_') (c == b'\\') h in
            rw (e, h, plain.0, plain.1, plain.2) (ap (λ p. headed (λ d t. alike c d && p t) s) same)
      ]
    ]
