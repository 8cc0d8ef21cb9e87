-- ===== src/Expr/Like.antt =====
-- executor/eval.rs: LIKE, by a pattern that is translated and then matched. A text is the list of
-- its characters, as code points.
pub mod Correct
use heliondb.Base.{
  ℕ, zero, suc, ◌+◌, Bool, true, false, ◌&&◌, ◌||◌, List, [], ◌∷◌, ◌++◌, if◌then◌else◌, ◌==◌,
  length, any,
}

-- The characters that `like_to_regex` escapes.
special : ℕ → Bool
special c =
    any (λ k. c == k)
      (b'.' ∷ b'*' ∷ b'+' ∷ b'?' ∷ b'^' ∷ b'$' ∷ b'|' ∷ b'(' ∷ b')' ∷ b'[' ∷ b']' ∷ b'{' ∷ b'}'
        ∷ b'\\' ∷ [])

translate : ℕ → List ℕ → List ℕ
unfolding special
translate c rest =
    if c == b'%'
    then b'.' ∷ b'*' ∷ rest
    else if c == b'_'
    then b'.' ∷ rest
    else if special c
    then b'\\' ∷ c ∷ rest
    else c ∷ rest

unfoldable pub like_to_regex : List ℕ → List ℕ
unfolding translate
like_to_regex [] = []
like_to_regex (c ∷ cs) = translate c (like_to_regex cs)

-- `simple_match` on what is left of the pattern and of the text. Each call takes something off
-- one of them, so their lengths and one more are enough fuel.
pub simple_match : ℕ → List ℕ → List ℕ → Bool
simple_match zero pat s = false
simple_match (suc fuel) [] [] = true
simple_match (suc fuel) [] (x ∷ s) = false
simple_match (suc fuel) (p ∷ []) [] = false
simple_match (suc fuel) (p ∷ q ∷ pat) [] =
    let rest = simple_match fuel pat [] in p == b'.' && q == b'*' && rest
simple_match (suc fuel) (p ∷ []) (x ∷ s) =
    let rest = simple_match fuel [] s in if p == b'.' then rest else if p == x then rest else false
simple_match (suc fuel) (p ∷ q ∷ pat) (x ∷ s) =
    let empty = simple_match fuel pat (x ∷ s) in
    let longer = simple_match fuel (p ∷ q ∷ pat) s in
    let one = simple_match fuel (q ∷ pat) s in
    let escaped = simple_match fuel pat s in
    if p == b'.' && q == b'*'
    then empty || longer
    else if p == b'.'
    then one
    else if p == b'\\'
    then q == x && escaped
    else if p == x
    then one
    else false

unfoldable pub regex_lite : List ℕ → List ℕ → Bool
unfolding simple_match
regex_lite pattern s = simple_match (length pattern + length s + 1) pattern s
