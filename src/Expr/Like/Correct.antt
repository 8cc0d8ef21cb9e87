-- ===== src/Expr/Like/Correct.antt =====
-- executor/eval.rs: LIKE, that the translated pattern matches what the pattern means.
use heliondb.Base.{
  ℕ, zero, suc, ◌+◌, ◌<◌, Bool, true, false, ◌&&◌, ◌||◌, List, [], ◌∷◌, if◌then◌else◌, ◌==◌, length,
  ◌≡◌, ◌≢◌, ◌↔◌, inl, inr, refl, arith, Bool-cases,
}
use heliondb.Expr.Like.{special, translate, like_to_regex, simple_match, regex_lite}

-- What a LIKE pattern means: `%` stands for any characters, `_` for one, any other character for
-- itself.
pub data Matches : List ℕ → List ℕ → Type 0 where
  done : Matches [] []
  skip : {c : ℕ} {p s : List ℕ} → c ≡ b'%' → Matches p s → Matches (c ∷ p) s
  take : {c x : ℕ} {p s : List ℕ} → c ≡ b'%' → Matches (c ∷ p) s → Matches (c ∷ p) (x ∷ s)
  one : {c x : ℕ} {p s : List ℕ} → c ≡ b'_' → Matches p s → Matches (c ∷ p) (x ∷ s)
  same :
      {c x : ℕ} {p s : List ℕ} → c ≢ b'%' → c ≢ b'_' → c ≡ x → Matches p s → Matches (c ∷ p) (x ∷ s)

-- The same as a function.
like : List ℕ → List ℕ → Bool
like [] [] = true
like [] (x ∷ s) = false
like (c ∷ p) [] = c == b'%' && like p []
like (c ∷ p) (x ∷ s) =
    let empty = like p (x ∷ s) in
    let longer = like (c ∷ p) s in
    let rest = like p s in
    if c == b'%' then empty || longer else if c == b'_' then rest else c == x && rest

like→Matches : (p s : List ℕ) → like p s ≡ true → Matches p s
unfolding like
like→Matches [] [] h = done
like→Matches [] (x ∷ s) h = cc
like→Matches (c ∷ p) [] h = skip (ground arith) (like→Matches p [] (ground arith))
like→Matches (c ∷ p) (x ∷ s) h = elim (Bool-cases (c == b'%')) [
  | inl percent ↦ elim (Bool-cases (like p (x ∷ s))) [
    | inl e ↦ skip (ground arith) (like→Matches p (x ∷ s) e)
    | inr n ↦ take (ground arith) (like→Matches (c ∷ p) s (ground arith))
  ]
  | inr other ↦ elim (Bool-cases (c == b'_')) [
    | inl under ↦ one (ground arith) (like→Matches p s (ground arith))
    | inr plain ↦
        same (ground arith) (ground arith) (ground arith) (like→Matches p s (ground arith))
  ]
]

Matches→like : {p s : List ℕ} → Matches p s → like p s ≡ true
unfolding like
Matches→like done = refl
Matches→like (skip {p} {s = []} e m) = ground (arith, Matches→like m)
Matches→like (skip {p} {s = x ∷ s} e m) = ground (arith, Matches→like m)
Matches→like (take e m) = ground (arith, Matches→like m)
Matches→like (one e m) = ground (arith, Matches→like m)
Matches→like (same a b e m) = ground (arith, Matches→like m)

-- A translated pattern never begins with a star.
abbrev NoStar : List ℕ → Type 0
NoStar [] = Unit {0}
NoStar (q ∷ r) = (q == b'*') ≡ false

like_to_regex-NoStar : (p : List ℕ) → NoStar (like_to_regex p)
unfolding like_to_regex translate special
like_to_regex-NoStar [] = tt
like_to_regex-NoStar (c ∷ cs) = ground arith

one_nil : (f : ℕ) (r : List ℕ) → NoStar r → simple_match (suc f) (b'.' ∷ r) [] ≡ false
unfolding simple_match
one_nil f [] n = refl
one_nil f (q ∷ r) n = rw n refl

one_step :
    (f x : ℕ) (r s : List ℕ)
    → NoStar r
    → simple_match (suc f) (b'.' ∷ r) (x ∷ s) ≡ simple_match f r s
unfolding simple_match
one_step f x [] s n = refl
one_step f x (q ∷ r) s n = rw n refl

plain_nil : (f c : ℕ) (r : List ℕ) → special c ≡ false → simple_match (suc f) (c ∷ r) [] ≡ false
unfolding simple_match special
plain_nil f c [] n = refl
plain_nil f c (q ∷ r) n = ground arith

plain_step :
    (f c x : ℕ) (r s : List ℕ)
    → special c ≡ false
    → simple_match (suc f) (c ∷ r) (x ∷ s) ≡ (c == x && simple_match f r s)
unfolding simple_match special
plain_step f c x [] s n = ground arith
plain_step f c x (q ∷ r) s n = ground arith

-- One lemma for each way in which a character is translated.
module _ (c : ℕ) (r : List ℕ) where
  translate_percent : (c == b'%') ≡ true → translate c r ≡ b'.' ∷ b'*' ∷ r
  unfolding translate
  translate_percent h = rw h refl

  translate_under : (c == b'%') ≡ false → (c == b'_') ≡ true → translate c r ≡ b'.' ∷ r
  unfolding translate
  translate_under h k = rw (h, k) refl

  translate-special :
      (c == b'%') ≡ false → (c == b'_') ≡ false → special c ≡ true → translate c r ≡ b'\\' ∷ c ∷ r
  unfolding translate
  translate-special h k l = rw (h, k, l) refl

  translate_plain :
      (c == b'%') ≡ false → (c == b'_') ≡ false → special c ≡ false → translate c r ≡ c ∷ r
  unfolding translate
  translate_plain h k l = rw (h, k, l) refl

abbrev Agrees : ℕ → List ℕ → List ℕ → Type 0
Agrees fuel p s =
    length (like_to_regex p) + length s < fuel → simple_match fuel (like_to_regex p) s ≡ like p s

-- The cases of a character of the pattern, for a shorter pattern and a shorter text that agree.
module _ (f c : ℕ) (p : List ℕ) (ih : (s : List ℕ) → Agrees f p s) where
  percent-Agrees :
      (s : List ℕ)
      → (c == b'%') ≡ true
      → ((x : ℕ) (s' : List ℕ) → s ≡ x ∷ s' → Agrees f (c ∷ p) s')
      → Agrees (suc f) (c ∷ p) s
  unfolding like_to_regex simple_match like
  percent-Agrees [] e longer h =
      let t = translate_percent c (like_to_regex p) e in
      let b = rw t at h in rw (t, e) (ih [] (omega arith))
  percent-Agrees (x ∷ s) e longer h =
      let t = translate_percent c (like_to_regex p) e in
      let b = rw t at h in
      let l = rw t at (longer x s refl) in
      rw (t, e) (ground (arith, ih (x ∷ s) (omega arith), l (omega arith)))

  under-Agrees : (s : List ℕ) → (c == b'%') ≡ false → (c == b'_') ≡ true → Agrees (suc f) (c ∷ p) s
  unfolding like_to_regex like
  under-Agrees [] e u h =
      rw (translate_under c (like_to_regex p) e u, e)
        (one_nil f (like_to_regex p) (like_to_regex-NoStar p))
  under-Agrees (x ∷ s) e u h =
      let t = translate_under c (like_to_regex p) e u in
      let b = rw t at h in
      rw (t, e, u, one_step f x (like_to_regex p) s (like_to_regex-NoStar p)) (ih s (omega arith))

  special-Agrees :
      (s : List ℕ)
      → (c == b'%') ≡ false
      → (c == b'_') ≡ false
      → special c ≡ true
      → Agrees (suc f) (c ∷ p) s
  unfolding like_to_regex like simple_match
  special-Agrees [] e u k h = let t = translate-special c (like_to_regex p) e u k in rw (t, e) refl
  special-Agrees (x ∷ s) e u k h =
      let t = translate-special c (like_to_regex p) e u k in
      let b = rw t at h in rw (t, e, u) (ground (arith, ih s (omega arith)))

  plain-Agrees :
      (s : List ℕ)
      → (c == b'%') ≡ false
      → (c == b'_') ≡ false
      → special c ≡ false
      → Agrees (suc f) (c ∷ p) s
  unfolding like_to_regex like
  plain-Agrees [] e u k h =
      let t = translate_plain c (like_to_regex p) e u k in
      rw (t, e) (plain_nil f c (like_to_regex p) k)
  plain-Agrees (x ∷ s) e u k h =
      let t = translate_plain c (like_to_regex p) e u k in
      let b = rw t at h in
      rw (t, e, u, plain_step f c x (like_to_regex p) s k) (ground (arith, ih s (omega arith)))

all_agree : (fuel : ℕ) (p s : List ℕ) → Agrees fuel p s
unfolding like_to_regex like simple_match
all_agree zero p s h = elim h [ ]
all_agree (suc f) [] [] h = refl
all_agree (suc f) [] (x ∷ s) h = refl
all_agree (suc f) (c ∷ p) s h = elim (Bool-cases (c == b'%')) [
  | inl e ↦ percent-Agrees f c p (all_agree f p) s e (λ x s' _. all_agree f (c ∷ p) s') h
  | inr e ↦ elim (Bool-cases (c == b'_')) [
    | inl u ↦ under-Agrees f c p (all_agree f p) s e u h
    | inr u ↦ elim (Bool-cases (special c)) [
      | inl k ↦ special-Agrees f c p (all_agree f p) s e u k h
      | inr k ↦ plain-Agrees f c p (all_agree f p) s e u k h
    ]
  ]
]

-- LIKE matches exactly the texts that its pattern means: `%` any characters, `_` one, and every
-- other character itself, also those that the translated pattern uses for its own ends.
pub regex_lite_iff : (p s : List ℕ) → (regex_lite (like_to_regex p) s ≡ true) ↔ Matches p s
unfolding regex_lite
regex_lite_iff p s =
    let e = all_agree (length (like_to_regex p) + length s + 1) p s (omega arith) in
    (λ h. like→Matches p s (rw e at h), λ m. rw e (Matches→like m))
