-- ===== src/Stdmem/Strings.antt =====
-- `strlen` and `strcmp` of src/stdmem.c on NUL-terminated strings, and on objects with no NUL.
use valern.Prelude.{
  true, false, ℕ, zero, suc, ◌+◌, ◌≡◌, arith, List, [], ◌∷◌, ◌++◌, some, none, Every, length, ◌≢◌,
  ap, ◌∙◌, ◌<◌, ℤ, ◌⊎◌, sub_ℕ, pos, inr, Bool-cases, negsuc, inl, ◌-◌, ◌==◌, Bool, not, refl, ◌&&◌,
}
use valern.Stdmem.{strlen_from, strlen, strcmp}

-- The bytes of a string, with no NUL among them.
abbrev pub IsText : List ℕ → Type 0
IsText s = Every (λ c. c ≢ 0) s

strlen_from_lem :
    (len : ℕ) (s rest : List ℕ) → IsText s → strlen_from len (s ++ 0 ∷ rest) ≡ some (len + length s)
unfolding strlen_from
strlen_from_lem len [] rest h = ap some (omega arith)
strlen_from_lem len (c ∷ s) rest h = ground (arith, h.0, strlen_from_lem (len + 1) s rest h.1)

strlen_from-none : (len : ℕ) (s : List ℕ) → IsText s → strlen_from len s ≡ none
unfolding strlen_from
strlen_from-none len [] h = refl
strlen_from-none len (c ∷ s) h = ground (arith, h.0, strlen_from-none (len + 1) s h.1)

-- `strlen` counts the bytes before the first NUL, and reads past the object if it has none.
pub strlen_lem :
    (s rest : List ℕ) → IsText s → (strlen (s ++ 0 ∷ rest) ≡ some (length s)) × (strlen s ≡ none)
unfolding strlen
strlen_lem s rest h = (strlen_from_lem 0 s rest h ∙ ap some (omega arith), strlen_from-none 0 s h)

-- Alphabetical order by bytes.
abbrev pub Before : List ℕ → List ℕ → Type 0
Before s [] = ⊥
Before [] (b ∷ t) = Unit
Before (a ∷ s) (b ∷ t) = (a < b) ⊎ ((a ≡ b) × Before s t)

-- What a comparison result says of the two strings.
abbrev pub Orders : List ℕ → List ℕ → ℤ → Type 0
Orders s t (pos zero) = s ≡ t
Orders s t (pos (suc _)) = Before t s
Orders s t (negsuc _) = Before s t

Orders-cons : (a : ℕ) (s t : List ℕ) (z : ℤ) → Orders s t z → Orders (a ∷ s) (a ∷ t) z
Orders-cons a s t (pos zero) h = ap (λ l. a ∷ l) h
Orders-cons a s t (pos (suc _)) h = inr (refl, h)
Orders-cons a s t (negsuc _) h = inr (refl, h)

Orders-head : (a b : ℕ) (s t : List ℕ) → a ≢ b → Orders (a ∷ s) (b ∷ t) (sub_ℕ a b)
Orders-head a b s t h = go (compare_lem a b h)
  where
    compare_lem : (a b : ℕ) → a ≢ b → (a < b) ⊎ (b < a)
    compare_lem a b h = omega arith

    go : (a < b) ⊎ (b < a) → Orders (a ∷ s) (b ∷ t) (sub_ℕ a b)
    go (inl l) = let e : sub_ℕ a b ≡ negsuc (b - a - 1) = ground arith in rw e (inl l)
    go (inr g) = let e : sub_ℕ a b ≡ pos (suc (a - b - 1)) = ground arith in rw e (inl g)

and-false : (b : Bool) → (b && false) ≡ false
and-false true = refl
and-false false = refl

-- On NUL-terminated strings `strcmp` reads inside both, and returns 0 only for equal strings, a
-- negative number only if the first comes before the second in the order of bytes, and a positive
-- one only if it comes after.
pub strcmp_lem :
    (s t rest rest' : List ℕ)
    → IsText s
    → IsText t
    → (z : ℤ) × (strcmp (s ++ 0 ∷ rest) (t ++ 0 ∷ rest') ≡ some z) × Orders s t z
unfolding strcmp
strcmp_lem [] [] rest rest' hs ht = (pos 0, refl, refl)
strcmp_lem [] (b ∷ t) rest rest' hs ht =
    let e : sub_ℕ 0 b ≡ negsuc (b - 0 - 1) = ground (arith, ht.0) in (sub_ℕ 0 b, refl, rw e tt)
strcmp_lem (a ∷ s) [] rest rest' hs ht =
    let e : sub_ℕ a 0 ≡ pos (suc (a - 1)) = ground (arith, hs.0) in
    (sub_ℕ a 0, ground (arith, hs.0), rw e tt)
strcmp_lem (a ∷ s) (b ∷ t) rest rest' hs ht = elim (Bool-cases (a == b)) [
  | inl same ↦
      let (z, e, o) = strcmp_lem s t rest rest' hs.1 ht.1 in
      let eq : a ≡ b = ground arith in
      (z, ground (arith, hs.0, e), rw (← eq) (Orders-cons a s t z o))
  | inr differ ↦
      (sub_ℕ a b, rw (differ, and-false (not (a == 0))), Orders-head a b s t (ground arith))
]
