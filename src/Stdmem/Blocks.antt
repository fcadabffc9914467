-- ===== src/Stdmem/Blocks.antt =====
-- The memory functions of src/stdmem.c, address by address.
use native.Mathlib.Nat.{add-zero}
use native.Mathlib.Decide.{ℕ_discrete}
use valern.Prelude.{
  refl, sym, ℕ, zero, suc, ◌+◌, ◌-◌, ◌≤◌, ◌<◌, ◌≡◌, arith, ◌⊎◌, inl, inr, Bool, if◌then◌else◌, leb,
  ◌&&◌, ltb, ◌∙◌, ◌%◌, ap₂, Bool-cases, ap, ℤ, ◌==◌, not, ==_iff, pos, negsuc,
}
use valern.Stdmem.{
  Memory, store, copy_up, copy_down, memcpy, memset, memmove, compare_up, memcmp, fill_up,
}

-- Is `p` one of the `n` addresses from `start` on?
abbrev pub inside : ℕ → ℕ → ℕ → Bool
inside start n p = leb start p && ltb p (start + n)

-- The memory after `n` bytes were copied, as it should be.
abbrev pub copied : ℕ → ℕ → ℕ → Memory → Memory
copied dest src n m p = if inside dest n p then m (src + (p - dest)) else m p

-- From `i` on, the loop copies `left` bytes, if none of them is overwritten before it is read.
copy_up_lem :
    (dest src left i : ℕ) (m : Memory) (p : ℕ)
    → (dest ≤ src) ⊎ (src + i + left ≤ dest + i)
    → copy_up dest src left i m p ≡ copied (dest + i) (src + i) left m p
unfolding copy_up
copy_up_lem dest src zero i m p h = ground arith
copy_up_lem dest src (suc left) i m p h =
    copy_up_lem dest src left (i + 1) (store (dest + i) (m (src + i)) m) p (later h) ∙ shift
  where
    later :
        (dest ≤ src) ⊎ (src + i + suc left ≤ dest + i)
        → (dest ≤ src) ⊎ (src + (i + 1) + left ≤ dest + (i + 1))
    later (inl d) = inl d
    later (inr d) = inr (omega arith)

    source :
        dest + (i + 1) ≤ p → src + (i + 1) + (p - (dest + (i + 1))) ≡ src + i + (p - (dest + i))
    source d = omega arith

    shift :
        copied (dest + (i + 1)) (src + (i + 1)) left (store (dest + i) (m (src + i)) m) p
        ≡ copied (dest + i) (src + i) (suc left) m p
    shift = ground (arith, source)

copy_down_lem :
    (dest src n : ℕ) (m : Memory) (p : ℕ)
    → src < dest
    → copy_down dest src n m p ≡ copied dest src n m p
unfolding copy_down
copy_down_lem dest src zero m p h = ground arith
copy_down_lem dest src (suc i) m p h =
    copy_down_lem dest src i (store (dest + i) (m (src + i)) m) p h ∙ shift
  where
    source : p ≡ dest + i → src + (p - dest) ≡ src + i
    source d = omega arith

    shift : copied dest src i (store (dest + i) (m (src + i)) m) p ≡ copied dest src (suc i) m p
    shift = ground (arith, source)

-- The same from the start.
copy_up_all :
    (dest src n : ℕ) (m : Memory) (p : ℕ)
    → (dest ≤ src) ⊎ (src + n ≤ dest)
    → copy_up dest src n 0 m p ≡ copied dest src n m p
copy_up_all dest src n m p h =
    copy_up_lem dest src n 0 m p (start h)
    ∙ ap₂ (λ d s. copied d s n m p) (add-zero dest) (add-zero src)
  where
    start : (dest ≤ src) ⊎ (src + n ≤ dest) → (dest ≤ src) ⊎ (src + 0 + n ≤ dest + 0)
    start (inl d) = inl d
    start (inr d) = inr (omega arith)

-- `memmove` leaves in the destination the bytes that the source had before, also where the two
-- overlap, changes no other address, and returns the destination.
pub memmove_lem :
    (dest src n : ℕ) (m : Memory)
    → ((memmove dest src n m).0 ≡ dest)
      × ((p : ℕ) → (memmove dest src n m).1 p ≡ copied dest src n m p)
unfolding memmove
memmove_lem dest src n m = (
  refl,
  λ p. elim (Bool-cases (ltb dest src)) [
    | inl up ↦ rw up (copy_up_all dest src n m p (inl (ground arith)))
    | inr other ↦ elim (Bool-cases (ltb src dest)) [
      | inl down ↦ rw (other, down) (copy_down_lem dest src n m p (ground arith))
      | inr same ↦ rw (other, same) (ground (arith, stays p))
    ]
  ],
)
  where
    stays : (p : ℕ) → dest ≡ src → dest ≤ p → src + (p - dest) ≡ p
    stays p e h = omega arith

-- If the source does not begin below the destination and reach into it, `memcpy` copies as
-- `memmove` does, at every address.
pub memcpy_lem :
    (dest src n : ℕ) (m : Memory) (p : ℕ)
    → (dest ≤ src) ⊎ (src + n ≤ dest)
    → ((memcpy dest src n m).1 p ≡ (memmove dest src n m).1 p)
      × ((memcpy dest src n m).1 p ≡ copied dest src n m p)
memcpy_lem dest src n m p h = (copies ∙ sym ((memmove_lem dest src n m).1 p), copies)
  where
    copies : (memcpy dest src n m).1 p ≡ copied dest src n m p
    copies = unfold memcpy in copy_up_all dest src n m p h

fill_up_lem :
    (s c left i : ℕ) (m : Memory) (p : ℕ)
    → fill_up s c left i m p ≡ (if inside (s + i) left p then c % 256 else m p)
unfolding fill_up
fill_up_lem s c zero i m p = ground arith
fill_up_lem s c (suc left) i m p =
    fill_up_lem s c left (i + 1) (store (s + i) (c % 256) m) p ∙ ground arith

-- `memset` makes each of the `n` bytes the low byte of `c`, changes no other, and returns `s`.
pub memset_lem :
    (s c n : ℕ) (m : Memory)
    → ((memset s c n m).0 ≡ s)
      × ((p : ℕ) → (memset s c n m).1 p ≡ (if inside s n p then c % 256 else m p))
unfolding memset
memset_lem s c n m = (
  refl,
  λ p. fill_up_lem s c n 0 m p ∙ ap (λ a. if inside a n p then c % 256 else m p) (add-zero s),
)

-- From `i` on, all bytes agree; or there is a first place where they differ.
abbrev AgreeTo : ℕ → ℕ → ℕ → ℕ → Memory → Type 0
AgreeTo s1 s2 i k m = (j : ℕ) → i ≤ j → j < k → m (s1 + j) ≡ m (s2 + j)

abbrev pub Compares : ℕ → ℕ → ℕ → ℕ → Memory → ℤ → Type 0
Compares s1 s2 i n m (pos zero) = AgreeTo s1 s2 i n m
Compares s1 s2 i n m (pos (suc zero)) =
    (k : ℕ) × (i ≤ k) × (k < n) × AgreeTo s1 s2 i k m × (m (s2 + k) < m (s1 + k))
Compares s1 s2 i n m (pos (suc (suc _))) = ⊥
Compares s1 s2 i n m (negsuc zero) =
    (k : ℕ) × (i ≤ k) × (k < n) × AgreeTo s1 s2 i k m × (m (s1 + k) < m (s2 + k))
Compares s1 s2 i n m (negsuc (suc _)) = ⊥

AgreeTo-cons :
    (s1 s2 i k : ℕ) (m : Memory)
    → m (s1 + i) ≡ m (s2 + i)
    → AgreeTo s1 s2 (i + 1) k m
    → AgreeTo s1 s2 i k m
AgreeTo-cons s1 s2 i k m e h j a b = elim (ℕ_discrete i j) [
  | yes same ↦ rw (← same) e
  | no other ↦ h j (omega arith) b
]

Compares-cons :
    (s1 s2 i n : ℕ) (m : Memory) (z : ℤ)
    → m (s1 + i) ≡ m (s2 + i)
    → Compares s1 s2 (i + 1) n m z
    → Compares s1 s2 i n m z
Compares-cons s1 s2 i n m (pos zero) e h = AgreeTo-cons s1 s2 i n m e h
Compares-cons s1 s2 i n m (pos (suc zero)) e h =
    (h.0, omega arith, h.2, AgreeTo-cons s1 s2 i h.0 m e h.3, h.4)
Compares-cons s1 s2 i n m (pos (suc (suc _))) e h = h
Compares-cons s1 s2 i n m (negsuc zero) e h =
    (h.0, omega arith, h.2, AgreeTo-cons s1 s2 i h.0 m e h.3, h.4)
Compares-cons s1 s2 i n m (negsuc (suc _)) e h = h

compare_up_lem :
    (s1 s2 left i n : ℕ) (m : Memory)
    → i + left ≡ n
    → Compares s1 s2 i n m (compare_up s1 s2 left i m)
unfolding compare_up
compare_up_lem s1 s2 zero i n m e = λ j a b. absurd (omega arith)
compare_up_lem s1 s2 (suc left) i n m e = elim (Bool-cases (m (s1 + i) == m (s2 + i))) [
  | inl same ↦
      rw (same, not)
        (Compares-cons s1 s2 i n m (compare_up s1 s2 left (i + 1) m) ((==_iff _ _).0 same)
          (compare_up_lem s1 s2 left (i + 1) n m (omega arith)))
  | inr differ ↦ elim (Bool-cases (ltb (m (s1 + i)) (m (s2 + i)))) [
    | inl less ↦
        rw (differ, not, less)
          (i, omega arith, omega arith, λ j a b. absurd (omega arith), ground arith)
    | inr more ↦
        rw (differ, not, more)
          (i, omega arith, omega arith, λ j a b. absurd (omega arith), ground arith)
  ]
]

-- `memcmp` returns 0 if all `n` bytes agree, -1 if at the first place where they differ the first
-- block has the smaller byte, 1 if it has the greater, and no other number.
pub memcmp_lem : (s1 s2 n : ℕ) (m : Memory) → Compares s1 s2 0 n m (memcmp s1 s2 n m)
unfolding memcmp
memcmp_lem s1 s2 n m = compare_up_lem s1 s2 n 0 n m (omega arith)
