-- ===== src/Stdmem.antt =====
-- src/stdmem.c. The memory functions work on a flat memory, from addresses to bytes; objects do not
-- wrap round the end of the address space. A `char *` of the string functions is the list of the
-- bytes from it to the end of its object, so that `s++` is the tail; `none` is a read past that
-- end, which C leaves undefined.
pub mod Blocks
pub mod Strings
mod Tests
use valern.Prelude.{
  ℕ, zero, suc, ◌+◌, ◌%◌, Bool, not, ◌&&◌, List, [], ◌∷◌, Option, none, some, ℤ, pos, negsuc, sub_ℕ,
  ltb, ◌==◌, if◌then◌else◌,
}

abbrev pub Memory : Type 0
Memory = ℕ → ℕ

abbrev pub store : ℕ → ℕ → Memory → Memory
store p v m q = if q == p then v else m q

-- The loop that counts `i` up, with `left` rounds to go.
unfoldable pub copy_up : ℕ → ℕ → ℕ → ℕ → Memory → Memory
copy_up dest src zero i m = m
copy_up dest src (suc left) i m = copy_up dest src left (i + 1) (store (dest + i) (m (src + i)) m)

-- The loop that counts `i` down to 0.
unfoldable pub copy_down : ℕ → ℕ → ℕ → Memory → Memory
copy_down dest src zero m = m
copy_down dest src (suc i) m = copy_down dest src i (store (dest + i) (m (src + i)) m)

-- The functions return `dest` beside the memory.
unfoldable pub memcpy : ℕ → ℕ → ℕ → Memory → ℕ × Memory
memcpy dest src n m = (dest, copy_up dest src n 0 m)

unfoldable pub fill_up : ℕ → ℕ → ℕ → ℕ → Memory → Memory
fill_up s c zero i m = m
fill_up s c (suc left) i m = fill_up s c left (i + 1) (store (s + i) (c % 256) m)

-- `c` is the two's complement of the `int`, of which the cast keeps the low byte.
unfoldable pub memset : ℕ → ℕ → ℕ → Memory → ℕ × Memory
memset s c n m = (s, fill_up s c n 0 m)

unfoldable pub memmove : ℕ → ℕ → ℕ → Memory → ℕ × Memory
memmove dest src n m = (
  dest,
  if ltb dest src
      then copy_up dest src n 0 m
      else if ltb src dest
      then copy_down dest src n m
      else m,
)

unfoldable pub compare_up : ℕ → ℕ → ℕ → ℕ → Memory → ℤ
compare_up s1 s2 zero i m = pos 0
compare_up s1 s2 (suc left) i m =
    let rest = compare_up s1 s2 left (i + 1) m in
    if not (m (s1 + i) == m (s2 + i))
    then (if ltb (m (s1 + i)) (m (s2 + i)) then negsuc 0 else pos 1)
    else rest

unfoldable pub memcmp : ℕ → ℕ → ℕ → Memory → ℤ
memcmp s1 s2 n m = compare_up s1 s2 n 0 m

-- `while (str[len]) len++;` from `len` on.
unfoldable pub strlen_from : ℕ → List ℕ → Option ℕ
strlen_from len [] = none
strlen_from len (c ∷ str) = if not (c == 0) then strlen_from (len + 1) str else some len

unfoldable pub strlen : List ℕ → Option ℕ
strlen str = strlen_from 0 str

unfoldable pub strcmp : List ℕ → List ℕ → Option ℤ
strcmp [] s2 = none
strcmp (a ∷ s1) [] = none
strcmp (a ∷ s1) (b ∷ s2) = if not (a == 0) && a == b then strcmp s1 s2 else some (sub_ℕ a b)
