-- ===== src/Stdmem/Tests.antt =====
-- src/stdmem.c at concrete inputs.
use valern.Prelude.{ℕ, ◌≡◌, refl, some, arith, codes, List, [], ◌∷◌, ◌++◌, ℤ, ◌-◌, inl}
use valern.Stdmem.{Memory, memmove, memcpy, copy_down, copy_up, strcmp}
use valern.Stdmem.Blocks.{copied, memmove_lem, memcpy_lem}
use valern.Stdmem.Strings.{IsText, Orders, strcmp_lem}

-- The bytes 10, 11, 12 and on from address 100 on.
abbrev ramp : Memory
ramp p = p - 90

overlap_runs : (memmove 102 100 4 ramp).1 105 ≡ 13
unfolding memmove copy_down
overlap_runs = refl

-- Copying upwards over an overlap repeats bytes: the hypothesis of the theorem is needed.
memcpy_overlap : (memcpy 102 100 4 ramp).1 105 ≡ 11
unfolding memcpy copy_up
memcpy_overlap = refl

abbrev hello : List ℕ
hello = codes "hello"

abbrev help : List ℕ
help = codes "help"

memmove_example :
    ((memmove 102 100 4 ramp).0 ≡ 102)
    × ((p : ℕ) → (memmove 102 100 4 ramp).1 p ≡ copied 102 100 4 ramp p)
memmove_example = memmove_lem 102 100 4 ramp

memcpy_example :
    ((memcpy 98 100 4 ramp).1 99 ≡ (memmove 98 100 4 ramp).1 99)
    × ((memcpy 98 100 4 ramp).1 99 ≡ copied 98 100 4 ramp 99)
memcpy_example = memcpy_lem 98 100 4 ramp 99 (inl (omega arith))

hello-IsText : IsText hello
hello-IsText = omega arith

help-IsText : IsText help
help-IsText = omega arith

strcmp_example :
    (z : ℤ) × (strcmp (hello ++ 0 ∷ []) (help ++ 0 ∷ 9 ∷ []) ≡ some z) × Orders hello help z
strcmp_example = strcmp_lem hello help [] (9 ∷ []) hello-IsText help-IsText
