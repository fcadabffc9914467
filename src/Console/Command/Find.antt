-- ===== src/Console/Command/Find.antt =====
-- `process_command` of src/console.c: which command a line names.
use valern.Prelude.{
  zero, ℕ, Bool, true, false, ◌&&◌, ◌==◌, List, [], ◌∷◌, ◌++◌, some, codes, ◌≡◌, refl, arith,
  if◌then◌else◌, ap, ◌∙◌, ℤ, inl, inr, pos, sym, suc, negsuc, Bool-cases,
}
use valern.Stdmem.{strcmp}
use valern.Stdmem.Strings.{IsText, strlen_lem, strcmp_lem, Before, Orders}
use valern.Console.Command.{Command, names, find_command, is_zero}

-- Equality of texts as a test.
abbrev pub same : List ℕ → List ℕ → Bool
same [] [] = true
same [] (b ∷ t) = false
same (a ∷ s) [] = false
same (a ∷ s) (b ∷ t) = (a == b) && same s t

-- The command that a line names: one of the six words, all of it, or else unknown.
abbrev pub command_of : List ℕ → Command
command_of line =
    if same line (codes "help")
    then Command.help
    else if same line (codes "clear")
    then Command.clear
    else if same line (codes "hello")
    then Command.hello
    else if same line (codes "test")
    then Command.test
    else if same line (codes "info")
    then Command.info
    else if same line (codes "reboot")
    then Command.reboot
    else if same line []
    then Command.empty
    else Command.unknown

same_self : (s : List ℕ) → same s s ≡ true
same_self [] = refl
same_self (a ∷ s) = ground (arith, same_self s)

Before-same : (s t : List ℕ) → Before s t → same s t ≡ false
Before-same [] [] h = elim h [ ]
Before-same (a ∷ s) [] h = elim h [ ]
Before-same [] (b ∷ t) h = refl
Before-same (a ∷ s) (b ∷ t) (inl l) = ground arith
Before-same (a ∷ s) (b ∷ t) (inr (e, h)) = ground (arith, Before-same s t h)

Before-same_sym : (s t : List ℕ) → Before t s → same s t ≡ false
Before-same_sym [] t h = elim h [ ]
Before-same_sym (a ∷ s) [] h = refl
Before-same_sym (a ∷ s) (b ∷ t) (inl l) = ground arith
Before-same_sym (a ∷ s) (b ∷ t) (inr (e, h)) = ground (arith, Before-same_sym s t h)

is_zero-Orders : (s t : List ℕ) (z : ℤ) → Orders s t z → is_zero (some z) ≡ some (same s t)
is_zero-Orders s t (pos zero) e = ap some (sym (ap (same s) (sym e) ∙ same_self s))
is_zero-Orders s t (pos (suc n)) h = ap some (sym (Before-same_sym s t h))
is_zero-Orders s t (negsuc n) h = ap some (sym (Before-same s t h))

-- `strcmp` as the test that it is used for.
is_zero-strcmp :
    (s t rest rest' : List ℕ)
    → IsText s
    → IsText t
    → is_zero (strcmp (s ++ 0 ∷ rest) (t ++ 0 ∷ rest')) ≡ some (same s t)
is_zero-strcmp s t rest rest' hs ht =
    let (z, e, o) = strcmp_lem s t rest rest' hs ht in ap is_zero e ∙ is_zero-Orders s t z o

find_command-none :
    (line rest : List ℕ)
    → IsText line
    → find_command [] (line ++ 0 ∷ rest)
      ≡ some (if same line [] then Command.empty else Command.unknown)
unfolding find_command
find_command-none [] rest h = rw (strlen_lem [] rest h).0 refl
find_command-none (a ∷ line) rest h = rw (strlen_lem (a ∷ line) rest h).0 (ground arith)

-- One test of the chain.
find_command-cons :
    (t : List ℕ) (it other : Command) (more : List (List ℕ × Command)) (line rest : List ℕ)
    → IsText line
    → IsText t
    → find_command more (line ++ 0 ∷ rest) ≡ some other
    → find_command ((t ++ 0 ∷ [], it) ∷ more) (line ++ 0 ∷ rest)
      ≡ some (if same line t then it else other)
unfolding find_command
find_command-cons t it other more line rest h ht e =
    let test = is_zero-strcmp line t rest [] h ht in
    elim (Bool-cases (same line t)) [
      | inl yes_same ↦ rw (find_command, test, yes_same) refl
      | inr differs ↦ rw (find_command, test, differs) e
    ]

-- A line that ends in a NUL is found without a read past the buffer that holds it: it is the command
-- whose name is the whole line, empty if it has no characters, and else unknown.
pub find_command_lem :
    (line rest : List ℕ)
    → IsText line
    → find_command names (line ++ 0 ∷ rest) ≡ some (command_of line)
find_command_lem line rest h =
    find_command-cons (codes "help") Command.help _ _ line rest h (omega arith) (
      find_command-cons (codes "clear") Command.clear _ _ line rest h (omega arith) (
        find_command-cons (codes "hello") Command.hello _ _ line rest h (omega arith) (
          find_command-cons (codes "test") Command.test _ _ line rest h (omega arith) (
            find_command-cons (codes "info") Command.info _ _ line rest h (omega arith) (
              find_command-cons (codes "reboot") Command.reboot _ _ line rest h (omega arith)
                (find_command-none line rest h))))))
