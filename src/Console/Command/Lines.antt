-- ===== src/Console/Command/Lines.antt =====
-- The lines that the commands of src/console.c print can be rendered.
use valern.Prelude.{
  none, some, ℕ, ◌<◌, ◌^◌, ◌≡◌, refl, arith, List, [], ◌∷◌, ◌++◌, ◌∙◌, ap, Every, pos, Bool, true,
  codes, Option-cases, inl, inr, false, ◌==◌, Bool-cases, if◌then◌else◌, ◌&&◌,
}
use valern.Stdmem.Strings.{IsText}
use valern.Format.{int_to_str, uint_to_str, uint_to_hex_upper, to_text, digits_loop}
use valern.Console.Screen.{Console}
use valern.Console.Text.Grid.{SameGrid}
use valern.Console.Printf.{int_of_word, word, text, Argument}
use valern.Console.Printf.Rendering.{render}
use valern.Console.Printf.Output.{string_of_lem, Renders}
use valern.Console.Command.{Message, help_lines, test_lines, info_lines, plain, filled}
use valern.Format.Signed.{int_to_str_lem}
use valern.Console.Setup.{red, gray}

-- The numbers that `info` shows are small enough for its `%d`.
pub record IsShowable (con : Console) : Type 0 where
  pub width_int : con.width < 2 ^ 31
  pub height_int : con.height < 2 ^ 31
  pub font_width_int : con.font.width < 2 ^ 31
  pub font_height_int : con.font.height < 2 ^ 31
  pub fb_width_int : con.fb.width < 2 ^ 31
  pub fb_height_int : con.fb.height < 2 ^ 31
  pub scale_int : con.scale < 2 ^ 31
  pub version_int : con.font.version < 2 ^ 31
  pub count_int : con.font.glyph_count < 2 ^ 31

pub IsShowable-of_SameGrid :
    (con con' : Console) → SameGrid con con' → IsShowable con → IsShowable con'
IsShowable-of_SameGrid con con' g n = record {
  width_int = rw g.width_same n.width_int;
  height_int = rw g.height_same n.height_int;
  font_width_int = rw g.font_same n.font_width_int;
  font_height_int = rw g.font_same n.font_height_int;
  fb_width_int = rw g.redrawn_same.width_same n.fb_width_int;
  fb_height_int = rw g.redrawn_same.height_same n.fb_height_int;
  scale_int = rw g.scale_same n.scale_int;
  version_int = rw g.font_same n.version_int;
  count_int = rw g.font_same n.count_int;
}

number_text : (w : ℕ) → w < 2 ^ 31 → (t : List ℕ) × (int_to_str (int_of_word w) 10 ≡ some t)
number_text w h =
    let it : int_of_word w ≡ pos w = ground arith in
    let (t, e, _, _, _) = int_to_str_lem (pos w) (omega arith) (ground arith) in
    (t, ap (λ z. int_to_str z 10) it ∙ e)

-- Lines that the test below computes to be renderable.
abbrev are_rendered : List Message → Bool
are_rendered [] = true
are_rendered (l ∷ ls) = elim (render l.format l.arguments) [
  | none ↦ false
  | some t ↦ are_rendered ls
]

pub rendered : (ls : List Message) → are_rendered ls ≡ true → Every Renders ls
rendered [] e = tt
rendered (l ∷ ls) e = elim (Option-cases (render l.format l.arguments)) [
  | inl f ↦ ground (arith, f, e)
  | inr (t, f) ↦ ((t, f), rendered ls (ground (arith, f, e)))
]

pub help-Renders : Every Renders help_lines
help-Renders = rendered help_lines refl

pub test-Renders : Every Renders test_lines
unfolding int_to_str uint_to_str uint_to_hex_upper to_text digits_loop
test-Renders = rendered test_lines refl

-- Formats whose every `%` is a `%d` with an argument.
abbrev has_numbers : List ℕ → List Argument → Bool
has_numbers [] args = false
has_numbers (c ∷ []) args = c == 0
has_numbers (c ∷ d ∷ rest) [] =
    let next = has_numbers (d ∷ rest) [] in
    if c == 0 then true else if c == b'%' then false else next
has_numbers (c ∷ d ∷ rest) (a ∷ args) =
    let next = has_numbers (d ∷ rest) (a ∷ args) in
    let behind = has_numbers rest args in
    if c == 0 then true else if c == b'%' then (if d == b'd' then behind else false) else next

abbrev IsSmall : Argument → Type 0
IsSmall (word w) = w < 2 ^ 31
IsSmall (text s) = ⊥

abbrev Text : List ℕ → List Argument → Type 0
Text format args = (t : List ℕ) × (render format args ≡ some t)

number_Text :
    (w : ℕ) (rest : List ℕ) (args : List Argument)
    → w < 2 ^ 31
    → Text rest args
    → Text (b'%' ∷ b'd' ∷ rest) (word w ∷ args)
number_Text w rest args h (t, e) = let (n, f) = number_text w h in (n ++ t, rw (f, e) refl)

numbers_Text :
    (format : List ℕ) (args : List Argument)
    → Every IsSmall args
    → has_numbers format args ≡ true
    → Text format args
numbers_Text [] args s e = absurd (ground (arith, e))
numbers_Text (c ∷ []) args s e = ([], ground (arith, e))
numbers_Text (c ∷ d ∷ rest) [] s e = elim (Bool-cases (c == 0)) [
  | inl nul ↦ ([], rw nul refl)
  | inr other ↦ elim (Bool-cases (c == b'%')) [
    | inl percent ↦ absurd (ground (arith, e, other, percent))
    | inr plain_one ↦
        let (t, f) = numbers_Text (d ∷ rest) [] s (ground (arith, e, other, plain_one)) in
        (c ∷ t, rw (other, plain_one, f) refl)
  ]
]
numbers_Text (c ∷ d ∷ rest) (text x ∷ args) s e = elim s.0 [ ]
numbers_Text (c ∷ d ∷ rest) (word w ∷ args) s e = elim (Bool-cases (c == 0)) [
  | inl nul ↦ ([], rw nul refl)
  | inr other ↦ elim (Bool-cases (c == b'%')) [
    | inl percent ↦ elim (Bool-cases (d == b'd')) [
      | inl number ↦
          let tail = numbers_Text rest args s.1 (ground (arith, e, other, percent, number)) in
          let this : c ≡ b'%' = ground (arith, percent) in
          let that : d ≡ b'd' = ground (arith, number) in
          let (t, f) = number_Text w rest args s.0 tail in
          (
            t,
            ap (λ k. render (k ∷ d ∷ rest) (word w ∷ args)) this
                ∙ ap (λ k. render (b'%' ∷ k ∷ rest) (word w ∷ args)) that
                ∙ f,
          )
      | inr none_such ↦ absurd (ground (arith, e, other, percent, none_such))
    ]
    | inr plain_one ↦
        let (t, f) =
          numbers_Text (d ∷ rest) (word w ∷ args) s (ground (arith, e, other, plain_one)) in
        (c ∷ t, rw (other, plain_one, f) refl)
  ]
]

abbrev all_numbers : List Message → Bool
all_numbers [] = true
all_numbers (l ∷ ls) = has_numbers l.format l.arguments && all_numbers ls

abbrev HasSmall : Message → Type 0
HasSmall l = Every IsSmall l.arguments

numbers_rendered :
    (ls : List Message) → Every HasSmall ls → all_numbers ls ≡ true → Every Renders ls
numbers_rendered [] s e = tt
numbers_rendered (l ∷ ls) s e = (
  numbers_Text l.format l.arguments s.0 (ground (arith, e)),
  numbers_rendered ls s.1 (ground (arith, e)),
)

pub info-Renders : (con : Console) → IsShowable con → Every Renders (info_lines con)
info-Renders con n = numbers_rendered (info_lines con) small refl
  where
    small : Every HasSmall (info_lines con)
    small = (
      tt,
      (
        (n.width_int, (n.height_int, tt)),
        (
          (n.font_width_int, (n.font_height_int, tt)),
          (
            (n.fb_width_int, (n.fb_height_int, tt)),
            ((n.scale_int, tt), ((n.version_int, tt), ((n.count_int, tt), tt))),
          ),
        ),
      ),
    )

pub unknown-Renders :
    (line rest : List ℕ)
    → IsText line
    → Every Renders (
        filled "Unknown command: %s\n" red (text (line ++ 0 ∷ rest) ∷ [])
        ∷ plain "Type 'help' for available commands.\n" gray
        ∷ [])
unknown-Renders line rest h = (
  (codes "Unknown command: " ++ line ++ codes "\n", rw (string_of_lem line rest h) refl),
  rendered (plain "Type 'help' for available commands.\n" gray ∷ []) refl,
)
