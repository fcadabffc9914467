-- ===== src/Console/Printf/Output.antt =====
-- `printf` and `print_lines` of src/console.c on a valid console: a text that can be rendered is printed.
use valern.Prelude.{
  ℕ, ◌≡◌, refl, arith, List, [], ◌∷◌, ◌++◌, some, ◌∙◌, ap, Every, sym, Option-cases, inl, inr,
  some-injective,
}
use valern.Stdmem.Strings.{IsText}
use valern.Console.Screen.{Console}
use valern.Console.Text.Grid.{IsValid, SameGrid, position}
use valern.Console.Text.Travel.{put_text_lem, travel_all, SameGrid-refl, SameGrid-trans}
use valern.Console.Printf.{Argument, printf, put_buffer}
use valern.Console.Printf.Render.{printf_lem}
use valern.Console.Printf.Rendering.{render, string_of}
use valern.Console.Command.{Message, print_lines}
use valern.Console.Setup.{black}

-- A text up to its NUL.
pub string_of_lem : (s rest : List ℕ) → IsText s → string_of (s ++ 0 ∷ rest) ≡ some s
string_of_lem [] rest h = refl
string_of_lem (c ∷ s) rest h = ground (arith, h.0, string_of_lem s rest h.1)

-- A format that can be rendered is printed on a valid console, which stays valid with the grid that
-- it had, and the cursor travels as the rendered text says.
pub printf-prints :
    (format : List ℕ) (fg_color bg_color : ℕ) (args : List Argument) (con : Console) (t : List ℕ)
    → IsValid con
    → render format args ≡ some t
    → (con' : Console) × (printf format fg_color bg_color args con ≡ some con')
      × IsValid con'
      × SameGrid con con'
      × (position con' ≡ travel_all con.width con.height t (position con))
printf-prints format f b args con t v e =
    let (con', prints, v', g, p) = put_text_lem t f b con v in
    let rendered = printf_lem format f b args con ∙ ap (λ o. put_buffer o f b con) e in
    (con', rendered ∙ prints, v', g, p)

abbrev pub Renders : Message → Type 0
Renders l = (t : List ℕ) × (render l.format l.arguments ≡ some t)

pub print_lines-prints :
    (ls : List Message) (con : Console)
    → IsValid con
    → Every Renders ls
    → (con' : Console) × (print_lines ls con ≡ some con') × IsValid con' × SameGrid con con'
unfolding print_lines
print_lines-prints [] con v r = (con, refl, v, SameGrid-refl con)
print_lines-prints (l ∷ ls) con v r =
    let (mid, e, v', g, p) = printf-prints l.format l.color 0 l.arguments con (r.0.0) v (r.0.1) in
    let (con', f, v'', h) = print_lines-prints ls mid v' r.1 in
    (con', rw (print_lines, e) f, v'', SameGrid-trans con mid con' g h)

-- Messages that are printed one list after the other.
pub print_lines-append :
    (xs ys : List Message) (con : Console) {mid con' : Console}
    → print_lines xs con ≡ some mid
    → print_lines ys mid ≡ some con'
    → print_lines (xs ++ ys) con ≡ some con'
unfolding print_lines
print_lines-append [] ys con {mid} {con'} e f = ap (print_lines ys) (some-injective con mid e) ∙ f
print_lines-append (x ∷ xs) ys con e f =
    elim (Option-cases (printf x.format x.color black x.arguments con)) [
      | inl bad ↦ absurd (ground (arith, bad, e))
      | inr (next, good) ↦
          let first : (ls : List Message) → print_lines (x ∷ ls) con ≡ print_lines ls next =
            λ ls. rw (print_lines, good) refl in
          first (xs ++ ys) ∙ print_lines-append xs ys next (sym (first xs) ∙ e) f
    ]
