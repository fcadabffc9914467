-- ===== src/Console/Terminal/Print.antt =====
-- `putChar`, `printf` and `console_clear` of src/console.c on a page.
use valern.Prelude.{none, ℕ, ◌≡◌, refl, ◌∙◌, subst, List, [], ◌∷◌, some, arith, ap, Every, sym}
use valern.Console.Screen.{Console, console_clear}
use valern.Console.Text.{put_char, put_text}
use valern.Console.Text.Grid.{position}
use valern.Console.Text.Cursor.{console_clear-IsValid}
use valern.Console.Text.Travel.{travel, next_position-travel, SameGrid-refl, SameGrid-trans}
use valern.Console.Pixels.Page.{shows, after_char}
use valern.Console.Pixels.Page.Print.{put_char-Displays, Fits-Redraws}
use valern.Console.Pixels.Page.Drawn.{clear_rows-blank}
use valern.Console.Terminal.{Page, prints, clears, after, page_of, Shows, Draws, Output, after_all}
use valern.Console.Printf.{Argument, printf, put_buffer}
use valern.Console.Command.{Message, print_lines}
use valern.Console.Printf.Render.{printf_lem}
use valern.Console.Printf.Rendering.{render}
use valern.Console.Setup.{black}
use valern.Console.Printf.Output.{Renders}

pub Draws-refl : (con : Console) (page : Page) → Shows con page → Draws con con page
Draws-refl con page s = record { grid = SameGrid-refl con; shown = s }

pub Draws-trans : (a b c : Console) {p q : Page} → Draws a b p → Draws b c q → Draws a c q
Draws-trans a b c d e = record { grid = SameGrid-trans a b c d.grid e.grid; shown = e.shown }

pub page_of-eq :
    (con : Console) (page : Page)
    → con.width ≡ page.columns
    → con.height ≡ page.rows
    → con.bg_color ≡ page.ground
    → position con ≡ page.place
    → page_of con page.cells ≡ page
page_of-eq con page w h g p =
    λ i. record { columns = w i; rows = h i; ground = g i; cells = page.cells; place = p i }

-- The page after one character.
abbrev after_one : ℕ → ℕ → ℕ → Page → Page
after_one c fg_color bg_color page = record page {
  cells =
      after_char page.columns page.rows page.ground c (shows c fg_color bg_color) page.place
        page.cells;
  place = travel page.columns page.rows c page.place;
}

put_char-Draws :
    (c fg_color bg_color : ℕ) (con : Console) (page : Page)
    → Shows con page
    → (con' : Console) × (put_char c fg_color bg_color con ≡ some con')
      × Draws con con' (after_one c fg_color bg_color page)
put_char-Draws c f b con page s =
    let (con', e, v', g, p, same, d) =
      put_char-Displays c f b con page.cells s.fits s.valid s.displays in
    let here = page_of con page.cells in
    let there =
      page_of-eq con' (after_one c f b here) g.width_same g.height_same same
        (p ∙ next_position-travel c con s.valid) in
    (
      con',
      e,
      record {
        grid = g;
        shown =
            subst (λ q. Shows con' (after_one c f b q)) s.page_is
              (record {
                fits = Fits-Redraws con con' g s.fits;
                valid = v';
                page_is = there;
                displays = d;
              });
      },
    )

pub put_text-Draws :
    (text : List ℕ) (fg_color bg_color : ℕ) (con : Console) (page : Page)
    → Shows con page
    → (con' : Console) × (put_text text fg_color bg_color con ≡ some con')
      × Draws con con' (after (prints fg_color bg_color text) page)
unfolding put_text
put_text-Draws [] f b con page s = (con, refl, Draws-refl con page s)
put_text-Draws (c ∷ text) f b con page s =
    let (mid, e, d) = put_char-Draws c f b con page s in
    let (con', run, d') = put_text-Draws text f b mid (after_one c f b page) d.shown in
    (con', rw (put_text, e) run, Draws-trans con mid con' d d')

pub console_clear-Draws :
    (con : Console) (page : Page)
    → Shows con page
    → Draws con (console_clear con) (after clears page)
unfolding console_clear
console_clear-Draws con page s =
    let (v', g) = console_clear-IsValid con s.valid in
    record {
      grid = g;
      shown =
          subst (λ q. Shows (console_clear con) (after clears q)) s.page_is
            (record {
              fits = Fits-Redraws con (console_clear con) g s.fits;
              valid = v';
              page_is =
                  page_of-eq (console_clear con) (after clears (page_of con page.cells)) refl refl
                    refl (omega arith);
              displays = clear_rows-blank con con.bg_color s.fits s.valid;
            });
    }

-- On a console whose screen shows a page, `printf` prints the text that its format and its arguments
-- render to on that page: each printed character goes to the cell of its place, with its glyph and its
-- colours, a text that runs over the last cell begins a blank page, and every other cell keeps what it
-- showed. The grid stays.
pub printf-Draws :
    (format : List ℕ) (fg_color bg_color : ℕ) (args : List Argument) (con : Console) (t : List ℕ)
    (page : Page)
    → Shows con page
    → render format args ≡ some t
    → (con' : Console) × (printf format fg_color bg_color args con ≡ some con')
      × Draws con con' (after (prints fg_color bg_color t) page)
printf-Draws format f b args con t page s e =
    let (con', run, d) = put_text-Draws t f b con page s in
    (con', printf_lem format f b args con ∙ ap (λ o. put_buffer o f b con) e ∙ run, d)

-- The text of a message, and what it prints.
abbrev pub text_of : Message → List ℕ
text_of l = elim (render l.format l.arguments) [ none ↦ [] | some t ↦ t ]

abbrev pub printed : List Message → List Output
printed [] = []
printed (l ∷ ls) = prints l.color black (text_of l) ∷ printed ls

pub print_lines-Draws :
    (ls : List Message) (con : Console) (page : Page)
    → Shows con page
    → Every Renders ls
    → (con' : Console) × (print_lines ls con ≡ some con')
      × Draws con con' (after_all (printed ls) page)
unfolding print_lines
print_lines-Draws [] con page s r = (con, refl, Draws-refl con page s)
print_lines-Draws (l ∷ ls) con page s r =
    let (mid, e, d) = printf-Draws l.format l.color 0 l.arguments con (r.0.0) page s (r.0.1) in
    let same : text_of l ≡ r.0.0 = rw (text_of, r.0.1) refl in
    let next : Draws con mid (after (prints l.color black (text_of l)) page) =
      subst (λ t. Draws con mid (after (prints l.color black t) page)) (sym same) d in
    let (con', f, d') =
      print_lines-Draws ls mid (after (prints l.color black (text_of l)) page) next.shown r.1 in
    (con', rw (print_lines, e) f, Draws-trans con mid con' next d')
