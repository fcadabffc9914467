-- ===== src/Console/Terminal.antt =====
-- What src/console.c makes the screen show, as a page of cells with a place where the next character
-- goes: printed texts and the clearing of the screen, with no pixel, glyph or cursor coordinate.
pub mod Print
pub mod Facts
pub mod Commands
pub mod Keys
pub mod Session
pub mod Undone
pub mod Start
mod Tests
use valern.Prelude.{ℕ, ◌≡◌, List, [], ◌∷◌}
use valern.Console.Screen.{Console}
use valern.Console.Text.Grid.{IsValid, SameGrid, position}
use valern.Console.Text.Travel.{travel, travel_all}
use valern.Console.Pixels.Page.{Cell, blank, shows, Displays, Fits, after_char, after_text}

-- `ground` is the colour of a new page.
pub record Page : Type 0 where
  pub columns : ℕ
  pub rows : ℕ
  pub ground : ℕ
  pub cells : ℕ → Cell
  pub place : ℕ

-- A text with its two colours, or the clearing of the screen.
pub data Output : Type 0 where
  prints : ℕ → ℕ → List ℕ → Output
  clears : Output

abbrev pub after : Output → Page → Page
after (prints fg_color bg_color text) page = record page {
  cells =
      after_text page.columns page.rows page.ground fg_color bg_color text page.place page.cells;
  place = travel_all page.columns page.rows text page.place;
}
after clears page = record page { cells = λ q. blank page.ground; place = 0 }

abbrev pub after_all : List Output → Page → Page
after_all [] page = page
after_all (output ∷ outputs) page = after_all outputs (after output page)

-- The page of a console that displays the cells.
abbrev pub page_of : Console → (ℕ → Cell) → Page
page_of con cells = record {
  columns = con.width;
  rows = con.height;
  ground = con.bg_color;
  cells = cells;
  place = position con;
}

-- The console's screen is the page, and it can be printed on.
pub record Shows (con : Console) (page : Page) : Type 0 where
  pub fits : Fits con
  pub valid : IsValid con
  pub page_is : page_of con page.cells ≡ page
  pub displays : Displays con page.cells

-- What an operation of the console is to do: give a console of the same grid that shows the page.
pub record Draws (con con' : Console) (page : Page) : Type 0 where
  pub grid : SameGrid con con'
  pub shown : Shows con' page
