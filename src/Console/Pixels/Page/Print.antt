-- ===== src/Console/Pixels/Page/Print.antt =====
-- `putChar` of src/console.c on a grid that shows cells.
use valern.Console.Pixels.Page.Place.{wipes, written, place-Places}
use valern.Console.Pixels.Page.Drawn.{clear_rows-blank}
use valern.Prelude.{
  ℕ, ◌≡◌, arith, some, if◌then◌else◌, ◌∙◌, refl, Bool-cases, ap, inl, inr, same_result,
}
use valern.Console.Screen.{Framebuffer, Console, console_clear, clear_rows}
use valern.Console.Text.{put_char, wrap_screen, wrap_column}
use valern.Console.Pixels.Page.{after_char, Cell, shows, Displays, overruns, Fits}
use valern.Console.Text.Cursor.{put_char_lem}
use valern.Console.Text.Grid.{
  SameGrid, moved_to-IsValid, moved_to-SameGrid, next_position, IsValid, position, moved_to,
}
use valern.Console.Text.Redraw.{Redraws}
use valern.Console.Pixels.Block.{IsScreen-Redraws}

-- The wrapping of the cursor, and what it does to the screen.
settle-fb :
    (x y : ℕ) (fb : Framebuffer) (con : Console)
    → let con' = wrap_screen (wrap_column (moved_to x y fb con)) in
      (con'.bg_color ≡ con.bg_color)
      × (con'.fb
          ≡ (if wipes con.width con.height x y then clear_rows fb.height 0 con.bg_color fb else fb))
unfolding wrap_screen wrap_column console_clear
settle-fb x y fb con = (ground arith, ground arith)

pub Displays-of_SameGrid :
    (con con' : Console) (fb : Framebuffer) (cells : ℕ → Cell)
    → SameGrid con con'
    → con'.fb ≡ fb
    → Displays (record con { fb = fb }) cells
    → Displays con' cells
Displays-of_SameGrid con con' fb cells g e d =
    rw (g.width_same, g.height_same, g.font_same, g.scale_same, e) d

pub Fits-Redraws : (con con' : Console) → SameGrid con con' → Fits con → Fits con'
Fits-Redraws con con' g f = record {
  screen = IsScreen-Redraws con.fb con'.fb g.redrawn_same f.screen;
  columns_fit =
      rw (g.width_same, g.font_same, g.scale_same, g.redrawn_same.width_same) f.columns_fit;
  rows_fit = rw (g.height_same, g.font_same, g.scale_same, g.redrawn_same.height_same) f.rows_fit;
  width_int = rw g.redrawn_same.width_same f.width_int;
  height_int = rw g.redrawn_same.height_same f.height_int;
  buffer = f.buffer;
  at_buffer = rw g.font_same f.at_buffer;
  glyphs = rw g.font_same f.glyphs;
}

-- The cells of a new page, or those with the character.
turned :
    (c : ℕ) (new : Cell) (con : Console) (cells : ℕ → Cell) (fb : Framebuffer)
    → Fits con
    → IsValid con
    → Redraws con.fb fb
    → Displays (record con { fb = fb }) (written c new (position con) cells)
    → Displays
        (record con {
          fb =
              if overruns con.width con.height c (position con)
              then clear_rows fb.height 0 con.bg_color fb
              else fb;
        })
        (after_char con.width con.height con.bg_color c new (position con) cells)
turned c new con cells fb f v k d =
    elim (Bool-cases (overruns con.width con.height c (position con))) [
      | inl over ↦
          let con1 = moved_to con.cursor_x con.cursor_y fb con in
          let f1 = Fits-Redraws con con1 (moved_to-SameGrid con.cursor_x con.cursor_y fb con k) f in
          let v1 = moved_to-IsValid con.cursor_x con.cursor_y fb con v v.x_in v.y_in in
          rw over (clear_rows-blank con1 con.bg_color f1 v1)
      | inr same ↦ rw same d
    ]

pub put_char-Displays :
    (c fg_color bg_color : ℕ) (con : Console) (cells : ℕ → Cell)
    → Fits con
    → IsValid con
    → Displays con cells
    → (con' : Console) × (put_char c fg_color bg_color con ≡ some con')
      × IsValid con'
      × SameGrid con con'
      × (position con' ≡ next_position c con)
      × (con'.bg_color ≡ con.bg_color)
      × Displays con' (
          after_char con.width con.height con.bg_color c
            (shows c fg_color bg_color)
            (position con)
            cells)
unfolding put_char
put_char-Displays c fg_color bg_color con cells f v d =
    let (con', e, v', g, p) = put_char_lem c fg_color bg_color con v in
    let it = place-Places c fg_color bg_color con cells f v d in
    let there = wrap_screen (wrap_column (moved_to it.x it.y it.fb con)) in
    let settled = settle-fb it.x it.y it.fb con in
    let runs : put_char c fg_color bg_color con ≡ some there = rw (put_char, it.placed) refl in
    let same : con' ≡ there = same_result e runs in
    let fb =
      if overruns con.width con.height c (position con)
      then clear_rows it.fb.height 0 con.bg_color it.fb
      else it.fb in
    let after =
      after_char con.width con.height con.bg_color c (shows c fg_color bg_color) (position con)
        cells in
    let paged : (if wipes con.width con.height it.x it.y
          then clear_rows it.fb.height 0 con.bg_color it.fb
          else it.fb)
        ≡ fb =
      ap (λ b. if b then clear_rows it.fb.height 0 con.bg_color it.fb else it.fb) it.new_page in
    let drawn = ap (λ (k : Console). k.fb) same ∙ settled.1 ∙ paged in
    let shown = turned c (shows c fg_color bg_color) con cells it.fb f v it.redraws it.shown in
    (
      con',
      e,
      v',
      g,
      p,
      ap (λ (k : Console). k.bg_color) same ∙ settled.0,
      Displays-of_SameGrid con con' fb after g drawn shown,
    )
