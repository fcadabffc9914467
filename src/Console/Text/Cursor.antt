-- ===== src/Console/Text/Cursor.antt =====
-- The cursor of src/console.c under `putChar`.
use valern.Prelude.{ℕ, ◌+◌, ◌*◌, ◌≤◌, ◌<◌, ◌≡◌, arith, some, ap, ◌∙◌}
use valern.Console.Screen.{Console, Framebuffer, console_clear, clear_rows}
use valern.Console.Text.{wrap_column, wrap_screen, put_char}
use valern.Console.Text.Place.{place-Moves}
use native.Mathlib.Decide.{dec_lt}
use valern.Console.Text.Redraw.{Redraws, Redraws-trans, clear_rows-Redraws}
use valern.Console.Text.Grid.{
  IsValid, SameGrid, inside_grid, moved_to, moved_to-IsValid, moved_to-SameGrid, next_position,
  on_grid, position, row_start,
}

-- What the wrapping of a cursor leaves: a valid console with the cursor on that cell, or on the first.
abbrev Settles : ℕ → ℕ → Framebuffer → Console → Type 0
Settles x y fb con =
    (con' : Console) × (wrap_screen (wrap_column (moved_to x y fb con)) ≡ con')
    × IsValid con'
    × SameGrid con con'
    × (position con' ≡ on_grid (y * con.width + x) con)

module _ (x y : ℕ) (fb : Framebuffer) (con : Console) (v : IsValid con)
    (k : Redraws con.fb fb) where
  inside-Settles : x < con.width → y < con.height → Settles x y fb con
  unfolding wrap_screen wrap_column
  inside-Settles h l =
      let below = inside_grid x y con.width con.height h l in
      (
        moved_to x y fb con,
        ground arith,
        moved_to-IsValid x y fb con v h l,
        moved_to-SameGrid x y fb con k,
        ground (arith, below),
      )

  next_row-Settles : x ≡ con.width → y + 1 < con.height → Settles x y fb con
  unfolding wrap_screen wrap_column
  next_row-Settles h l =
      let below = inside_grid 0 (y + 1) con.width con.height (omega (arith, v.x_in)) l in
      let e : y * con.width + x ≡ (y + 1) * con.width + 0 = omega (arith, row_start y con.width) in
      (
        moved_to 0 (y + 1) fb con,
        ground arith,
        moved_to-IsValid 0 (y + 1) fb con v (omega (arith, v.x_in)) l,
        moved_to-SameGrid 0 (y + 1) fb con k,
        rw e (ground (arith, below)),
      )

  -- The cursor is past the last row, and the screen is cleared.
  cleared-Settles :
      wrap_screen (wrap_column (moved_to x y fb con))
        ≡ moved_to 0 0 (clear_rows fb.height 0 con.bg_color fb) con
      → con.height * con.width ≤ y * con.width + x
      → Settles x y fb con
  cleared-Settles e past =
      let cleared = clear_rows fb.height 0 con.bg_color fb in
      (
        moved_to 0 0 cleared con,
        e,
        moved_to-IsValid 0 0 cleared con v (omega (arith, v.x_in)) (omega (arith, v.y_in)),
        moved_to-SameGrid 0 0 cleared con (Redraws-trans k (clear_rows-Redraws con.bg_color fb)),
        ground (arith, past),
      )

  -- The cursor is at most one column or one row too far.
  settle-Settles :
      x ≤ con.width → y ≤ con.height → (x ≡ con.width → y < con.height) → Settles x y fb con
  unfolding wrap_screen wrap_column console_clear
  settle-Settles a b c = elim (dec_lt x con.width) [
    | yes h ↦ elim (dec_lt y con.height) [
      | yes l ↦ inside-Settles h l
      | no l ↦
          let last : y ≡ con.height = omega arith in
          cleared-Settles (ground arith) (rw last (omega arith))
    ]
    | no h ↦ elim (dec_lt (y + 1) con.height) [
      | yes l ↦ next_row-Settles (omega arith) l
      | no l ↦
          let last : con.height ≡ y + 1 = omega arith in
          cleared-Settles (ground arith) (rw last (omega (arith, row_start y con.width)))
    ]
  ]

-- From a valid console `putChar` has a defined result, whatever the character: the console stays
-- valid with the grid that it had, and the cursor goes on by one cell, to the next row, to the start
-- of the row or back by one cell; past the last cell it is in the first one.
pub put_char_lem :
    (c fg_color bg_color : ℕ) (con : Console)
    → IsValid con
    → (con' : Console) × (put_char c fg_color bg_color con ≡ some con')
      × IsValid con'
      × SameGrid con con'
      × (position con' ≡ next_position c con)
unfolding put_char
put_char_lem c fg_color bg_color con v =
    let it = place-Moves c fg_color bg_color con v in
    let (con', s, v', g, p) =
      settle-Settles it.x it.y it.fb con v it.redraws it.column it.row it.not_both in
    (con', rw it.placed (ap some s), v', g, p ∙ it.at)

-- The cleared console is valid, with the cursor on its first cell.
pub console_clear-IsValid :
    (con : Console) → IsValid con → IsValid (console_clear con) × SameGrid con (console_clear con)
unfolding console_clear
console_clear-IsValid con v =
    let cleared = clear_rows con.fb.height 0 con.bg_color con.fb in
    (
      moved_to-IsValid 0 0 cleared con v (omega (arith, v.x_in)) (omega (arith, v.y_in)),
      moved_to-SameGrid 0 0 cleared con (clear_rows-Redraws con.bg_color con.fb),
    )
