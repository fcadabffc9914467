-- ===== src/Console/Text/Travel.antt =====
-- The cursor of src/console.c under a whole text, as the number of the cell that it is on.
use valern.Prelude.{
  ℕ, ◌+◌, ◌-◌, ◌*◌, ◌/◌, ◌<◌, ◌≡◌, refl, arith, List, [], ◌∷◌, some, if◌then◌else◌, ◌==◌, ltb, ◌∙◌,
  ap,
}
use native.Mathlib.Nat.{mul-add-div_right, div-eq_of_lt}
use valern.Console.Screen.{Console}
use valern.Console.Text.{newline, carriage_return, backspace, put_text}
use valern.Console.Text.Cursor.{put_char_lem}
use valern.Console.Text.Grid.{IsValid, SameGrid, position, next_position, inside_grid}
use valern.Console.Text.Redraw.{Redraws-refl, Redraws-trans}

-- A cell of a grid of `w` by `h`, or the first one from its end on.
abbrev pub cell : ℕ → ℕ → ℕ → ℕ
cell w h p = if ltb p (h * w) then p else 0

-- Where a character takes a cursor on the cell `p` of such a grid.
abbrev pub travel : ℕ → ℕ → ℕ → ℕ → ℕ
travel w h c p =
    if c == newline
    then cell w h ((p / w + 1) * w)
    else if c == carriage_return
    then p / w * w
    else if c == backspace
    then p - 1
    else cell w h (p + 1)

abbrev pub travel_all : ℕ → ℕ → List ℕ → ℕ → ℕ
travel_all w h [] p = p
travel_all w h (c ∷ text) p = travel_all w h text (travel w h c p)

pub row_of : (x y w : ℕ) → x < w → (y * w + x) / w ≡ y
row_of x y w h =
    let in_row : x / w ≡ 0 = div-eq_of_lt h in
    let whole : (y * w + x) / w ≡ y + x / w = mul-add-div_right (omega arith) y x in
    omega (arith, whole, in_row)

pub next_position-travel :
    (c : ℕ) (con : Console)
    → IsValid con
    → next_position c con ≡ travel con.width con.height c (position con)
next_position-travel c con v = rw (row_of con.cursor_x con.cursor_y con.width v.x_in) refl

pub SameGrid-refl : (con : Console) → SameGrid con con
SameGrid-refl con = record {
  width_same = refl;
  height_same = refl;
  font_same = refl;
  scale_same = refl;
  redrawn_same = Redraws-refl con.fb;
}

pub SameGrid-trans : (a b c : Console) → SameGrid a b → SameGrid b c → SameGrid a c
SameGrid-trans a b c g h = record {
  width_same = h.width_same ∙ g.width_same;
  height_same = h.height_same ∙ g.height_same;
  font_same = h.font_same ∙ g.font_same;
  scale_same = h.scale_same ∙ g.scale_same;
  redrawn_same = Redraws-trans g.redrawn_same h.redrawn_same;
}

-- From a valid console every text has a defined result: the console stays valid with the grid that it
-- had, and the cursor travels from its cell as the characters say, one after the other.
pub put_text_lem :
    (text : List ℕ) (fg_color bg_color : ℕ) (con : Console)
    → IsValid con
    → (con' : Console) × (put_text text fg_color bg_color con ≡ some con')
      × IsValid con'
      × SameGrid con con'
      × (position con' ≡ travel_all con.width con.height text (position con))
unfolding put_text
put_text_lem [] fg_color bg_color con v = (con, refl, v, SameGrid-refl con, refl)
put_text_lem (c ∷ text) fg_color bg_color con v =
    let (mid, e, v', g, p) = put_char_lem c fg_color bg_color con v in
    let (con', f, v'', h, q) = put_text_lem text fg_color bg_color mid v' in
    let there : position mid ≡ travel con.width con.height c (position con) =
      p ∙ next_position-travel c con v in
    (
      con',
      rw (put_text, e) f,
      v'',
      SameGrid-trans con mid con' g h,
      q
          ∙ ap (λ k. travel_all k mid.height text (position mid)) g.width_same
          ∙ ap (λ k. travel_all con.width k text (position mid)) g.height_same
          ∙ ap (travel_all con.width con.height text) there,
    )

-- The three characters that the shell prints to erase one move the cursor back by exactly one cell,
-- over a row's start too, if the cursor is not on the first cell.
put_text-erase :
    (fg_color bg_color : ℕ) (con : Console)
    → IsValid con
    → 0 < position con
    → (con' : Console) × (put_text (8 ∷ 32 ∷ 8 ∷ []) fg_color bg_color con ≡ some con')
      × IsValid con'
      × SameGrid con con'
      × (position con' ≡ position con - 1)
put_text-erase fg_color bg_color con v h =
    let (con', e, v', g, p) = put_text_lem (8 ∷ 32 ∷ 8 ∷ []) fg_color bg_color con v in
    let inside = inside_grid con.cursor_x con.cursor_y con.width con.height v.x_in v.y_in in
    (con', e, v', g, p ∙ ground (arith, inside))
