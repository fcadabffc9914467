-- ===== src/Console/Text/Memory.antt =====
-- The memory that src/console.c writes when it prints.
use valern.Prelude.{
  ℕ, ◌+◌, ◌*◌, ◌/◌, ◌^◌, ◌≤◌, ◌<◌, ◌≡◌, arith, List, some, ◌⊎◌, ◌∙◌, inl, inr, ap, sym,
}
use valern.Console.Screen.{Framebuffer, Console, index_of}
use valern.Console.Text.{put_text}
use valern.Console.Text.Grid.{IsValid, inside_grid}
use valern.Console.Text.Redraw.{IsOff}
use valern.Console.Text.Travel.{put_text_lem}

abbrev pub stride : Framebuffer → ℕ
stride fb = fb.pitch / 4

-- The rows fit into the pitch, and the memory of the screen into the address space.
pub record IsScreen (fb : Framebuffer) : Type 0 where
  pub rows_fit : fb.width ≤ stride fb
  pub no_wrap : fb.height * stride fb ≤ 2 ^ 62

pub index_inside :
    (x y : ℕ) (fb : Framebuffer)
    → IsScreen fb
    → x < fb.width
    → y < fb.height
    → index_of x y fb ≡ y * stride fb + x
index_inside x y fb s h l =
    let below = inside_grid x y (stride fb) fb.height (omega (arith, s.rows_fit)) l in
    omega (arith, below, s.no_wrap)

earlier_row : (w x y y' : ℕ) → x < w → y < y' → y * w + x < y' * w
earlier_row w x y y' h l = grind arith

-- An index tells its column and its row.
pub cell_inj : (w x y x' y' : ℕ) → x < w → x' < w → y * w + x ≡ y' * w + x' → (x ≡ x') × (y ≡ y')
cell_inj w x y x' y' h k e = elim (lt_cases y y') [
  | inl less ↦ absurd (omega (arith, earlier_row w x y y' h less))
  | inr (inl same) ↦ let f : y * w ≡ y' * w = ap (λ n. n * w) same in (omega (arith, f), same)
  | inr (inr more) ↦ absurd (omega (arith, earlier_row w x' y' y k more))
]
  where
    lt_cases : (a b : ℕ) → (a < b) ⊎ ((a ≡ b) ⊎ (b < a))
    lt_cases a b = omega arith

-- Two pixels of the screen have different indices.
pub index_of_inj :
    (x y x' y' : ℕ) (fb : Framebuffer)
    → IsScreen fb
    → (x < fb.width) × (y < fb.height)
    → (x' < fb.width) × (y' < fb.height)
    → index_of x y fb ≡ index_of x' y' fb
    → (x ≡ x') × (y ≡ y')
index_of_inj x y x' y' fb s (h, l) (h', l') e =
    let here = index_inside x y fb s h l in
    let there = index_inside x' y' fb s h' l' in
    cell_inj (stride fb) x y x' y' (omega (arith, s.rows_fit)) (omega (arith, s.rows_fit))
      (sym here ∙ e ∙ there)

-- The indices behind the last row are no pixels, nor is the padding behind the columns of a row.
IsOff-behind : (fb : Framebuffer) (at : ℕ) → IsScreen fb → fb.height * stride fb ≤ at → IsOff fb at
IsOff-behind fb at s h x y a b e =
    let below = inside_grid x y (stride fb) fb.height (omega (arith, s.rows_fit)) b in
    let here = index_inside x y fb s a b in omega (arith, below, here)

IsOff-padding :
    (fb : Framebuffer) (x y : ℕ)
    → IsScreen fb
    → fb.width ≤ x
    → x < stride fb
    → y < fb.height
    → IsOff fb (y * stride fb + x)
IsOff-padding fb x y s h l m x' y' a b e =
    let here = index_inside x' y' fb s a b in
    let same = (cell_inj (stride fb) x y x' y' l (omega (arith, s.rows_fit)) (e ∙ here)).0 in
    omega (arith, same)

-- On a valid console whose memory is as large as its rows and its pitch say, printing any text writes
-- no word behind the last row, and none of the padding between two rows.
pub put_text-confined :
    (text : List ℕ) (fg_color bg_color : ℕ) (con : Console)
    → IsValid con
    → IsScreen con.fb
    → (con' : Console) × (put_text text fg_color bg_color con ≡ some con')
      × ((at : ℕ) → con.fb.height * stride con.fb ≤ at → con'.fb.pixels at ≡ con.fb.pixels at)
      × ((x y : ℕ)
          → con.fb.width ≤ x
          → x < stride con.fb
          → y < con.fb.height
          → con'.fb.pixels (y * stride con.fb + x) ≡ con.fb.pixels (y * stride con.fb + x))
put_text-confined text f b con v s =
    let (con', e, _, g, _) = put_text_lem text f b con v in
    (
      con',
      e,
      λ at h. g.redrawn_same.confined at (IsOff-behind con.fb at s h),
      λ x y h l m.
          g.redrawn_same.confined (y * stride con.fb + x) (IsOff-padding con.fb x y s h l m),
    )
