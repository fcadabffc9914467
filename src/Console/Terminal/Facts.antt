-- ===== src/Console/Terminal/Facts.antt =====
-- The facts that `info` of src/console.c shows, and the lines that it prints.
use valern.Prelude.{
  ℕ, ◌≡◌, refl, ap, ap₂, sym, ◌∙◌, List, [], ◌∷◌, ◌++◌, Option, none, some, codes, String, ◌<◌, ◌^◌,
  arith, pos, Bool, true, false, ◌==◌, ◌&&◌, if◌then◌else◌,
}
use valern.Format.{int_to_str, uint_to_str}
use valern.Format.Digits.{to_text-IsNumeral}
use valern.Console.Screen.{Console}
use valern.Console.Printf.{word, int_of_word, Argument}
use valern.Console.Setup.{white, green, black}
use valern.Console.Command.{info_lines}
use valern.Console.Command.Lines.{IsShowable}
use valern.Console.Terminal.{Output, prints}
use valern.Console.Printf.Rendering.{render}
use valern.Console.Terminal.Print.{printed}

-- A line on black.
abbrev pub say : ℕ → String → Output
say color s = prints color black (codes s)

abbrev get_text : Option (List ℕ) → List ℕ
get_text none = []
get_text (some digits) = digits

-- What `%u` prints.
abbrev pub decimal : ℕ → List ℕ
decimal n = get_text (uint_to_str n 10)

-- The two shapes of lines about numbers.
abbrev one_number : String → String → ℕ → Output
one_number label unit a = prints white black (codes label ++ (decimal a ++ codes unit))

abbrev two_numbers : String → String → ℕ → ℕ → Output
two_numbers label unit a b =
    prints white black (codes label ++ (decimal a ++ (codes "x" ++ (decimal b ++ codes unit))))

-- The facts about a console: its size in cells, the size of a glyph, the size of the screen, the scale,
-- the version of the font and the number of its glyphs.
abbrev pub info_outputs : Console → List Output
info_outputs con =
    say green "Valern OS System Information:\n"
    ∷ two_numbers "Console dimensions: " " characters\n" con.width con.height
    ∷ two_numbers "Font size: " " pixels\n" con.font.width con.font.height
    ∷ two_numbers "Framebuffer: " " pixels\n" con.fb.width con.fb.height
    ∷ one_number "Scale factor: " "x\n" con.scale
    ∷ one_number "Font version: " "\n" con.font.version
    ∷ one_number "Glyph count: " "\n" con.font.glyph_count
    ∷ []

decimal_lem : (w : ℕ) → w < 2 ^ 31 → int_to_str (int_of_word w) 10 ≡ some (decimal w)
unfolding int_to_str uint_to_str
decimal_lem w h =
    let it : int_of_word w ≡ pos w = ground arith in
    let (t, e, _) =
      to_text-IsNumeral b'a' 10 10 w (omega arith) (omega arith) (omega arith) (omega arith)
        (omega arith) in
    ap (λ z. int_to_str z 10) it ∙ e ∙ ap some (sym (ap get_text e))

-- Neither the end nor a conversion.
abbrev is_plain : List ℕ → Bool
is_plain [] = true
is_plain (c ∷ cs) = (if c == 0 then false else if c == b'%' then false else true) && is_plain cs

-- Plain characters are printed as they stand.
render-plain :
    (front : List ℕ) (d : ℕ) (rest : List ℕ) (args : List Argument) (t : List ℕ)
    → is_plain front ≡ true
    → render (d ∷ rest) args ≡ some t
    → render (front ++ d ∷ rest) args ≡ some (front ++ t)
render-plain [] d rest args t h e = e
render-plain (c ∷ []) d rest args t h e =
    let other : (c == 0) ≡ false = ground (arith, h) in
    let no_percent : (c == b'%') ≡ false = ground (arith, h) in rw (other, no_percent, e) refl
render-plain (c ∷ c' ∷ front) d rest args t h e =
    let other : (c == 0) ≡ false = ground (arith, h) in
    let no_percent : (c == b'%') ≡ false = ground (arith, h) in
    let later = render-plain (c' ∷ front) d rest args t (ground (arith, h)) e in
    rw (other, no_percent, later) refl

render-number :
    (w : ℕ) (rest : List ℕ) (args : List Argument) (t : List ℕ)
    → w < 2 ^ 31
    → render rest args ≡ some t
    → render (b'%' ∷ b'd' ∷ rest) (word w ∷ args) ≡ some (decimal w ++ t)
render-number w rest args t h e = rw (decimal_lem w h, e) refl

render-one :
    (label unit : List ℕ) (a : ℕ)
    → is_plain label ≡ true
    → is_plain unit ≡ true
    → a < 2 ^ 31
    → render (label ++ b'%' ∷ b'd' ∷ (unit ++ 0 ∷ [])) (word a ∷ [])
      ≡ some (label ++ (decimal a ++ (unit ++ [])))
render-one label unit a l u h =
    render-plain label b'%' (b'd' ∷ (unit ++ 0 ∷ [])) (word a ∷ []) (decimal a ++ (unit ++ [])) l
      (render-number a (unit ++ 0 ∷ []) [] (unit ++ []) h (render-plain unit 0 [] [] [] u refl))

render-two :
    (label unit : List ℕ) (a b : ℕ)
    → is_plain label ≡ true
    → is_plain unit ≡ true
    → a < 2 ^ 31
    → b < 2 ^ 31
    → render (label ++ b'%' ∷ b'd' ∷ b'x' ∷ b'%' ∷ b'd' ∷ (unit ++ 0 ∷ [])) (word a ∷ word b ∷ [])
      ≡ some (label ++ (decimal a ++ (b'x' ∷ (decimal b ++ (unit ++ [])))))
render-two label unit a b l u h k =
    let back = unit ++ 0 ∷ [] in
    let shown = decimal b ++ (unit ++ []) in
    let second : render (b'%' ∷ b'd' ∷ back) (word b ∷ []) ≡ some shown =
      render-number b back [] (unit ++ []) k (render-plain unit 0 [] [] [] u refl) in
    let middle = render-plain (b'x' ∷ []) b'%' (b'd' ∷ back) (word b ∷ []) shown refl second in
    render-plain label b'%' (b'd' ∷ b'x' ∷ b'%' ∷ b'd' ∷ back) (word a ∷ word b ∷ [])
      (decimal a ++ (b'x' ∷ shown)) l
      (render-number a (b'x' ∷ b'%' ∷ b'd' ∷ back) (word b ∷ []) (b'x' ∷ shown) h middle)

abbrev text_or_nothing : Option (List ℕ) → List ℕ
text_or_nothing r = elim r [ none ↦ [] | some t ↦ t ]

-- One more white line.
line_then :
    {t u : List ℕ} {ts us : List Output}
    → t ≡ u
    → ts ≡ us
    → prints white black t ∷ ts ≡ prints white black u ∷ us
line_then e f = ap₂ (λ t ts. prints white black t ∷ ts) e f

-- `info` prints the facts.
pub info_lem : (con : Console) → IsShowable con → printed (info_lines con) ≡ info_outputs con
info_lem con n =
    ap (λ ls. say green "Valern OS System Information:\n" ∷ ls)
      (line_then
        (two (codes "Console dimensions: ") (codes " characters\n") refl refl n.width_int
          n.height_int)
        (line_then
          (two (codes "Font size: ") (codes " pixels\n") refl refl n.font_width_int
            n.font_height_int)
          (line_then
            (two (codes "Framebuffer: ") (codes " pixels\n") refl refl n.fb_width_int
              n.fb_height_int)
            (line_then (one (codes "Scale factor: ") (codes "x\n") refl refl n.scale_int) (
              line_then (one (codes "Font version: ") (codes "\n") refl refl n.version_int) (
                line_then (one (codes "Glyph count: ") (codes "\n") refl refl n.count_int)
                  refl))))))
  where
    one :
        {a : ℕ} (label unit : List ℕ)
        → is_plain label ≡ true
        → is_plain unit ≡ true
        → a < 2 ^ 31
        → text_or_nothing (render (label ++ b'%' ∷ b'd' ∷ (unit ++ 0 ∷ [])) (word a ∷ []))
          ≡ label ++ (decimal a ++ (unit ++ []))
    one {a} label unit l u h = ap text_or_nothing (render-one label unit a l u h)

    two :
        {a b : ℕ} (label unit : List ℕ)
        → is_plain label ≡ true
        → is_plain unit ≡ true
        → a < 2 ^ 31
        → b < 2 ^ 31
        → text_or_nothing (
            render
              (label ++ b'%' ∷ b'd' ∷ b'x' ∷ b'%' ∷ b'd' ∷ (unit ++ 0 ∷ []))
              (word a ∷ word b ∷ []))
          ≡ label ++ (decimal a ++ (b'x' ∷ (decimal b ++ (unit ++ []))))
    two {a} {b} label unit l u h k = ap text_or_nothing (render-two label unit a b l u h k)
