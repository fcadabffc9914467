-- ===== src/Console/Terminal/Undone.antt =====
-- A key and then the backspace in `shell` of src/console.c: the line and the page.
use valern.Prelude.{
  ℕ, ◌+◌, ◌*◌, ◌≤◌, ◌<◌, ◌≡◌, refl, ap, arith, List, [], ◌∷◌, ◌++◌, length, ◌==◌, if◌then◌else◌,
  ◌∙◌, some, subst,
}
use valern.Console.Setup.{white, black}
use valern.Console.Pixels.Page.{shows}
use valern.Console.Shell.{key_backspace, Shell, shell_keys}
use valern.Console.Shell.Line.{edit, without_last, IsEditing}
use valern.Console.Terminal.{Page, Output, prints, after, Shows, after_all}
use valern.Console.Terminal.Keys.{key_outputs, erasure}
use valern.Console.Terminal.Session.{session_outputs, shell_keys-Draws}
use valern.Console.Shell.Session.{edit_all, all_events}
use valern.Console.Terminal.Print.{printed}
use valern.Console.Command.{info_lines}

-- The page with a space in the cell of its place.
abbrev pub with_space : Page → Page
with_space page = record page {
  cells = λ q. if q == page.place then shows 32 white black else page.cells q;
}

-- A character and its erasure, if it does not fill the last cell.
undone_page :
    (c : ℕ) (page : Page)
    → 32 ≤ c
    → page.place + 1 < page.rows * page.columns
    → after (prints white black (8 ∷ 32 ∷ 8 ∷ [])) (after (prints white black (c ∷ [])) page)
      ≡ with_space page
undone_page c page h l =
    let cells : (q : ℕ)
        → (after (prints white black (8 ∷ 32 ∷ 8 ∷ []))
              (after (prints white black (c ∷ [])) page)).cells
            q
          ≡ (with_space page).cells q =
      λ q. ground arith in
    let place : (after (prints white black (8 ∷ 32 ∷ 8 ∷ []))
          (after (prints white black (c ∷ [])) page)).place
        ≡ page.place =
      ground arith in
    λ i. record page { cells = λ q. cells q i; place = place i }

without_last-append : (line : List ℕ) (c : ℕ) → without_last (line ++ c ∷ []) ≡ line
without_last-append [] c = refl
without_last-append (a ∷ []) c = refl
without_last-append (a ∷ b ∷ line) c = ap (λ l. a ∷ l) (without_last-append (b ∷ line) c)

erasure-append :
    (line : List ℕ) (c : ℕ) → erasure (line ++ c ∷ []) ≡ prints white black (8 ∷ 32 ∷ 8 ∷ []) ∷ []
erasure-append [] c = refl
erasure-append (a ∷ line) c = refl

-- A printable key for which the line has room is a printed character.
edit-printable :
    (c : ℕ) (line : List ℕ) → 32 ≤ c → c ≤ 126 → length line < 255 → edit c line ≡ line ++ c ∷ []
edit-printable c line a b l = ground arith

outputs-printable :
    (facts : List Output) (c : ℕ) (line : List ℕ)
    → 32 ≤ c
    → c ≤ 126
    → length line < 255
    → key_outputs facts c line ≡ prints white black (c ∷ []) ∷ []
outputs-printable facts c line a b l = ground arith

undone_outputs :
    (facts : List Output) (c : ℕ) (line : List ℕ)
    → 32 ≤ c
    → c ≤ 126
    → length line < 255
    → session_outputs facts (c ∷ key_backspace ∷ []) line
      ≡ prints white black (c ∷ []) ∷ prints white black (8 ∷ 32 ∷ 8 ∷ []) ∷ []
undone_outputs facts c line a b l =
    rw
      (
        session_outputs,
        outputs-printable facts c line a b l,
        edit-printable c line a b l,
        erasure-append line c,
      )
      refl

undone_line :
    (c : ℕ) (line : List ℕ)
    → 32 ≤ c
    → c ≤ 126
    → length line < 255
    → (edit_all (c ∷ key_backspace ∷ []) line ≡ line)
      × (all_events (c ∷ key_backspace ∷ []) line ≡ [])
undone_line c line a b l = (
  ap (edit key_backspace) (edit-printable c line a b l) ∙ without_last-append line c,
  ground arith,
)

-- A printable key for which the line has room and the page a further cell, and then the backspace: the
-- shell has its line again, no port was accessed, and the screen shows the page that was there with a
-- space in the cell of its place, where the next character goes as before.
pub shell_keys-undone :
    (c : ℕ) (s : Shell) (line : List ℕ) (page : Page)
    → IsEditing s line
    → Shows s.console page
    → 32 ≤ c
    → c ≤ 126
    → length line < 255
    → page.place + 1 < page.rows * page.columns
    → (s' : Shell) × (shell_keys (c ∷ key_backspace ∷ []) s ≡ some (s', []))
      × IsEditing s' line
      × Shows s'.console (with_space page)
shell_keys-undone c s line page v shown a b l room =
    let (s', e, v', d) = shell_keys-Draws (c ∷ key_backspace ∷ []) s line page v shown in
    let (same_line, silent) = undone_line c line a b l in
    let outputs =
      ap (λ o. after_all o page) (undone_outputs (printed (info_lines s.console)) c line a b l)
      ∙ undone_page c page a room in
    (
      s',
      e ∙ ap (λ events. some (s', events)) silent,
      subst (IsEditing s') same_line v',
      subst (Shows s'.console) outputs d.shown,
    )
