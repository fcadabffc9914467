-- ===== src/Console/Terminal/Session.antt =====
-- The loop of `shell` in src/console.c on a whole sequence of keys, on a page.
use valern.Prelude.{ℕ, ◌≡◌, refl, sym, ap, subst, List, [], ◌∷◌, ◌++◌, some, same_result}
use valern.Port.{Event}
use valern.Console.Command.{info_lines}
use valern.Console.Shell.{Shell, shell_key, shell_keys}
use valern.Console.Shell.Editor.{shell_key_lem}
use valern.Console.Shell.Line.{IsEditing, edit, key_events}
use valern.Console.Shell.Session.{all_events, edit_all}
use valern.Console.Terminal.{Page, Output, after_all, Shows, Draws}
use valern.Console.Terminal.Print.{printed, Draws-refl, Draws-trans}
use valern.Console.Terminal.Commands.{facts-of_SameGrid}
use valern.Console.Terminal.Keys.{key_outputs, after_all-append, shell_key-Draws}

-- What the keys print, each on the line that the earlier ones have left.
abbrev pub session_outputs : List Output → List ℕ → List ℕ → List Output
session_outputs facts [] line = []
session_outputs facts (c ∷ cs) line =
    key_outputs facts c line ++ session_outputs facts cs (edit c line)

-- A key's two descriptions are of the same next state.
key_both :
    (c : ℕ) (s : Shell) (line : List ℕ) (page : Page)
    → IsEditing s line
    → Shows s.console page
    → (s' : Shell) × (shell_key c s ≡ some (s', key_events c line))
      × IsEditing s' (edit c line)
      × Draws s.console s'.console
          (after_all (key_outputs (printed (info_lines s.console)) c line) page)
key_both c s line page v shown =
    let (s', e, v', g) = shell_key_lem c s line v in
    let (s'', f, d) = shell_key-Draws c s line page v shown in
    let same : s'' ≡ s' = ap (λ (p : Shell × List Event). p.0) (same_result f e) in
    (
      s',
      e,
      v',
      subst
          (λ (k : Shell).
            Draws s.console k.console
              (after_all (key_outputs (printed (info_lines s.console)) c line) page))
          same d,
    )

-- Whatever is typed, the loop has a defined result, with the line and the port accesses of the typed
-- keys, and the screen shows the page that their outputs, one after the other, make of the page that was
-- there: the echo of each key, the output of each entered line, and the prompts. The grid stays.
pub shell_keys-Draws :
    (cs : List ℕ) (s : Shell) (line : List ℕ) (page : Page)
    → IsEditing s line
    → Shows s.console page
    → (s' : Shell) × (shell_keys cs s ≡ some (s', all_events cs line))
      × IsEditing s' (edit_all cs line)
      × Draws s.console s'.console
          (after_all (session_outputs (printed (info_lines s.console)) cs line) page)
unfolding shell_keys
shell_keys-Draws [] s line page v shown = (s, refl, v, Draws-refl s.console page shown)
shell_keys-Draws (c ∷ cs) s line page v shown =
    let facts = printed (info_lines s.console) in
    let (mid, e, v', d) = key_both c s line page v shown in
    let page1 = after_all (key_outputs facts c line) page in
    let (s', f, v'', d') = shell_keys-Draws cs mid (edit c line) page1 v' d.shown in
    let rest : Draws mid.console s'.console
        (after_all (session_outputs facts cs (edit c line)) page1) =
      subst
        (λ o. Draws mid.console s'.console (after_all (session_outputs o cs (edit c line)) page1))
        (facts-of_SameGrid s.console mid.console d.grid) d' in
    (
      s',
      rw (shell_keys, e, f) refl,
      v'',
      subst (λ p. Draws s.console s'.console p)
          (sym (
            after_all-append (key_outputs facts c line) (session_outputs facts cs (edit c line))
              page))
          (Draws-trans s.console mid.console s'.console d rest),
    )
