-- ===== src/Console/Shell/Session.antt =====
-- The loop of `shell` in src/console.c on a whole sequence of keys.
use valern.Prelude.{ℕ, ◌≡◌, refl, List, [], ◌∷◌, ◌++◌, some}
use valern.Port.{Event}
use valern.Console.Shell.{Shell, shell_keys}
use valern.Console.Shell.Editor.{shell_key_lem}
use valern.Console.Shell.Line.{edit, key_events, IsEditing}
use valern.Console.Text.Grid.{SameGrid}
use valern.Console.Text.Travel.{SameGrid-refl, SameGrid-trans}

-- The line after the keys, and the port accesses of the lines that they enter.
abbrev pub edit_all : List ℕ → List ℕ → List ℕ
edit_all [] line = line
edit_all (c ∷ cs) line = edit_all cs (edit c line)

abbrev pub all_events : List ℕ → List ℕ → List Event
all_events [] line = []
all_events (c ∷ cs) line = key_events c line ++ all_events cs (edit c line)

-- Whatever is typed, the loop has a defined result, key after key: the shell holds the line that the
-- editor makes of the keys, on a valid console, and has made exactly the port accesses of the lines
-- that were entered, in their order. The grid stays, and no memory but pixels of the screen is
-- written.
pub shell_keys_lem :
    (cs : List ℕ) (s : Shell) (line : List ℕ)
    → IsEditing s line
    → (s' : Shell) × (shell_keys cs s ≡ some (s', all_events cs line))
      × IsEditing s' (edit_all cs line)
      × SameGrid s.console s'.console
unfolding shell_keys
shell_keys_lem [] s line v = (s, refl, v, SameGrid-refl s.console)
shell_keys_lem (c ∷ cs) s line v =
    let (mid, e, v', g) = shell_key_lem c s line v in
    let (s', f, v'', h) = shell_keys_lem cs mid (edit c line) v' in
    (s', rw (shell_keys, e, f) refl, v'', SameGrid-trans s.console mid.console s'.console g h)
