-- ===== src/Interrupts/Raced/Alone.antt =====
-- `keyboard_init` of src/keyboard.c with no interrupts between its accesses of the ports.
use valern.Prelude.{ℕ, ◌+◌, ◌≡◌, refl, sym, ◌∙◌, List, [], ◌∷◌, Option, none, some}
use valern.Port.{M, Io, pure, ◌>>=◌, answered, inb}
use valern.Keyboard.Buffer.{keyboard_clear_buffer}
use valern.Keyboard.Modifiers.{no_keys}
use valern.Keyboard.Driver.{Keyboard, keyboard_init, init_controller, keyboard_data_port}
use valern.Interrupts.Raced.{serve, statements, ask, configure, keyboard_init_with}

-- The statements in turn, and then the rest.
abbrev chain : {A : Type 0} → List (M (Unit {0})) → M A → M A
chain [] rest = rest
chain (statement ∷ list) rest = statement >>= (λ u. chain list rest)

answered-same :
    {A B : Type 0} (o : Option (A × Io)) (f g : A → M B)
    → ((a : A) (now : Io) → f a now ≡ g a now)
    → answered o f ≡ answered o g
answered-same none f g h = refl
answered-same (some (a, now)) f g h = h a now

answered-answered :
    {A B C : Type 0} (o : Option (A × Io)) (f : A → M B) (g : B → M C)
    → answered (answered o f) g ≡ answered o (λ a. f a >>= g)
answered-answered none f g = refl
answered-answered (some (a, now)) f g = refl

chain-same :
    {A : Type 0} (list : List (M (Unit {0}))) (f g : M A)
    → ((now : Io) → f now ≡ g now)
    → (io : Io) → chain list f io ≡ chain list g io
chain-same [] f g h io = h io
chain-same (statement ∷ list) f g h io =
    answered-same (statement io) (λ u. chain list f) (λ u. chain list g)
      (λ u. chain-same list f g h)

chain-bind :
    {A B : Type 0} (list : List (M (Unit {0}))) (rest : M A) (f : A → M B) (io : Io)
    → (chain list rest >>= f) io ≡ chain list (rest >>= f) io
chain-bind [] rest f io = refl
chain-bind (statement ∷ list) rest f io =
    answered-answered (statement io) (λ u. chain list rest) f
    ∙ answered-same (statement io) (λ u. chain list rest >>= f) (λ u. chain list (rest >>= f))
        (λ u. chain-bind list rest f)

statements-chain :
    {B : Type 0} (i : ℕ) (list : List (M (Unit {0}))) (kb : Keyboard) (f : Keyboard → M B) (io : Io)
    → (statements (λ i. 0) i list kb >>= f) io ≡ chain list (f kb) io
unfolding statements serve
statements-chain i [] kb f io = refl
statements-chain i (statement ∷ list) kb f io =
    answered-answered (statement io) (λ u. statements (λ i. 0) (i + 1) list kb) f
    ∙ answered-same (statement io) (λ u. statements (λ i. 0) (i + 1) list kb >>= f)
        (λ u. chain list (f kb)) (λ u. statements-chain (i + 1) list kb f)

abbrev reset : Keyboard → Keyboard
reset kb = record kb { buffer = keyboard_clear_buffer kb.buffer; key_state = no_keys }

answered-pure : {A : Type 0} (o : Option (A × Io)) → answered o pure ≡ o
answered-pure none = refl
answered-pure (some (a, now)) = refl

-- What is left of both behind the request for the configuration.
abbrev from_config : Keyboard → M Keyboard
from_config kb = inb keyboard_data_port >>= (λ c. chain (configure c) (pure kb))

configure-chain :
    (c : ℕ) (kb : Keyboard) (now : Io)
    → statements (λ i. 0) 6 (configure c) kb now ≡ chain (configure c) (pure kb) now
configure-chain c kb now =
    sym (answered-pure (statements (λ i. 0) 6 (configure c) kb now))
    ∙ statements-chain 6 (configure c) kb pure now

with-chain :
    (kb : Keyboard) (io : Io)
    → keyboard_init_with (λ i. 0) kb io ≡ chain ask (from_config (reset kb)) io
unfolding keyboard_init_with serve
with-chain kb io =
    let rest : Keyboard → M Keyboard =
      λ asked. inb keyboard_data_port >>= (λ c. statements (λ i. 0) 6 (configure c) asked) in
    statements-chain 0 ask (reset kb) rest io
    ∙ chain-same ask (rest (reset kb)) (from_config (reset kb))
        (λ now.
          answered-same (inb keyboard_data_port now)
            (λ c. statements (λ i. 0) 6 (configure c) (reset kb))
            (λ c. chain (configure c) (pure (reset kb))) (λ c. configure-chain c (reset kb)))
        io

alone-chain :
    (kb : Keyboard) (io : Io) → keyboard_init kb io ≡ chain ask (from_config (reset kb)) io
unfolding keyboard_init init_controller
alone-chain kb io =
    let ends : M Keyboard = pure (reset kb) in
    let rest : M (Unit {0}) = inb keyboard_data_port >>= (λ c. chain (configure c) (pure tt)) in
    chain-bind ask rest (λ u. ends) io
    ∙ chain-same ask (rest >>= (λ u. ends)) (from_config (reset kb))
        (λ now.
          answered-answered (inb keyboard_data_port now) (λ c. chain (configure c) (pure tt))
            (λ u. ends)
          ∙ answered-same (inb keyboard_data_port now)
              (λ c. chain (configure c) (pure tt) >>= (λ u. ends)) (λ c. chain (configure c) ends)
              (λ c. chain-bind (configure c) (pure tt) (λ u. ends)))
        io

-- Without interrupts it is the uninterrupted one, whatever the ports answer.
keyboard_init_with-alone :
    (kb : Keyboard) (io : Io) → keyboard_init_with (λ i. 0) kb io ≡ keyboard_init kb io
keyboard_init_with-alone kb io = with-chain kb io ∙ sym (alone-chain kb io)
