-- ===== src/Keyboard/Driver/Early.antt =====
-- `keyboard_getchar` of src/keyboard.c with interrupts also between its test and its `hlt`. One statement
-- is taken to be atomic, and the handler runs to its end.
use valern.Prelude.{
  ℕ, List, [], ◌∷◌, ◌++◌, ◌≡◌, refl, sym, ap, ◌∙◌, Bool-cases, inl, inr, true, if◌then◌else◌,
}
use valern.Keyboard.Buffer.{keyboard_has_key}
use valern.Keyboard.Buffer.Queue.{contents, Queue}
use valern.Keyboard.Driver.{Keyboard, Irq, deliver, deliver_all, keyboard_getchar_nonblock}
use valern.Keyboard.Driver.Characters.{IsReady}
use valern.Keyboard.Driver.Reach.{deliver-IsReady}
use valern.Keyboard.Driver.Blocking.{Grows-deliver_all, first-waiting, none-waiting}

-- The interrupts of one round of the loop: those behind the test, and the one that ends the `hlt`.
pub record Round : Type 0 where
  pub before_hlt : List Irq
  pub at_hlt : Irq

-- A character and the driver that is left, or a `hlt` that nothing ends.
pub data Wait : Type 0 where
  returns : ℕ → Keyboard → Wait
  halts : Keyboard → Wait

-- In the last round the interrupts behind the test are `early`, and no other comes.
unfoldable pub getchar_with : List Round → List Irq → Keyboard → Wait
getchar_with [] early kb =
    let (c, kb') = keyboard_getchar_nonblock kb in
    if keyboard_has_key kb.buffer then returns c kb' else halts (deliver_all early kb)
getchar_with (round ∷ rounds) early kb =
    let (c, kb') = keyboard_getchar_nonblock kb in
    let rest = getchar_with rounds early (deliver round.at_hlt (deliver_all round.before_hlt kb)) in
    if keyboard_has_key kb.buffer then returns c kb' else rest

-- The interrupts of the rounds, in their order.
abbrev pub interrupts : List Round → List Irq
interrupts [] = []
interrupts (round ∷ rounds) = round.before_hlt ++ round.at_hlt ∷ interrupts rounds

-- A call as its caller sees it.
pub data Seen : Type 0 where
  character : ℕ → Seen
  stuck : Keyboard → Seen

abbrev pub seen : Wait → Seen
seen (returns c kb) = character c
seen (halts kb) = stuck kb

-- What is to be seen if these characters wait.
abbrev pub expected : Queue → Keyboard → Seen
expected [] kb = stuck kb
expected (c ∷ q) kb = character c

pub deliver_all-append :
    (xs ys : List Irq) (kb : Keyboard)
    → deliver_all (xs ++ ys) kb ≡ deliver_all ys (deliver_all xs kb)
deliver_all-append [] ys kb = refl
deliver_all-append (x ∷ xs) ys kb = deliver_all-append xs ys (deliver x kb)

pub deliver_all-IsReady :
    (irqs : List Irq) (kb : Keyboard) → IsReady kb → IsReady (deliver_all irqs kb)
deliver_all-IsReady [] kb r = r
deliver_all-IsReady (irq ∷ irqs) kb r =
    deliver_all-IsReady irqs (deliver irq kb) (deliver-IsReady irq kb r)

-- A character that waits stays the first one.
first_stays :
    (irqs : List Irq) (kb late : Keyboard)
    → IsReady kb
    → keyboard_has_key kb.buffer ≡ true
    → character (keyboard_getchar_nonblock kb).0
      ≡ expected (contents (deliver_all irqs kb).buffer) late
first_stays irqs kb late r waiting =
    let (more, g) = Grows-deliver_all irqs kb r in
    let (q, e) = first-waiting kb r waiting in
    sym (ap (λ l. expected l late) (g ∙ ap (λ l. l ++ more) e))

-- From a state that the driver can be in, whatever interrupts come behind the tests and at the halts,
-- `keyboard_getchar` returns the first of the characters that wait after the last interrupt that ends a
-- `hlt`. If there is none it halts for ever, also with characters in the buffer: those that come between
-- the last test and the `hlt` stay there unread.
pub getchar_with_lem :
    (rounds : List Round) (early : List Irq) (kb : Keyboard)
    → IsReady kb
    → let arrived = deliver_all (interrupts rounds) kb in
      seen (getchar_with rounds early kb)
      ≡ expected (contents arrived.buffer) (deliver_all early arrived)
unfolding getchar_with
getchar_with_lem [] early kb r = elim (Bool-cases (keyboard_has_key kb.buffer)) [
  | inl waiting ↦ rw waiting (first_stays [] kb (deliver_all early kb) r waiting)
  | inr empty ↦ rw (empty, none-waiting kb empty) refl
]
getchar_with_lem (round ∷ rounds) early kb r =
    let next = deliver round.at_hlt (deliver_all round.before_hlt kb) in
    let all = interrupts (round ∷ rounds) in
    let last = deliver_all early (deliver_all all kb) in
    let same : deliver_all all kb ≡ deliver_all (interrupts rounds) next =
      deliver_all-append round.before_hlt (round.at_hlt ∷ interrupts rounds) kb in
    elim (Bool-cases (keyboard_has_key kb.buffer)) [
      | inl waiting ↦ rw waiting (first_stays all kb last r waiting)
      | inr empty ↦
          let ready =
            deliver-IsReady round.at_hlt (deliver_all round.before_hlt kb)
              (deliver_all-IsReady round.before_hlt kb r) in
          rw (empty, same) (getchar_with_lem rounds early next ready)
    ]
