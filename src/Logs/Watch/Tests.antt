-- ===== src/Logs/Watch/Tests.antt =====
-- A log that is written while the page sleeps. Senders and receivers count what was sent.
use proxybear.Base.{ℕ, suc, ◌≡◌, ◌≤◌, true, ltb, List, [], ◌∷◌, arith}
use proxybear.Logs.Watch.{Watch, Event, writes, tells, advances, opens}

has_changed-send : (s r : ℕ) → r ≤ s → ltb r (suc s) ≡ true
has_changed-send s r h = ground arith

Knows-send : (s r : ℕ) → r ≤ s → r ≤ suc s
Knows-send s r h = omega arith

Knows-refl : (s : ℕ) → s ≤ s
Knows-refl s = omega arith

abbrev counted : Watch
counted = record {
  Sender = ℕ;
  Receiver = ℕ;
  send = suc;
  subscribe = λ s. s;
  has_changed = λ s r. ltb r s;
  mark_seen = λ s r. s;
  Knows = λ s r. r ≤ s;
  Knows-subscribe = Knows-refl;
  Knows-mark_seen = λ s r h. Knows-refl s;
  Knows-send = Knows-send;
  has_changed-send = has_changed-send;
}

-- The second message is written while the task sleeps, and the third one after it has marked.
abbrev some_events : List (Event counted)
some_events =
    opens
    ∷ advances
    ∷ writes true
    ∷ tells
    ∷ advances
    ∷ writes true
    ∷ tells
    ∷ advances
    ∷ writes true
    ∷ advances
    ∷ tells
    ∷ []
