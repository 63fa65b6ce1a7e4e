-- ===== src/SocketCan/Threads/Entries.antt =====
-- The log of the threads in `SocketCAN::send`, and what it has of each of them at every stage of its call.
use mathlib.Core.List.{append-nil}
use com_lib.Transport.Link.{error_result}
use com_lib.SocketCan.Threads.{
  Stage, ready, refused, writing, written, returned, Log, outcome, note,
}
use com_lib.Prelude.Int.{ℤ}
use com_lib.Prelude.{ℕ, ◌+◌, List, [], ◌∷◌, ◌++◌, ◌==◌, if◌then◌else◌, ◌≡◌, ◌≢◌, refl, arith}

-- How often thread `i` has a turn.
unfoldable pub turns : ℕ → List ℕ → ℕ
turns i [] = 0
turns i (j ∷ schedule) = if i == j then turns i schedule + 1 else turns i schedule

-- The calls of thread `i` in the log.
unfoldable pub entries : ℕ → Log → List (List ℕ × ℤ)
entries i [] = []
entries i ((j, bytes, r) ∷ log) = if i == j then (bytes, r) ∷ entries i log else entries i log

-- The turns that a call still needs.
unfoldable pub rank : Stage → ℕ
rank (ready _) = 3
rank (writing _ _ _) = 2
rank (refused _) = 1
rank (written _ _) = 1
rank (returned _) = 0

-- What the log holds of a thread with the payload `b` at a stage.
abbrev pub Tracked : ℕ → List ℕ → Stage → Log → Type 0
Tracked i b (ready bytes) log = (bytes ≡ b) × (entries i log ≡ [])
Tracked i b (refused code) log = entries i log ≡ (b, error_result) ∷ []
Tracked i b (writing fd is_fd bytes) log = (bytes ≡ b) × (entries i log ≡ [])
Tracked i b (written n answer) log = entries i log ≡ (b, outcome n answer) ∷ []
Tracked i b (returned r) log = entries i log ≡ (b, r) ∷ []

pub entries-append :
    (i : ℕ) (log log' : Log) → entries i (log ++ log') ≡ entries i log ++ entries i log'
unfolding entries
entries-append i [] log' = refl
entries-append i ((j, b, r) ∷ log) log' = ground (arith, entries-append i log log')

pub entries_one :
    (i : ℕ) (log : Log) (b : List ℕ) (r : ℤ)
    → entries i log ≡ []
    → entries i (log ++ (i, b, r) ∷ []) ≡ (b, r) ∷ []
unfolding entries
entries_one i log b r e = ground (arith, entries-append i log ((i, b, r) ∷ []))

pub entries-note_other : (i j : ℕ) (s s' : Stage) → i ≢ j → entries i (note j s s') ≡ []
unfolding entries
entries-note_other i j (ready b) (returned r) ne = ground arith
entries-note_other i j (ready b) (refused c) ne = ground arith
entries-note_other i j (writing fd f b) (written n a) ne = ground arith
entries-note_other i j (ready b) (ready b') ne = refl
entries-note_other i j (ready b) (writing fd f b') ne = refl
entries-note_other i j (ready b) (written n a) ne = refl
entries-note_other i j (writing fd f b) (ready b') ne = refl
entries-note_other i j (writing fd f b) (refused c) ne = refl
entries-note_other i j (writing fd f b) (writing _ _ _) ne = refl
entries-note_other i j (writing fd f b) (returned r) ne = refl
entries-note_other i j (refused c) s' ne = refl
entries-note_other i j (written n a) s' ne = refl
entries-note_other i j (returned r) s' ne = refl

pub Tracked-append :
    (i : ℕ) (b : List ℕ) (s : Stage) (log log' : Log)
    → entries i log' ≡ []
    → Tracked i b s log
    → Tracked i b s (log ++ log')
Tracked-append i b (ready bytes) log log' e (same, t) =
    (same, ground (arith, entries-append i log log'))
Tracked-append i b (writing fd is_fd bytes) log log' e (same, t) =
    (same, ground (arith, entries-append i log log'))
Tracked-append i b (refused c) log log' e t = rw (entries-append i log log', e, append-nil) t
Tracked-append i b (written n answer) log log' e t = rw (entries-append i log log', e, append-nil) t
Tracked-append i b (returned r) log log' e t = rw (entries-append i log log', e, append-nil) t
