-- ===== src/Transfer/Connection/Listen.antt =====
-- src/transfer.rs: `listen_and_serve`, whose connections run in threads of their own. A thread that ends
-- lowers the count of active connections before it is finished, and the loop reaps finished threads.
pub mod Bounds
use girth.Prelude.{
  ℕ, zero, suc, ◌+◌, ◌-◌, ◌<◌, ◌≡◌, Bool, true, false, List, [], ◌∷◌, ◌++◌, leb, if◌then◌else◌,
  length, get_or, set, take,
}

-- What a worker's thread does: it serves, has lowered the count, or is finished.
pub data Worker : Type 0 where
  serving released finished : Worker

pub record Listener : Type 0 where
  pub active : ℕ
  pub workers : List Worker

abbrev pub is_finished : Worker → Bool
is_finished finished = true
is_finished _ = false

-- `swap_remove`: the last worker takes the place of the one that is removed.
abbrev pub swap_remove : ℕ → List Worker → List Worker
swap_remove i ws =
    let last = get_or ws (length ws - 1) finished in take (length ws - 1) (set ws i last)

-- The loop that joins the finished workers, from `i` on: each round removes one or moves on.
abbrev pub reap : ℕ → ℕ → List Worker → List Worker
reap zero i ws = ws
reap (suc fuel) i ws =
    let removed = reap fuel i (swap_remove i ws) in
    let kept = reap fuel (suc i) ws in
    if leb (length ws) i then ws else (if is_finished (get_or ws i finished) then removed else kept)

-- A connection that is accepted: above the limit it is dropped.
unfoldable pub accept : ℕ → Listener → Listener
accept limit l =
    if leb limit l.active
    then l
    else record { active = l.active + 1; workers = l.workers ++ (serving ∷ []) }

-- The workers in their states.
abbrev pub is_serving : Worker → Bool
is_serving serving = true
is_serving _ = false

abbrev pub count : (Worker → Bool) → List Worker → ℕ
count p [] = 0
count p (w ∷ ws) = (if p w then 1 else 0) + count p ws

-- The steps of the server: the loop reaps and accepts, and the thread at `i` lowers the count and ends.
pub data Step (limit : ℕ) : Listener → Listener → Type 0 where
  reaps : (l : Listener) → Step limit l (record l { workers = reap (length l.workers) 0 l.workers })
  accepts : (l : Listener) → Step limit l (accept limit l)
  releases :
      (l : Listener) (i : ℕ)
      → i < length l.workers
      → get_or l.workers i finished ≡ serving
      → Step limit l (record { active = l.active - 1; workers = set l.workers i released })
  ends :
      (l : Listener) (i : ℕ)
      → i < length l.workers
      → get_or l.workers i finished ≡ released
      → Step limit l (record l { workers = set l.workers i finished })

pub data Reach (limit : ℕ) : Listener → Type 0 where
  start : Reach limit (record { active = 0; workers = [] })
  after : {l l' : Listener} → Reach limit l → Step limit l l' → Reach limit l'
