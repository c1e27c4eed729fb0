-- ===== src/Tests/Posts.antt =====
-- kernel/async.hpp: a round of the executor, and sleepers in a list.
use mos_core.Prelude.{
  ℕ, zero, suc, ◌≡◌, refl, true, false, List, [], ◌∷◌, Option, none, some, arith, length, ltb, ◌≢◌,
  if◌then◌else◌,
}
use mos_core.Async.{Sleeper, SleeperQueue, Executor, clean_sleepers, switch_and_run}
use mos_core.Async.Sleepers.{QueueOk, Cleaned, clean_sleepers-Cleaned}
use mos_core.Async.Poll.{post_all, switch_and_run-Round}

abbrev drop_first : List (Sleeper ℕ) → List (Sleeper ℕ)
drop_first [] = []
drop_first (s ∷ q) = q

abbrev first : List (Sleeper ℕ) → Option (Sleeper ℕ)
first [] = none
first (s ∷ q) = some s

abbrev insert : Sleeper ℕ → List (Sleeper ℕ) → List (Sleeper ℕ)
insert s [] = s ∷ []
insert s (t ∷ q) =
    let rest = insert s q in
    elim (ltb t.wake_tick s.wake_tick) [ true ↦ t ∷ rest | false ↦ s ∷ t ∷ q ]

abbrev sleepers : SleeperQueue ℕ
sleepers = record {
  Q = List (Sleeper ℕ);
  size = length;
  top = first;
  push = insert;
  pop = drop_first;
}

sleepers-QueueOk : QueueOk sleepers
sleepers-QueueOk = record { size-pop = sizes }
  where
    sizes :
        (q : List (Sleeper ℕ)) (s : Sleeper ℕ)
        → first q ≡ some s
        → suc (length (drop_first q)) ≡ length q
    sizes [] s e = absurd (no e)
      where
        no : none ≢ some s
        no e = cc
    sizes (t ∷ q) s e = refl

-- A function posts the one before it.
abbrev before : ℕ → List ℕ
before zero = []
before (suc n) = n ∷ []

abbrev call : ℕ → Executor ℕ (List (Sleeper ℕ)) → Option (Executor ℕ (List (Sleeper ℕ)))
call n e = post_all (before n) e

abbrev loaded : Executor ℕ (List (Sleeper ℕ))
loaded = record {
  buffers = λ i. if i then 9 ∷ [] else 0 ∷ 5 ∷ 2 ∷ [];
  write_idx = false;
  sleepers = record { wake_tick = 7; task = 4 } ∷ record { wake_tick = 30; task = 8 } ∷ [];
}

switch_and_run-Round_example :
    (e' : Executor ℕ (List (Sleeper ℕ))) × (switch_and_run sleepers call loaded ≡ some (true, e'))
    × (e'.write_idx ≡ true)
    × (e'.buffers false ≡ [])
    × (e'.buffers true ≡ 9 ∷ 4 ∷ 1 ∷ [])
    × (e'.sleepers ≡ loaded.sleepers)
switch_and_run-Round_example =
    switch_and_run-Round sleepers call before 0 (5 ∷ 2 ∷ []) loaded (λ fn e. refl) refl
      (omega arith)

clean_sleepers-Cleaned_example :
    (e' : Executor ℕ (List (Sleeper ℕ))) × (clean_sleepers sleepers 3 12 loaded ≡ some e')
    × Cleaned sleepers 12 loaded e'
clean_sleepers-Cleaned_example =
    clean_sleepers-Cleaned sleepers 3 12 loaded sleepers-QueueOk (omega arith)
