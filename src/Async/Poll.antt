-- ===== src/Async/Poll.antt =====
-- `poll`: every function that was posted runs once, in order, and what they post waits for the next
-- round in the other buffer.
use mos_core.Prelude.{
  ◌+◌, ◌<◌, ◌≤◌, ◌≡◌, refl, true, not, List, [], ◌∷◌, ◌++◌, Option, none, some, arith, ltb, length,
  length-append, ap, ◌∙◌, sym, subst, append-nil, append_assoc,
}
use mos_core.Async.{
  SleeperQueue, Executor, async_task_max, set_buffer, post, run_tasks, switch_and_run,
}
use mos_core.Async.Sleepers.{set_buffer_self, set_buffer_other}

module _ {A Q : Type 0} where
  -- The functions have come to the end of the buffer that is written; nothing else has changed.
  pub record Grew (e e' : Executor A Q) (fns : List A) : Type 0 where
    pub same_index : e'.write_idx ≡ e.write_idx
    pub written : e'.buffers e.write_idx ≡ e.buffers e.write_idx ++ fns
    pub other : e'.buffers (not e.write_idx) ≡ e.buffers (not e.write_idx)
    pub asleep : e'.sleepers ≡ e.sleepers

  Grew-nil : (e : Executor A Q) → Grew e e []
  Grew-nil e = record {
    same_index = refl;
    written = sym (append-nil (e.buffers e.write_idx));
    other = refl;
    asleep = refl;
  }

  Grew-append :
      {a b c : Executor A Q} (xs ys : List A) → Grew a b xs → Grew b c ys → Grew a c (xs ++ ys)
  Grew-append {a = a} {b = b} {c = c} xs ys p q = record {
    same_index = q.same_index ∙ p.same_index;
    written =
        subst (λ i. c.buffers i ≡ b.buffers i ++ ys) p.same_index q.written
        ∙ ap (λ zs. zs ++ ys) p.written
        ∙ append_assoc (a.buffers a.write_idx) xs ys;
    other = subst (λ i. c.buffers (not i) ≡ b.buffers (not i)) p.same_index q.other ∙ p.other;
    asleep = q.asleep ∙ p.asleep;
  }

  length-written :
      (e e1 : Executor A Q) (xs : List A)
      → Grew e e1 xs
      → length (e1.buffers e1.write_idx) ≡ length (e.buffers e.write_idx) + length xs
  length-written e e1 xs g =
      ap (λ i. length (e1.buffers i)) g.same_index
      ∙ ap length g.written
      ∙ length-append (e.buffers e.write_idx) xs

  post-Grew :
      (e : Executor A Q) (fn : A)
      → length (e.buffers e.write_idx) < async_task_max
      → (e' : Executor A Q) × (post e fn ≡ some e') × Grew e e' (fn ∷ [])
  unfolding post
  post-Grew e fn room =
      let test : ltb (length (e.buffers e.write_idx)) async_task_max ≡ true = ground arith in
      (
        set_buffer e e.write_idx (e.buffers e.write_idx ++ fn ∷ []),
        rw test refl,
        record {
          same_index = refl;
          written = set_buffer_self e e.write_idx (e.buffers e.write_idx ++ fn ∷ []);
          other = set_buffer_other e e.write_idx (e.buffers e.write_idx ++ fn ∷ []);
          asleep = refl;
        },
      )

  abbrev pub post_all : List A → Executor A Q → Option (Executor A Q)
  post_all [] e = some e
  post_all (fn ∷ fns) e = elim (post e fn) [ none ↦ none | some e' ↦ post_all fns e' ]

  post_all-cons :
      (fn : A) (fns : List A) (e e1 e2 : Executor A Q)
      → post e fn ≡ some e1
      → post_all fns e1 ≡ some e2
      → post_all (fn ∷ fns) e ≡ some e2
  post_all-cons fn fns e e1 e2 run rest = rw (run, post_all) rest

  post_all-Grew :
      (fns : List A) (e : Executor A Q)
      → length (e.buffers e.write_idx) + length fns ≤ async_task_max
      → (e' : Executor A Q) × (post_all fns e ≡ some e') × Grew e e' fns
  post_all-Grew [] e room = (e, refl, Grew-nil e)
  post_all-Grew (fn ∷ fns) e room =
      let (e1, run, g) = post-Grew e fn (omega arith) in
      let longer = length-written e e1 (fn ∷ []) g in
      let (e2, rest, h) = post_all-Grew fns e1 (omega (arith, longer)) in
      (e2, post_all-cons fn fns e e1 e2 run rest, Grew-append (fn ∷ []) fns g h)

-- What the functions post, one after the other.
abbrev pub all_posts : {A : Type 0} → (A → List A) → List A → List A
all_posts spawn [] = []
all_posts spawn (fn ∷ fns) = spawn fn ++ all_posts spawn fns

module _ {A : Type 0} (queue : SleeperQueue A)
    (call : A → Executor A queue.Q → Option (Executor A queue.Q)) (spawn : A → List A) where
  run_tasks-cons :
      (fn : A) (fns : List A) (e e1 e2 : Executor A queue.Q)
      → call fn e ≡ some e1
      → run_tasks queue call fns e1 ≡ some e2
      → run_tasks queue call (fn ∷ fns) e ≡ some e2
  unfolding run_tasks
  run_tasks-cons fn fns e e1 e2 run rest = rw (run, run_tasks) rest

  run_tasks-Grew :
      (fns : List A) (e : Executor A queue.Q)
      → ((fn : A) (e : Executor A queue.Q) → call fn e ≡ post_all (spawn fn) e)
      → length (e.buffers e.write_idx) + length (all_posts spawn fns) ≤ async_task_max
      → (e' : Executor A queue.Q) × (run_tasks queue call fns e ≡ some e')
        × Grew e e' (all_posts spawn fns)
  unfolding run_tasks
  run_tasks-Grew [] e posts room = (e, refl, Grew-nil e)
  run_tasks-Grew (fn ∷ fns) e posts room =
      let count = length-append (spawn fn) (all_posts spawn fns) in
      let (e1, run, g) = post_all-Grew (spawn fn) e (omega (arith, count)) in
      let longer = length-written e e1 (spawn fn) g in
      let (e2, rest, h) = run_tasks-Grew fns e1 posts (omega (arith, longer, count)) in
      (
        e2,
        run_tasks-cons fn fns e e1 e2 (posts fn e ∙ run) rest,
        Grew-append (spawn fn) (all_posts spawn fns) g h,
      )

  switch_and_run-filled :
      (fn : A) (fns : List A) (e e1 : Executor A queue.Q)
      → e.buffers e.write_idx ≡ fn ∷ fns
      → run_tasks queue call (fn ∷ fns) (record e { write_idx = not e.write_idx }) ≡ some e1
      → switch_and_run queue call e ≡ some (true, set_buffer e1 e.write_idx [])
  unfolding switch_and_run
  switch_and_run-filled fn fns e e1 filled run = rw (filled, switch_and_run) (rw run refl)

  -- The round of `poll` when something was posted, each function that runs does nothing but post, and
  -- the other buffer has room for all they post: it succeeds and reports work; the index has
  -- switched; the buffer that was run is empty; the other one has everything that the functions have
  -- posted at its end, in the order of the functions; the sleepers are as they were.
  pub switch_and_run-Round :
      (fn : A) (fns : List A) (e : Executor A queue.Q)
      → ((fn : A) (e : Executor A queue.Q) → call fn e ≡ post_all (spawn fn) e)
      → e.buffers e.write_idx ≡ fn ∷ fns
      → length (e.buffers (not e.write_idx)) + length (all_posts spawn (fn ∷ fns)) ≤ async_task_max
      → (e' : Executor A queue.Q) × (switch_and_run queue call e ≡ some (true, e'))
        × (e'.write_idx ≡ not e.write_idx)
        × (e'.buffers e.write_idx ≡ [])
        × (e'.buffers (not e.write_idx) ≡ e.buffers (not e.write_idx) ++ all_posts spawn (fn ∷ fns))
        × (e'.sleepers ≡ e.sleepers)
  switch_and_run-Round fn fns e posts filled room =
      let switched = record e { write_idx = not e.write_idx } in
      let (e1, run, g) = run_tasks-Grew (fn ∷ fns) switched posts room in
      (
        set_buffer e1 e.write_idx [],
        switch_and_run-filled fn fns e e1 filled run,
        g.same_index,
        set_buffer_self e1 e.write_idx [],
        set_buffer_other e1 e.write_idx [] ∙ g.written,
        g.asleep,
      )
