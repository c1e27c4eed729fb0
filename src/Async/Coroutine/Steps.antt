-- ===== src/Async/Coroutine/Steps.antt =====
-- The steps of a coroutine that make another one or come to the end, and the machine after them.
use mos_core.Prelude.{
  ℕ, ◌+◌, ◌≤◌, ◌<◌, ◌≡◌, refl, ◌≢◌, inl, inr, true, false, List, ◌∷◌, Option, none, some, arith,
  ◌==◌, if◌then◌else◌, ap, ◌∙◌, ==_ne, ==_self, Bool-cases,
}
use mos_core.Kernel.State.{update}
use mos_core.Async.Coroutine.{
  Body, co_return, co_await, drop_future, Point, before, in_await, final, Frame, Machine, caller,
  other_callers, done, leave, create, await_suspend, final_suspend, drop, go, step,
}

-- The current coroutine is in front of `body`, with the promise's members given, and the handles
-- from `fresh` on have no frame.
pub record Ready (m : Machine) (body : Body) (next value : ℕ) : Type 0 where
  pub frame : m.frames m.cur ≡ some (record { point = before body; next = next; value = value })
  pub exists : m.cur ≢ 0
  pub known : m.cur < m.fresh
  pub unused : (x : ℕ) → m.fresh ≤ x → m.frames x ≡ none

-- The coroutine with the handle `h` has come to its end with the value `v`. Without a next one its
-- frame is freed and its caller goes on; otherwise the next one is resumed. Every other frame is as
-- it was, and no frame is left that was made meanwhile.
pub record Returned (m m' : Machine) (h next v : ℕ) : Type 0 where
  pub frame :
      m'.frames h
      ≡ (if next == 0 then none else some (record { point = final; next = next; value = v }))
  pub cur : m'.cur ≡ (if next == 0 then caller m.callers else next)
  pub callers : m'.callers ≡ (if next == 0 then other_callers m.callers else m.callers)
  pub pending : m'.pending ≡ m.pending
  pub others : (x : ℕ) → x < m.fresh → x ≢ h → m'.frames x ≡ m.frames x
  pub left : (x : ℕ) → m.fresh ≤ x → m'.frames x ≡ none
  pub grown : m.fresh ≤ m'.fresh

pub step-go : (m : Machine) (f : Frame) → m.frames m.cur ≡ some f → step m ≡ go m f f.point
unfolding step
step-go m f e = rw (e, step) refl

module _ {m : Machine} {next value : ℕ} where
  pub return-Returned :
      (v : ℕ)
      → Ready m (co_return v) next value
      → (m' : Machine) × (step m ≡ some m') × Returned m m' m.cur next v
  unfolding go final_suspend
  return-Returned v r = elim (Bool-cases (next == 0)) [
    | inl e ↦ (
      leave (record m { frames = update m.frames m.cur none }),
      step-go m _ r.frame ∙ rw (e, go) refl,
      record {
        frame = rw (e, ==_self m.cur) refl;
        cur = rw e refl;
        callers = rw e refl;
        pending = refl;
        others = λ x lt ne. rw (==_ne x m.cur ne) refl;
        left = λ x le.
            let ne : x ≢ m.cur = λ y. absurd (omega (arith, r.known)) in
            rw (==_ne x m.cur ne) (r.unused x le);
        grown = omega arith;
      },
    )
    | inr e ↦ (
      record m {
        frames = update m.frames m.cur (some (record { point = final; next = next; value = v }));
        cur = next;
      },
      step-go m _ r.frame ∙ rw (e, go) refl,
      record {
        frame = rw (e, ==_self m.cur) refl;
        cur = rw e refl;
        callers = rw e refl;
        pending = refl;
        others = λ x lt ne. rw (==_ne x m.cur ne) refl;
        left = λ x le.
            let ne : x ≢ m.cur = λ y. absurd (omega (arith, r.known)) in
            rw (==_ne x m.cur ne) (r.unused x le);
        grown = omega arith;
      },
    )
  ]

-- The current coroutine is suspended at a point, and one that it has made is resumed.
pub record Parked (m m1 : Machine) (point : Point) (next value : ℕ) (callers' : List ℕ)
    : Type 0 where
  pub frame : m1.frames m.cur ≡ some (record { point = point; next = next; value = value })
  pub cur : m1.cur ≡ m.fresh
  pub callers : m1.callers ≡ callers'
  pub pending : m1.pending ≡ m.pending
  pub fresh : m1.fresh ≡ m.fresh + 1
  pub others : (x : ℕ) → x < m.fresh → x ≢ m.cur → m1.frames x ≡ m.frames x

module _ {m : Machine} {next value : ℕ} {body : Body} (r : Ready m body next value) where
  -- The frames with the current one at a point, and a new one.
  abbrev parked : Point → (new : Frame) → ℕ → Option Frame
  parked point new =
      update (update m.frames m.cur (some (record { point = point; next = next; value = value })))
        m.fresh (some new)

  cur_ne : m.cur ≢ m.fresh
  cur_ne e = absurd (omega (arith, r.known))

  park :
      (m1 : Machine) (point : Point) (child : Body) (awaiting : ℕ)
      → ((x : ℕ)
          → m1.frames x
            ≡ parked point (record { point = before child; next = awaiting; value = 0 }) x)
      → m1.cur ≡ m.fresh
      → m1.fresh ≡ m.fresh + 1
      → m1.pending ≡ m.pending
      → Ready m1 child awaiting 0 × Parked m m1 point next value m1.callers
  park m1 point child awaiting at cur fresh pending = (
    record {
      frame = ap m1.frames cur ∙ at m.fresh ∙ rw (==_self m.fresh) refl;
      exists = λ e. absurd (omega (arith, r.known));
      known = omega (arith, cur, fresh);
      unused = λ x le.
          let a : x ≢ m.fresh = λ y. absurd (omega (arith, fresh)) in
          let b : x ≢ m.cur = λ y. absurd (omega (arith, fresh, r.known)) in
          at x ∙ rw (==_ne x m.fresh a, ==_ne x m.cur b) (r.unused x (omega (arith, fresh)));
    },
    record {
      frame = at m.cur ∙ rw (==_ne m.cur m.fresh cur_ne, ==_self m.cur) refl;
      cur = cur;
      callers = refl;
      pending = pending;
      fresh = fresh;
      others = λ x lt ne.
          let a : x ≢ m.fresh = λ y. absurd (omega arith) in
          at x ∙ rw (==_ne x m.fresh a, ==_ne x m.cur ne) refl;
    },
  )

-- The frames after `create`, and after the current frame has been written.
made : (m : Machine) (child : Body) → Frame → ℕ → Option Frame
made m child f = update (create m child).frames m.cur (some f)

made-fresh :
    (m : Machine) (child : Body) (f : Frame)
    → m.cur ≢ m.fresh
    → made m child f m.fresh ≡ some (record { point = before child; next = 0; value = 0 })
unfolding made create
made-fresh m child f ne =
    let other : (m.fresh == m.cur) ≡ false = ground arith in rw (other, ==_self m.fresh) refl

await_suspend-found :
    (m : Machine) (handle next : ℕ) (f : Frame)
    → m.frames handle ≡ some f
    → await_suspend m handle next
      ≡ some (record m {
        frames = update m.frames handle (some (record f { next = next }));
        cur = handle;
      })
unfolding await_suspend
await_suspend-found m handle next f e = rw (e, await_suspend) refl

drop-suspended :
    (m : Machine) (handle : ℕ) (f : Frame)
    → m.frames handle ≡ some f
    → done f.point ≡ false
    → drop m handle ≡ some (record m { cur = handle; callers = m.cur ∷ m.callers })
unfolding drop
drop-suspended m handle f e open_ = rw (e, drop) (rw open_ refl)

pub drop-done :
    (m : Machine) (handle : ℕ) (f : Frame)
    → m.frames handle ≡ some f
    → done f.point ≡ true
    → drop m handle ≡ some (record m { frames = update m.frames handle none })
unfolding drop
drop-done m handle f e over = rw (e, drop) (rw over refl)

module _ {m : Machine} {next value : ℕ} where
  pub await-Parked :
      {child : Body} {k : ℕ → Body}
      → Ready m (co_await child k) next value
      → (m1 : Machine) × (step m ≡ some m1)
        × Ready m1 child m.cur 0
        × Parked m m1 (in_await m.fresh k) next value m.callers
  unfolding go create made
  await-Parked {child} {k} r =
      let f : Frame = record { point = in_await m.fresh k; next = next; value = value } in
      let m1 = record m {
        frames =
            update (made m child f) m.fresh
              (some (record { point = before child; next = m.cur; value = 0 }));
        fresh = m.fresh + 1;
        cur = m.fresh;
      } in
      let (ready, parked_) =
        park r m1 (in_await m.fresh k) child m.cur
          (λ x. elim (Bool-cases (x == m.fresh)) [ inl e ↦ rw e refl | inr e ↦ rw e refl ]) refl
          refl refl in
      (
        m1,
        step-go m _ r.frame
            ∙ await_suspend-found (record m { frames = made m child f; fresh = m.fresh + 1 })
                m.fresh m.cur _ (made-fresh m child f (cur_ne r)),
        ready,
        parked_,
      )

  pub drop-Parked :
      {child rest : Body}
      → Ready m (drop_future child rest) next value
      → (m1 : Machine) × (step m ≡ some m1)
        × Ready m1 child 0 0
        × Parked m m1 (before rest) next value (m.cur ∷ m.callers)
  unfolding go create made
  drop-Parked {child} {rest} r =
      let f : Frame = record { point = before rest; next = next; value = value } in
      let m1 = record m {
        frames = made m child f;
        fresh = m.fresh + 1;
        cur = m.fresh;
        callers = m.cur ∷ m.callers;
      } in
      let (ready, parked_) =
        park r m1 (before rest) child 0
          (λ x. elim (Bool-cases (x == m.fresh)) [
            | inl e ↦ let o : (x == m.cur) ≡ false = ground (arith, cur_ne r) in rw (e, o) refl
            | inr e ↦ rw e refl
          ])
          refl refl refl in
      (
        m1,
        step-go m _ r.frame
            ∙ drop-suspended (record m { frames = made m child f; fresh = m.fresh + 1 }) m.fresh _
                (made-fresh m child f (cur_ne r)) refl,
        ready,
        parked_,
      )
