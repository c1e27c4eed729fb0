-- ===== src/Async/Coroutine/Resumed.antt =====
-- How a coroutine goes on after its callback, after a coroutine that it awaits and after one that it
-- drops.
use mos_core.Prelude.{
  ℕ, ◌≤◌, ◌<◌, ◌≡◌, refl, ◌≢◌, inl, inr, false, [], ◌∷◌, none, some, arith, ◌==◌, if◌then◌else◌,
  sym, ap, ◌∙◌, ==_ne, ==_self, Bool-cases, ltb,
}
use mos_core.DataType.Sequence.{erase}
use mos_core.Kernel.State.{update}
use mos_core.Async.Coroutine.{
  Body, co_callback, before, in_await, in_callback, final, Frame, Machine, caller, other_callers,
  leave, go, step, deliver,
}
use mos_core.Async.Coroutine.Steps.{Ready, Returned, Parked, step-go, drop-done}

-- The same coroutine goes on: the other frames are as they were, and those that were made are gone.
pub record Continues (m m' : Machine) : Type 0 where
  pub cur : m'.cur ≡ m.cur
  pub callers : m'.callers ≡ m.callers
  pub pending : m'.pending ≡ m.pending
  pub others : (x : ℕ) → x < m.fresh → x ≢ m.cur → m'.frames x ≡ m.frames x
  pub left : (x : ℕ) → m.fresh ≤ x → m'.frames x ≡ none
  pub grown : m.fresh ≤ m'.fresh
  pub known : m.cur < m.fresh

pub Continues-Returned :
    {m m' m'' : Machine} {next v : ℕ}
    → Continues m m'
    → Returned m' m'' m'.cur next v
    → Returned m m'' m.cur next v
Continues-Returned {m} {m'} {m''} {next} {v} c r = record {
  frame = ap m''.frames (sym c.cur) ∙ r.frame;
  cur = r.cur ∙ ap (λ hs. if next == 0 then caller hs else next) c.callers;
  callers = r.callers ∙ ap (λ hs. if next == 0 then other_callers hs else hs) c.callers;
  pending = r.pending ∙ c.pending;
  others = λ x lt ne. r.others x (omega (arith, c.grown)) (λ e. ne (e ∙ c.cur)) ∙ c.others x lt ne;
  left = λ x le. elim (Bool-cases (ltb x m'.fresh)) [
    | inl lt ↦
        r.others x (ground arith) (λ e. absurd (omega (arith, e ∙ c.cur, c.known))) ∙ c.left x le
    | inr ge ↦ r.left x (ground arith)
  ];
  grown = omega (arith, c.grown, r.grown);
}

-- `await_resume`: the awaiting coroutine goes on with the value, and the frame of the other is freed.
resumed :
    (m : Machine) (c : ℕ) {k : ℕ → Body} {next value n : ℕ} (u : ℕ)
    → m.frames m.cur ≡ some (record { point = in_await c k; next = next; value = value })
    → m.frames c ≡ some (record { point = final; next = n; value = u })
    → c ≢ m.cur
    → step m
      ≡ some (record m {
        frames =
            update
              (update m.frames m.cur
                (some (record { point = before (k u); next = next; value = value })))
              c
              none;
      })
unfolding go
resumed m c {k} {next} {value} {n} u mine there ne =
    let f : Frame = record { point = before (k u); next = next; value = value } in
    let over : Frame = record { point = final; next = n; value = u } in
    let kept : update m.frames m.cur (some f) c ≡ some over = rw (==_ne c m.cur ne) there in
    step-go m _ mine
    ∙ rw (there, go)
        (drop-done (record m { frames = update m.frames m.cur (some f) }) c over kept refl)

deliver-found :
    (m : Machine) (h u : ℕ) {k : ℕ → Body} {next value : ℕ}
    → m.frames h ≡ some (record { point = in_callback k; next = next; value = value })
    → deliver m h u
      ≡ some (record m {
        frames =
            update m.frames h (some (record { point = before (k u); next = next; value = value }));
        cur = h;
        callers = [];
        pending = erase h m.pending;
      })
unfolding deliver
deliver-found m h u e = rw (e, deliver) refl

-- The coroutine waits for its callback, and goes on with the result.
pub called :
    (m : Machine) {k : ℕ → Body} {next value : ℕ} (u : ℕ)
    → Ready m (co_callback k) next value
    → m.callers ≡ []
    → (m1 : Machine) × (m2 : Machine) × (step m ≡ some m1)
      × (m1.cur ≡ 0)
      × (deliver m1 m.cur u ≡ some m2)
      × Ready m2 (k u) next value
      × Continues m m2
unfolding go erase
called m {k} {next} {value} u r idle =
    let waits : Frame = record { point = in_callback k; next = next; value = value } in
    let ready : Frame = record { point = before (k u); next = next; value = value } in
    let m1 =
      leave
        (record m { frames = update m.frames m.cur (some waits); pending = m.cur ∷ m.pending }) in
    let m2 = record m1 {
      frames = update m1.frames m.cur (some ready);
      cur = m.cur;
      callers = [];
      pending = erase m.cur (m.cur ∷ m.pending);
    } in
    let elsewhere = λ (x : ℕ) (ne : x ≢ m.cur).
      let same : m2.frames x ≡ m.frames x = rw (==_ne x m.cur ne) refl in same in
    let far = λ (x : ℕ) (le : m.fresh ≤ x).
      let ne : x ≢ m.cur = λ e. absurd (omega (arith, r.known)) in ne in
    (
      m1,
      m2,
      step-go m _ r.frame,
      ap caller idle,
      deliver-found m1 m.cur u {k = k} {next = next} {value = value} (rw (==_self m.cur) refl),
      record {
        frame = rw (==_self m.cur) refl;
        exists = r.exists;
        known = r.known;
        unused = λ x le. elsewhere x (far x le) ∙ r.unused x le;
      },
      record {
        cur = refl;
        callers = sym idle;
        pending = rw (==_self m.cur) refl;
        others = λ x lt ne. elsewhere x ne;
        left = λ x le. elsewhere x (far x le) ∙ r.unused x le;
        grown = omega arith;
        known = r.known;
      },
    )

-- After the awaited coroutine has returned its value, the one that awaits it goes on with it.
pub back_from_await :
    {m m1 m2 : Machine} {k : ℕ → Body} {next value : ℕ} (u : ℕ)
    → m.cur ≢ 0
    → m.cur < m.fresh
    → ((x : ℕ) → m.fresh ≤ x → m.frames x ≡ none)
    → Parked m m1 (in_await m.fresh k) next value m.callers
    → Returned m1 m2 m1.cur m.cur u
    → (m3 : Machine) × (step m2 ≡ some m3) × Ready m3 (k u) next value × Continues m m3
back_from_await {m} {m1} {m2} {k} {next} {value} u nz known empty p b =
    let f : Frame = record { point = before (k u); next = next; value = value } in
    let alive : (m.cur == 0) ≡ false = ground arith in
    let cur : m2.cur ≡ m.cur = b.cur ∙ rw alive refl in
    let ne : m.cur ≢ m.fresh = λ e. absurd (omega arith) in
    let away : m.cur ≢ m1.cur = λ e. ne (e ∙ p.cur) in
    let mine : m2.frames m2.cur
        ≡ some (record { point = in_await m.fresh k; next = next; value = value }) =
      ap m2.frames cur ∙ b.others m.cur (omega (arith, p.fresh)) away ∙ p.frame in
    let theirs : m2.frames m.fresh ≡ some (record { point = final; next = m.cur; value = u }) =
      ap m2.frames (sym p.cur) ∙ b.frame ∙ rw alive refl in
    let m3 = record m2 { frames = update (update m2.frames m2.cur (some f)) m.fresh none } in
    let apart : m.fresh ≢ m2.cur = λ e. ne (sym (e ∙ cur)) in
    let apart' : m2.cur ≢ m.fresh = λ e. apart (sym e) in
    let elsewhere = λ (x : ℕ) (a : x ≢ m.fresh) (c : x ≢ m2.cur).
      let same : m3.frames x ≡ m2.frames x = rw (==_ne x m.fresh a, ==_ne x m2.cur c) refl in
      same in
    let gone = λ (x : ℕ) (le : m.fresh ≤ x).
      let none_at : m3.frames x ≡ none = elim (Bool-cases (x == m.fresh)) [
        | inl e ↦ rw e refl
        | inr e ↦
            let a : x ≢ m.fresh = ground arith in
            let c : x ≢ m2.cur = λ y. absurd (omega (arith, cur)) in
            elsewhere x a c ∙ b.left x (ground (arith, p.fresh))
      ] in
      none_at in
    (
      m3,
      resumed m2 m.fresh u mine theirs apart,
      record {
        frame = rw (==_ne m2.cur m.fresh apart', ==_self m2.cur) refl;
        exists = λ e. nz (sym cur ∙ e);
        known = omega (arith, cur, p.fresh, b.grown);
        unused = λ x le. gone x (omega (arith, p.fresh, b.grown));
      },
      record {
        cur = cur;
        callers = b.callers ∙ rw alive p.callers;
        pending = b.pending ∙ p.pending;
        others = λ x lt c.
            let a : x ≢ m.fresh = λ e. absurd (omega arith) in
            elsewhere x a (λ e. c (e ∙ cur))
            ∙ b.others x (omega (arith, p.fresh)) (λ e. a (e ∙ p.cur))
            ∙ p.others x lt c;
        left = gone;
        grown = omega (arith, p.fresh, b.grown);
        known = known;
      },
    )

-- After a dropped coroutine has run to its end, the one that dropped its future goes on.
pub back_from_drop :
    {m m1 m2 : Machine} {rest : Body} {next value u : ℕ}
    → m.cur ≢ 0
    → m.cur < m.fresh
    → Parked m m1 (before rest) next value (m.cur ∷ m.callers)
    → Returned m1 m2 m1.cur 0 u
    → Ready m2 rest next value × Continues m m2
back_from_drop {m} {m1} {m2} {rest} {next} {value} nz known p b =
    let ne : m.cur ≢ m.fresh = λ e. absurd (omega arith) in
    let cur : m2.cur ≡ m.cur = b.cur ∙ ap caller p.callers in
    let gone = λ (x : ℕ) (le : m.fresh ≤ x).
      let none_at : m2.frames x ≡ none = elim (Bool-cases (x == m.fresh)) [
        | inl e ↦ let here : x ≡ m1.cur = ground (arith, p.cur) in ap m2.frames here ∙ b.frame
        | inr e ↦ b.left x (ground (arith, p.fresh))
      ] in
      none_at in
    (
      record {
        frame =
            ap m2.frames cur
            ∙ b.others m.cur (omega (arith, p.fresh)) (λ e. ne (e ∙ p.cur))
            ∙ p.frame;
        exists = λ e. nz (sym cur ∙ e);
        known = omega (arith, cur, p.fresh, b.grown);
        unused = λ x le. gone x (omega (arith, p.fresh, b.grown));
      },
      record {
        cur = cur;
        callers = b.callers ∙ ap other_callers p.callers;
        pending = b.pending ∙ p.pending;
        others = λ x lt c.
            let a : x ≢ m.fresh = λ e. absurd (omega arith) in
            b.others x (omega (arith, p.fresh)) (λ e. a (e ∙ p.cur)) ∙ p.others x lt c;
        left = gone;
        grown = omega (arith, p.fresh, b.grown);
        known = known;
      },
    )
