-- ===== src/Async/Coroutine/Chain.antt =====
-- A chain of coroutines that await one another runs like nested calls: each one is resumed with the
-- value of the one that it awaits, and no frame is left.
use mos_core.Prelude.{ℕ, ◌≡◌, refl, ◌⊎◌, inl, inr, List, [], ◌∷◌, ◌++◌, some, sym, ◌∙◌, subst}
use mos_core.Async.Coroutine.{
  Body, co_return, co_await, co_callback, drop_future, Point, Machine, step, deliver,
}
use mos_core.Async.Coroutine.Steps.{
  Ready, Returned, Parked, return-Returned, await-Parked, drop-Parked,
}
use mos_core.Async.Coroutine.Resumed.{
  Continues, Continues-Returned, called, back_from_await, back_from_drop,
}

-- The value of a coroutine, with the results of the callbacks that it and those that it awaits wait
-- for. One whose future is dropped waits for none.
pub data Gives : Body → List ℕ → ℕ → Type 0 where
  returned : (v : ℕ) → Gives (co_return v) [] v
  awaited :
      {child : Body} {k : ℕ → Body} {us vs : List ℕ} (u : ℕ) {v : ℕ} {ws : List ℕ}
      → Gives child us u
      → Gives (k u) vs v
      → ws ≡ us ++ vs
      → Gives (co_await child k) ws v
  called_back :
      {k : ℕ → Body} (u : ℕ) {vs : List ℕ} {v : ℕ}
      → Gives (k u) vs v
      → Gives (co_callback k) (u ∷ vs) v
  dropped :
      {child rest : Body} {u : ℕ} {vs : List ℕ} {v : ℕ}
      → Gives child [] u
      → Gives rest vs v
      → Gives (drop_future child rest) vs v

-- The machine runs to its end, and when it is idle the executor calls the callbacks with the results.
pub data Runs (end : Machine) : Machine → List ℕ → Type 0 where
  here : {m : Machine} → m ≡ end → Runs end m []
  steps : {m m1 : Machine} {vs : List ℕ} → step m ≡ some m1 → Runs end m1 vs → Runs end m vs
  calls :
      {m m1 : Machine} {vs : List ℕ} (h u : ℕ)
      → m.cur ≡ 0
      → deliver m h u ≡ some m1
      → Runs end m1 vs
      → Runs end m (u ∷ vs)

Runs-append : {b c a : Machine} {us vs : List ℕ} → Runs b a us → Runs c b vs → Runs c a (us ++ vs)
Runs-append {c = c} {vs = vs} (here e) r = subst (λ m. Runs c m vs) (sym e) r
Runs-append (steps e q) r = steps e (Runs-append q r)
Runs-append (calls h u idle e q) r = calls h u idle e (Runs-append q r)

-- Either no callback is waited for, or the executor itself has resumed the current coroutine.
abbrev pub MayWait : Machine → List ℕ → Type 0
MayWait m vs = (vs ≡ []) ⊎ (m.callers ≡ [])

MayWait-split : (m : Machine) (us vs : List ℕ) → MayWait m (us ++ vs) → MayWait m us × MayWait m vs
MayWait-split m us vs (inr idle) = (inr idle, inr idle)
MayWait-split m [] vs (inl e) = (inl refl, inl e)
MayWait-split m (u ∷ us) vs (inl e) = cc

Continues-MayWait : {m m' : Machine} {vs : List ℕ} → Continues m m' → MayWait m vs → MayWait m' vs
Continues-MayWait c (inl e) = inl e
Continues-MayWait c (inr e) = inr (c.callers ∙ e)

Parked-MayWait :
    {m m1 : Machine} {point : Point} {next value : ℕ} {vs : List ℕ}
    → Parked m m1 point next value m.callers
    → MayWait m vs
    → MayWait m1 vs
Parked-MayWait p (inl e) = inl e
Parked-MayWait p (inr e) = inr (p.callers ∙ e)

MayWait-idle : (m : Machine) (u : ℕ) (vs : List ℕ) → MayWait m (u ∷ vs) → m.callers ≡ []
MayWait-idle m u vs (inl e) = cc
MayWait-idle m u vs (inr e) = e

-- A coroutine that has a value, given the results of the callbacks that it waits for in order, is
-- resumed, with no frame behind the handles that have been given out. When it waits for a callback,
-- nothing but the executor is below it. Then it runs to its end, and its promise has the value. Its
-- next coroutine is resumed then, once; without one its frame is freed and its caller goes on. Every
-- frame that was made meanwhile is freed, and the frames of the others are as they were.
pub Gives-Returned :
    {body : Body} {vs : List ℕ} {v : ℕ} {m : Machine} {next value : ℕ}
    → Gives body vs v
    → Ready m body next value
    → MayWait m vs
    → (m' : Machine) × Runs m' m vs × Returned m m' m.cur next v
Gives-Returned (returned v) r may =
    let (m', e, b) = return-Returned v r in (m', steps e (here refl), b)
Gives-Returned {m = m} (awaited {us = us} {vs = vs} u g1 g2 split) r may =
    let (may1, may2) = MayWait-split m us vs (subst (MayWait m) split may) in
    let (m1, e1, r1, p) = await-Parked r in
    let (m2, run1, b) = Gives-Returned g1 r1 (Parked-MayWait p may1) in
    let (m3, e2, r3, c) = back_from_await u r.exists r.known r.unused p b in
    let (m', run2, b') = Gives-Returned g2 r3 (Continues-MayWait c may2) in
    (
      m',
      steps e1 (subst (Runs m' m1) (sym split) (Runs-append run1 (steps e2 run2))),
      Continues-Returned c b',
    )
Gives-Returned {m = m} (called_back u {vs = vs} g) r may =
    let idle : m.callers ≡ [] = MayWait-idle m u vs may in
    let (m1, m2, e1, idle1, e2, r2, c) = called m u r idle in
    let (m', run, b) = Gives-Returned g r2 (inr (c.callers ∙ idle)) in
    (m', steps e1 (calls m.cur u idle1 e2 run), Continues-Returned c b)
Gives-Returned {m = m} (dropped g1 g2) r may =
    let (m1, e1, r1, p) = drop-Parked r in
    let (m2, run1, b) = Gives-Returned g1 r1 (inl refl) in
    let (r2, c) = back_from_drop r.exists r.known p b in
    let (m', run2, b') = Gives-Returned g2 r2 (Continues-MayWait c may) in
    (m', steps e1 (Runs-append run1 run2), Continues-Returned c b')
