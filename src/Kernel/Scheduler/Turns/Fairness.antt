-- ===== src/Kernel/Scheduler/Turns/Fairness.antt =====
-- The tasks of one priority take turns: each of them runs after as many ticks as the slices of those
-- before it have.
use mos_core.Prelude.{
  ℕ, zero, suc, ◌+◌, ◌-◌, ◌*◌, ◌≤◌, ◌<◌, ◌≡◌, refl, ◌≢◌, false, List, [], ◌∷◌, ◌++◌, none, some,
  arith, length, ap, sym, ◌∙◌, subst, inl, inr, Option-cases,
}
use mos_core.DataType.Sequence.{has, Distinct-remove, has-append}
use mos_core.Kernel.State.{running, Kernel, status_of, pri_of, slice_width}
use mos_core.Kernel.Scheduler.Turns.{tick, ticks, slice_of, Turn, Kept, Kept-trans}
use mos_core.Kernel.Scheduler.Turns.Ticked.{ticked}
use mos_core.Kernel.Scheduler.Turns.Tick.{
  tick-stay, stay-Turn, stay-Kept, pass-Turn, ticked-slice_x,
}

ticks-suc :
    (n : ℕ) (k k1 k2 : Kernel) → tick k ≡ some k1 → ticks n k1 ≡ some k2 → ticks (suc n) k ≡ some k2
unfolding ticks
ticks-suc n k k1 k2 one rest = rw (one, ticks) rest

ticks-add :
    (a b : ℕ) (k : Kernel) {k1 k2 : Kernel}
    → ticks a k ≡ some k1
    → ticks b k1 ≡ some k2
    → ticks (a + b) k ≡ some k2
unfolding ticks
ticks-add zero b k {k2 = k2} p q =
    let none_yet : 0 + b ≡ b = omega arith in
    let here : k ≡ _ = cc in
    subst (λ n. ticks n k ≡ some k2) (sym none_yet) (subst (λ y. ticks b y ≡ some k2) (sym here) q)
ticks-add (suc a) b k {k1} {k2} p q = elim (Option-cases (tick k)) [
  | inl stop ↦ let bad : none ≡ some k1 = rw (stop, ticks) at p in cc
  | inr (k', go) ↦
      let more : suc a + b ≡ suc (a + b) = omega arith in
      subst (λ n. ticks n k ≡ some k2) (sym more)
        (ticks-suc (a + b) k k' k2 go (ticks-add a b k' (rw (go, ticks) at p) q))
]

-- A task whose turn it is runs until its slice is used up, and then the next one of its priority runs.
slice_ends :
    (s : ℕ) {k : Kernel} {front : List ℕ} {x : ℕ} (z : ℕ) (back : List ℕ)
    → Turn k front x (z ∷ back)
    → slice_of k x ≡ suc s
    → pri_of k z ≡ pri_of k x
    → z ≢ x
    → 0 < slice_of k z
    → slice_of k z ≤ slice_width
    → (k' : Kernel) × (ticks (suc s) k ≡ some k')
      × Turn k' (front ++ x ∷ []) z back
      × Kept k k' x
      × (status_of k' z ≡ running)
slice_ends zero {k} z back turn e same ne left narrow =
    let (k', go, next, kept, runs) = pass-Turn turn z back refl e same left narrow in
    (k', ticks-suc 0 k k' k' go (unfold ticks in refl), next, kept, runs)
slice_ends (suc s) {k} {x = x} z back turn e same ne left narrow =
    let kept = stay-Kept turn in
    let kept_z = kept.slices z ne in
    let (k', go, next, kept', runs) =
      slice_ends s z back (stay-Turn turn s e) (ticked-slice_x turn (suc s) e)
        (kept.pris z ∙ same ∙ sym (kept.pris x)) ne (omega (arith, kept_z))
        (omega (arith, kept_z)) in
    (
      k',
      ticks-suc (suc s) k (ticked k) k' (tick-stay turn s e) go,
      next,
      Kept-trans kept kept',
      runs,
    )

-- The ticks that the slices of some tasks have left.
abbrev pub waits : Kernel → List ℕ → ℕ
waits k [] = 0
waits k (t ∷ ts) = slice_of k t + waits k ts

-- The tasks have one priority, and each has some of its slice left.
abbrev pub InGroup : Kernel → (pri : ℕ) → List ℕ → Type 0
InGroup k pri [] = Unit {0}
InGroup k pri (t ∷ ts) =
    (pri_of k t ≡ pri) × (0 < slice_of k t) × (slice_of k t ≤ slice_width) × InGroup k pri ts

waits-Kept :
    {k k' : Kernel} {x : ℕ} (ts : List ℕ)
    → Kept k k' x
    → has x ts ≡ false
    → waits k' ts ≡ waits k ts
waits-Kept [] kept out = refl
waits-Kept {x = x} (t ∷ ts) kept out =
    let ne : t ≢ x = λ e. ground arith in
    omega (arith, kept.slices t ne, waits-Kept ts kept (ground arith))

InGroup-Kept :
    {k k' : Kernel} {x : ℕ} (pri : ℕ) (ts : List ℕ)
    → Kept k k' x
    → has x ts ≡ false
    → InGroup k pri ts
    → InGroup k' pri ts
InGroup-Kept pri [] kept out g = tt
InGroup-Kept {x = x} pri (t ∷ ts) kept out (p, left, narrow, g) =
    let ne : t ≢ x = λ e. ground arith in
    let same = kept.slices t ne in
    (
      kept.pris t ∙ p,
      omega (arith, same),
      omega (arith, same),
      InGroup-Kept pri ts kept (ground arith) g,
    )

behind_out :
    {k : Kernel} {front : List ℕ} {x : ℕ} {back : List ℕ} → Turn k front x back → has x back ≡ false
behind_out {front = front} {x = x} {back = back} turn =
    let (out, _) = Distinct-remove x front back turn.distinct in
    ground (arith, has-append x front back)

-- The task at the end of some tasks of the group runs when the slices of those before it are used up.
runs_later :
    (mid : List ℕ) {k : Kernel} {front : List ℕ} {x : ℕ} (z : ℕ) (back : List ℕ)
    → Turn k front x (mid ++ z ∷ back)
    → InGroup k (pri_of k x) (mid ++ z ∷ [])
    → (k' : Kernel) × (ticks (slice_of k x + waits k mid) k ≡ some k')
      × (k'.cur_tcb ≡ z)
      × (status_of k' z ≡ running)
      × (k'.lists ≡ k.lists)
runs_later [] {k} {x = x} z back turn (p, left, narrow, g) =
    let out = behind_out turn in
    let ne : z ≢ x = λ e. ground arith in
    let some_left = turn.left in
    let (k', go, next, kept, runs) =
      slice_ends (slice_of k x - 1) z back turn (omega arith) p ne left narrow in
    let count : slice_of k x + 0 ≡ suc (slice_of k x - 1) = omega arith in
    (k', ap (λ n. ticks n k) count ∙ go, next.current, runs, kept.lists)
runs_later (y ∷ mid) {k} {x = x} z back turn (p, left, narrow, g) =
    let out = behind_out turn in
    let ne : y ≢ x = λ e. ground arith in
    let out_mid : has x (mid ++ z ∷ []) ≡ false =
      ground (arith, has-append x mid (z ∷ []), has-append x mid (z ∷ back)) in
    let some_left = turn.left in
    let (k1, go, next, kept, runs) =
      slice_ends (slice_of k x - 1) y (mid ++ z ∷ back) turn (omega arith) p ne left narrow in
    let pri_y : pri_of k1 y ≡ pri_of k x = kept.pris y ∙ p in
    let group =
      subst (λ q. InGroup k1 q (mid ++ z ∷ [])) (sym pri_y)
        (InGroup-Kept (pri_of k x) (mid ++ z ∷ []) kept out_mid g) in
    let (k', rest, cur, runs', lists) = runs_later mid z back next group in
    let waited = waits-Kept mid kept (ground (arith, has-append x mid (z ∷ []))) in
    let same_slice = kept.slices y ne in
    let count : slice_of k x + (slice_of k y + waits k mid)
        ≡ suc (slice_of k x - 1) + (slice_of k1 y + waits k1 mid) =
      omega (arith, waited, same_slice, some_left) in
    (
      k',
      ap (λ n. ticks n k) count
          ∙ ticks-add (suc (slice_of k x - 1)) (slice_of k1 y + waits k1 mid) k go rest,
      cur,
      runs',
      lists ∙ kept.lists,
    )

waits-le :
    (k : Kernel) (pri : ℕ) (mid ts : List ℕ)
    → InGroup k pri (mid ++ ts)
    → waits k mid ≤ slice_width * length mid
waits-le k pri [] ts g = omega arith
waits-le k pri (t ∷ mid) ts (p, left, narrow, g) = omega (arith, waits-le k pri mid ts g)

-- The task that runs, and the tasks of its priority up to `z` behind it in the ready list, have some
-- of their time slices left. Nobody sleeps, no ready task is of a higher priority, and nothing but
-- ticks happens. Then `z` runs after as many ticks as the slices of those before it have left, which
-- is at most a full slice for each; the lists are as they were.
pub ticks-runs_later :
    (mid : List ℕ) {k : Kernel} {front : List ℕ} {x : ℕ} (z : ℕ) (back : List ℕ)
    → Turn k front x (mid ++ z ∷ back)
    → InGroup k (pri_of k x) (mid ++ z ∷ [])
    → (n : ℕ) × (n ≡ slice_of k x + waits k mid)
      × (n ≤ slice_width * suc (length mid))
      × ((k' : Kernel) × (ticks n k ≡ some k')
          × (k'.cur_tcb ≡ z)
          × (status_of k' z ≡ running)
          × (k'.lists ≡ k.lists))
ticks-runs_later mid {k} {x = x} z back turn g =
    let narrow = turn.narrow in
    (
      slice_of k x + waits k mid,
      refl,
      omega (arith, waits-le k (pri_of k x) mid (z ∷ []) g),
      runs_later mid z back turn g,
    )
