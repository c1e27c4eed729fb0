-- ===== src/Kernel/Scheduler/Wake.antt =====
-- `wake_up_sleeper`: which sleepers are woken, and that the loop ends.
use mos_core.Prelude.{
  ℕ, zero, suc, ◌≤◌, ◌<◌, ◌≡◌, refl, ◌≢◌, Bool, true, false, ◌&&◌, List, [], ◌∷◌, none, some, arith,
  ◌==◌, ltb, leb, length, Bool-cases, Option-cases, inl, inr, sym, ap, subst, ◌∙◌, ltb→lt,
}
use mos_core.DataType.Sequence.{has, erase, length-erase}
use mos_core.Kernel.State.{
  ready, Kernel, nodes_of, status_of, wkpt_of, ready_list, sleeping_list, begin_of, first, Tcb,
}
use mos_core.Kernel.State.Invariant.{IsValid, first-le}
use mos_core.Kernel.Task.{wake_raw, resume_raw}
use mos_core.Kernel.Task.Resume.{ResumedAt, wake_raw-ResumedAt}
use mos_core.Kernel.Scheduler.{wake_up_sleeper}

-- The task sleeps, and its wake point has come.
abbrev pub is_due : Kernel → ℕ → Bool
is_due k x = has x (nodes_of k sleeping_list) && leb (wkpt_of k x) k.os_ticks

-- The tasks that are due are ready, the others are as they were, and nobody who still sleeps is due.
pub record Woke (k k' : Kernel) : Type 0 where
  pub valid : IsValid k'
  pub same_cur : k'.cur_tcb ≡ k.cur_tcb
  pub due :
      (x : ℕ)
      → is_due k x ≡ true
      → (status_of k' x ≡ ready) × (has x (nodes_of k' ready_list) ≡ true)
  pub kept : (x : ℕ) → is_due k x ≡ false → k'.tcbs x ≡ k.tcbs x
  pub placed : (x m : ℕ) → is_due k x ≡ false → has x (nodes_of k' m) ≡ has x (nodes_of k m)
  pub asleep : (x : ℕ) → has x (nodes_of k' sleeping_list) ≡ true → k.os_ticks < wkpt_of k' x

pub no_first : (xs : List ℕ) → first xs ≡ none → (x : ℕ) → has x xs ≡ true → ⊥
no_first [] e x i = cc
no_first (y ∷ ys) e x i = cc

pub first-has : (xs : List ℕ) {t : ℕ} → first xs ≡ some t → has t xs ≡ true
first-has [] e = cc
first-has (x ∷ xs) e = ground arith

wake_raw-frame :
    (k : Kernel) (t : ℕ)
    → ((wake_raw k t).os_ticks ≡ k.os_ticks)
      × (nodes_of (wake_raw k t) sleeping_list ≡ erase t (nodes_of k sleeping_list))
unfolding wake_raw resume_raw
wake_raw-frame k t = (refl, refl)

module _ {k : Kernel} (t : ℕ) (v : IsValid k) (i : has t (nodes_of k sleeping_list) ≡ true) where
  woken : Kernel
  woken = wake_raw k t

  woken-ResumedAt : ResumedAt k woken t
  unfolding woken
  woken-ResumedAt = (wake_raw-ResumedAt t v i).0

  woken-clock : woken.os_ticks ≡ k.os_ticks
  unfolding woken
  woken-clock = (wake_raw-frame k t).0

  -- The task itself is no longer due, and the others as they were.
  IsDue-woken_self : is_due woken t ≡ false
  IsDue-woken_self = elim (Bool-cases (has t (nodes_of woken sleeping_list))) [
    | inl j ↦
        let r = woken-ResumedAt in
        absurd (omega (arith, r.valid.lists_ok.one_home t sleeping_list ready_list j r.listed))
    | inr o ↦ rw o
  ]

  IsDue-woken_ne : (x : ℕ) → x ≢ t → is_due woken x ≡ is_due k x
  IsDue-woken_ne x ne = ground (
    arith,
    woken-ResumedAt.alone x sleeping_list ne,
    ap (λ (u : Tcb). u.wake_point) (woken-ResumedAt.others x ne),
    woken-clock,
  )

  Woke-step : {k' : Kernel} → wkpt_of k t ≤ k.os_ticks → Woke woken k' → Woke k k'
  Woke-step {k'} late w = record {
    valid = w.valid;
    same_cur = w.same_cur ∙ woken-ResumedAt.same_cur;
    due = λ x d. elim (Bool-cases (x == t)) [
      | inl e ↦
          let here : x ≡ t = ground arith in
          let same = w.kept t IsDue-woken_self in
          let r = woken-ResumedAt in
          subst (λ y. (status_of k' y ≡ ready) × (has y (nodes_of k' ready_list) ≡ true)) (sym here)
            (
              ap (λ (u : Tcb). u.status) same ∙ r.status,
              w.placed t ready_list IsDue-woken_self ∙ r.listed,
            )
      | inr e ↦ w.due x (IsDue-woken_ne x (ground arith) ∙ d)
    ];
    kept = λ x d.
        let ne : x ≢ t = λ e. ground (arith, ap (is_due k) e) in
        w.kept x (IsDue-woken_ne x ne ∙ d) ∙ woken-ResumedAt.others x ne;
    placed = λ x m d.
        let ne : x ≢ t = λ e. ground (arith, ap (is_due k) e) in
        w.placed x m (IsDue-woken_ne x ne ∙ d) ∙ woken-ResumedAt.alone x m ne;
    asleep = λ x j. subst (λ n. n < wkpt_of k' x) woken-clock (w.asleep x j);
  }

Woke-stop :
    {k : Kernel}
    → IsValid k
    → ((x : ℕ) → has x (nodes_of k sleeping_list) ≡ true → k.os_ticks < wkpt_of k x)
    → Woke k k
Woke-stop {k} v all = record {
  valid = v;
  same_cur = refl;
  due = λ x d. absurd (ground (arith, all x));
  kept = λ x d. refl;
  placed = λ x m d. refl;
  asleep = all;
}

-- With one round of fuel more than there are sleepers the loop ends.
pub wake_up_sleeper-Woke :
    (fuel : ℕ) {k : Kernel}
    → IsValid k
    → length (nodes_of k sleeping_list) < fuel
    → (k' : Kernel) × (wake_up_sleeper fuel k ≡ some k') × Woke k k'
unfolding wake_up_sleeper woken
wake_up_sleeper-Woke zero v lt = absurd (omega arith)
wake_up_sleeper-Woke (suc fuel) {k} v lt = elim (Option-cases (begin_of k sleeping_list)) [
  | inl none_left ↦
      (k, rw (none_left, wake_up_sleeper), Woke-stop v (λ x i. absurd (no_first _ none_left x i)))
  | inr (t, found) ↦
      let i = first-has (nodes_of k sleeping_list) found in
      elim (Bool-cases (ltb k.os_ticks (wkpt_of k t))) [
        | inl early ↦ (
          k,
          rw (found, wake_up_sleeper) (rw early),
          Woke-stop v (λ x j. omega (
            arith,
            ltb→lt _ _ early,
            first-le (wkpt_of k) (nodes_of k sleeping_list) x v.sleepers found j,
          )),
        )
        | inr late ↦
            let (k', e, w) =
              wake_up_sleeper-Woke fuel {k = wake_raw k t} (wake_raw-ResumedAt t v i).0.valid (
                omega (
                  arith,
                  ap length (wake_raw-frame k t).1,
                  length-erase t (nodes_of k sleeping_list) i,
                )) in
            (k', rw (found, wake_up_sleeper) (rw late e), Woke-step t v i (ground arith) w)
      ]
]

-- With no sleeper due nothing changes.
pub wake_up_sleeper-none_due :
    (fuel : ℕ) {k : Kernel} → ((x : ℕ) → is_due k x ≡ false) → wake_up_sleeper (suc fuel) k ≡ some k
unfolding wake_up_sleeper
wake_up_sleeper-none_due fuel {k} early = elim (Option-cases (begin_of k sleeping_list)) [
  | inl e ↦ rw (e, wake_up_sleeper)
  | inr (t, e) ↦
      let i = first-has (nodes_of k sleeping_list) e in
      let later : ltb k.os_ticks (wkpt_of k t) ≡ true = ground (arith, early t) in
      rw (e, wake_up_sleeper) (rw later)
]
