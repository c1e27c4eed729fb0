-- ===== src/Tests/Names.antt =====
-- The numbers of tasks, the frames on their stacks and their turns, at small kernels.
use mos_core.Prelude.{
  ℕ, zero, suc, ◌+◌, ◌-◌, ◌*◌, ◌^◌, ◌≤◌, ◌<◌, ◌≡◌, refl, ◌⊎◌, true, false, List, [], ◌∷◌, none,
  some, arith, ◌==◌, if◌then◌else◌, replicate, sym, ap, subst, ◌∙◌,
}
use mos_core.DataType.Sequence.{has}
use mos_core.DataType.BitMap.{first_zero, test_bit, set_bit, word, bit_at, index}
use mos_core.DataType.BitMap.Digits.{digit, digit-zero}
use mos_core.DataType.BitMap.Bits.{test_bit-digit}
use mos_core.DataType.BitMap.FirstZero.{first_zero-lowest}
use mos_core.Kernel.State.{
  Kernel, add_slot, pool_page, static_page, running, ready, status_of, slice_width,
}
use mos_core.Kernel.State.Tids.{TidsOk, live}
use mos_core.Kernel.Task.{create_task, create_raw, tid_alloc, terminate_raw}
use mos_core.Kernel.Task.Numbers.{create_task-TidsOk, create_raw-TidsOk, terminate_raw-TidsOk}
use mos_core.Kernel.Page.{Page, load_context}
use mos_core.Kernel.Page.Usage.{HasRoom}
use mos_core.Kernel.Page.Frame.{IsFrame, load_context-IsFrame}
use mos_core.Kernel.Scheduler.Turns.{Turn, ticks}
use mos_core.Kernel.Scheduler.Turns.Fairness.{ticks-runs_later}
use mos_core.Tests.Demo.{demo, holds, task}

-- The first word is full.
abbrev full_word : List ℕ
full_word = (2 ^ 32 - 1) ∷ (2 ^ 31 + 2 ^ 30) ∷ []

first_zero-lowest_example :
    ((first_zero full_word ≡ none) × ((q : ℕ) → q < 64 → test_bit full_word q ≡ true))
    ⊎ ((p : ℕ) × (first_zero full_word ≡ some p)
        × (p < 64)
        × (test_bit full_word p ≡ false)
        × ((q : ℕ) → q < p → test_bit full_word q ≡ true))
first_zero-lowest_example = first_zero-lowest full_word (omega arith, (omega arith, tt))

-- No task has been created.
abbrev fresh : Kernel
fresh = record demo { tids = 0 ∷ []; raw = replicate 16 0; debug_len = 0 }

word_clear : (i : ℕ) → word (0 ∷ []) i ≡ 0
word_clear zero = refl
word_clear (suc i) = refl

bit_clear : (q : ℕ) → test_bit (0 ∷ []) q ≡ false
bit_clear q =
    test_bit-digit (0 ∷ []) q
    ∙ ap (λ d. d == 1) (ap (digit (bit_at q)) (word_clear (index q)) ∙ digit-zero (bit_at q))

fresh-TidsOk : TidsOk fresh
fresh-TidsOk = record {
  words = (omega arith, tt);
  one_word = refl;
  table = refl;
  counted = refl;
  distinct = tt;
  bits = λ q lt. bit_clear q;
  small = λ q i. cc;
}

create_raw-TidsOk_example :
    (k' : Kernel) × (create_raw fresh 0x800 130 pool_page 64 ≡ some (64, k'))
    × TidsOk k'
    × ((k'.tcbs 64).tid ≤ 0)
    × ((x : ℕ) → has x (live k'.raw) ≡ true → (k'.tcbs x).tid ≡ (k'.tcbs 64).tid → x ≡ 64)
create_raw-TidsOk_example =
    create_raw-TidsOk 0x800 130 pool_page 64 fresh-TidsOk (omega arith) refl (omega arith)
      (omega arith)

-- A task has been created.
abbrev one : Kernel
one = (create_task fresh 130 pool_page 64).1

one-TidsOk : TidsOk one
one-TidsOk =
    let (k', e, ok, low, alone) =
      create_task-TidsOk 130 pool_page 64 fresh-TidsOk (omega arith) refl (omega arith) in
    subst TidsOk (ap (λ (p : ℕ × Kernel). p.1) (sym e)) ok

one_listed : has 64 (live one.raw) ≡ true
unfolding create_task tid_alloc first_zero set_bit add_slot
one_listed = refl

terminate_raw-TidsOk_example :
    TidsOk (terminate_raw one 64)
    × (test_bit (terminate_raw one 64).tids (one.tcbs 64).tid ≡ false)
    × ((x : ℕ) → ((terminate_raw one 64).tcbs x).tid ≡ (one.tcbs x).tid)
terminate_raw-TidsOk_example = terminate_raw-TidsOk 64 one-TidsOk (omega arith) one_listed

-- A page of 256 words with a TCB of 64 bytes.
abbrev page : Page
page = record { policy = static_page; raw = 0x2000_0000; size = 256 }

page-HasRoom : HasRoom 64 page
page-HasRoom = omega arith

load_context-IsFrame_example :
    IsFrame 64 true page 0x800 0x900 7
      (λ a. 0)
      (load_context true page 0x800 0x900 7 (λ a. 0)).1
      (load_context true page 0x800 0x900 7 (λ a. 0)).0
load_context-IsFrame_example =
    load_context-IsFrame 64 true page 0x800 0x900 7 (λ a. 0) page-HasRoom (omega arith)

-- Three tasks of one priority, with slices of 2, 1 and 50 ticks, and an idle task.
abbrev sharing : Kernel
sharing = record demo {
  tcbs = λ t. record (task (if t == 1 then running else ready) (if t == 9 then 255 else 130) 0) {
    time_slice = if t == 1 then 2 else if t == 2 then 1 else 50;
  };
  lists = λ l. if l == 0 then holds (1 ∷ 2 ∷ 3 ∷ 9 ∷ []) else holds [];
}

sharing-Turn : Turn sharing [] 1 (2 ∷ 3 ∷ 9 ∷ [])
sharing-Turn = record {
  irq_on = refl;
  scheduled = refl;
  awake = refl;
  order = refl;
  current = refl;
  runs = refl;
  distinct = (refl, (refl, (refl, (refl, tt))));
  highest = λ st e. ground arith;
  left = omega arith;
  narrow = omega arith;
}

ticks-runs_later_example :
    (n : ℕ) × (n ≡ 3)
    × (n ≤ slice_width * 2)
    × ((k' : Kernel) × (ticks n sharing ≡ some k')
        × (k'.cur_tcb ≡ 3)
        × (status_of k' 3 ≡ running)
        × (k'.lists ≡ sharing.lists))
ticks-runs_later_example =
    ticks-runs_later (2 ∷ []) 3 (9 ∷ []) sharing-Turn
      (refl, omega arith, omega arith, (refl, omega arith, omega arith, tt))
