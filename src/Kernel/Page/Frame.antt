-- ===== src/Kernel/Page/Frame.antt =====
-- `load_context`: the frame that the first switch to a task pops.
use mos_core.Prelude.{ℕ, ◌+◌, ◌*◌, ◌≤◌, ◌<◌, ◌≡◌, Bool, true, false, arith}
use mos_core.Kernel.Page.{
  Page, from_bottom, Mem, load_context, total_len, set_xpsr, set_pc, set_lr, set_argv,
}
use mos_core.Kernel.Page.Usage.{HasRoom}

-- What the frame holds, at the places that the setters of the TCB write, and where it lies.
pub record IsFrame (n : ℕ) (has_fpu : Bool) (p : Page) (fn exit argv : ℕ) (m m' : Mem) (sp : ℕ)
    : Type 0 where
  pub top : sp + 4 * total_len has_fpu ≡ p.raw + 4 * p.size
  pub above_tcb : p.raw + n ≤ sp
  pub xpsr : m' (from_bottom p 1) ≡ 0x0100_0000
  pub pc : m' (from_bottom p 2) ≡ fn
  pub lr : m' (from_bottom p 3) ≡ exit
  pub r0 : m' (from_bottom p 8) ≡ argv
  pub exc_return : has_fpu ≡ true → m' (from_bottom p 9) ≡ 0xffff_fffd
  pub below : (a : ℕ) → a < sp → m' a ≡ m a
  pub behind : (a : ℕ) → p.raw + 4 * p.size ≤ a → m' a ≡ m a

-- `load_context` on a page with room for the TCB and the frame: the frame ends where the page ends
-- and begins behind the TCB. It has the Thumb bit, the entry point, the address of `exit` and the
-- argument where the setters of the TCB write them, with a hardware FPU the EXC_RETURN below, and
-- nothing outside of it has been written.
pub load_context-IsFrame :
    (n : ℕ) (has_fpu : Bool) (p : Page) (fn exit argv : ℕ) (m : Mem)
    → HasRoom n p
    → n + 4 * total_len has_fpu ≤ 4 * p.size
    → IsFrame n has_fpu p fn exit argv m
        (load_context has_fpu p fn exit argv m).1
        (load_context has_fpu p fn exit argv m).0
unfolding load_context
load_context-IsFrame n true p fn exit argv m ok room = record {
  top = omega (arith, ok);
  above_tcb = omega (arith, ok);
  xpsr = ground (arith, ok);
  pc = ground (arith, ok);
  lr = ground (arith, ok);
  r0 = ground (arith, ok);
  exc_return = λ e. ground (arith, ok);
  below = λ a lt. ground (arith, ok);
  behind = λ a le. ground (arith, ok);
}
load_context-IsFrame n false p fn exit argv m ok room = record {
  top = omega (arith, ok);
  above_tcb = omega (arith, ok);
  xpsr = ground (arith, ok);
  pc = ground (arith, ok);
  lr = ground (arith, ok);
  r0 = ground (arith, ok);
  exc_return = λ e. cc;
  below = λ a lt. ground (arith, ok);
  behind = λ a le. ground (arith, ok);
}

-- The setters write the registers of the frame and nothing else.
set_registers-IsFrame :
    (n : ℕ) (has_fpu : Bool) (p : Page) {fn exit argv : ℕ} (fn' exit' argv' : ℕ) {m m' : Mem}
    {sp : ℕ}
    → HasRoom n p
    → IsFrame n has_fpu p fn exit argv m m' sp
    → IsFrame n has_fpu p fn' exit' argv' m
        (set_argv p argv' (set_lr p exit' (set_pc p fn' (set_xpsr p 0x0100_0000 m'))))
        sp
unfolding set_argv set_lr set_pc set_xpsr
set_registers-IsFrame n has_fpu p fn' exit' argv' ok f = record {
  top = f.top;
  above_tcb = f.above_tcb;
  xpsr = ground (arith, ok, f.top);
  pc = ground (arith, ok, f.top);
  lr = ground (arith, ok, f.top);
  r0 = ground (arith, ok, f.top);
  exc_return = λ e. ground (arith, ok, f.top, f.exc_return e);
  below = λ a lt. ground (arith, ok, f.top, f.below a);
  behind = λ a le. ground (arith, ok, f.top, f.behind a);
}
