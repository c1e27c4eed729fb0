-- ===== src/Utils/Range.antt =====
-- kernel/utils.hpp, `Range`: the numbers that a loop over a range visits.
-- An `int32_t` is kept as its value plus 2 ^ 31; sums wrap around.
use mos_core.Prelude.{
  ℕ, zero, suc, ◌+◌, ◌-◌, ◌%◌, ◌^◌, ◌<◌, ◌≡◌, refl, Bool, true, List, [], ◌∷◌, Option, none, some,
  arith, if◌then◌else◌, ltb,
}

pub record Range : Type 0 where
  pub st : ℕ
  pub ed : ℕ
  pub n : ℕ

pub record Iter : Type 0 where
  pub raw : ℕ
  pub step : ℕ

abbrev pub null : ℕ
null = 2 ^ 31

abbrev pub add32 : ℕ → ℕ → ℕ
add32 a b = (a + b + 2 ^ 31) % 2 ^ 32

abbrev pub sub32 : ℕ → ℕ → ℕ
sub32 a b = (a + 2 ^ 32 + 2 ^ 31 - b) % 2 ^ 32

abbrev pub next : Iter → Iter
next i = record i { raw = add32 i.raw i.step }

-- `operator!=`
abbrev pub differs : Iter → Iter → Bool
differs i other = if ltb null i.step then ltb i.raw other.raw else ltb other.raw i.raw

abbrev pub begin : Range → Iter
begin r = record { raw = r.st; step = r.n }

abbrev pub end : Range → Iter
end r = record { raw = r.ed; step = r.n }

abbrev pub rbegin : Range → Iter
rbegin r = record { raw = sub32 r.ed r.n; step = sub32 null r.n }

abbrev pub rend : Range → Iter
rend r = record { raw = sub32 r.st r.n; step = sub32 null r.n }

-- A range-based `for`; `none` when the fuel runs out.
unfoldable pub visit : ℕ → Iter → Iter → Option (List ℕ)
visit zero i stop = none
visit (suc fuel) i stop =
    let more = visit fuel (next i) stop in
    if differs i stop then elim more [ none ↦ none | some xs ↦ some (i.raw ∷ xs) ] else some []

-- The numbers from `a` up in steps of 1.
abbrev pub upwards : ℕ → ℕ → List ℕ
upwards a zero = []
upwards a (suc m) = a ∷ upwards (a + 1) m

-- A loop with step 1 ends and visits the numbers from the start up to the end, without the end.
pub visit-upwards :
    (fuel m : ℕ) (r : Range)
    → r.n ≡ null + 1
    → r.ed ≡ r.st + m
    → r.ed < 2 ^ 32
    → m < fuel
    → visit fuel (begin r) (end r) ≡ some (upwards r.st m)
unfolding visit
visit-upwards zero m r one e high lt = elim lt [ ]
visit-upwards (suc fuel) zero r one e high lt = ground (arith, one, e)
visit-upwards (suc fuel) (suc m) r one e high lt =
    let step : add32 r.st r.n ≡ r.st + 1 = omega (arith, one, e) in
    let up : ltb null r.n ≡ true = ground (arith, one) in
    let more : ltb r.st r.ed ≡ true = ground (arith, e) in
    let rest =
      visit-upwards fuel m (record r { st = r.st + 1 }) one (omega arith) high (omega arith) in
    rw (up, more, step, rest) refl
