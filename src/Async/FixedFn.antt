-- ===== src/Async/FixedFn.antt =====
-- kernel/async.hpp: `FixedFn_t`, a function object in a fixed buffer.
-- The content of the buffer is of a type `D`; the pointers `invoker` and `cloner` point to code that the
-- compiler makes for the type of the object, which is a parameter, `Code`. A null pointer is `none`.
use mos_core.Prelude.{ℕ, ◌≡◌, refl, Bool, true, false, Option, none, some, if◌then◌else◌, ◌==◌}

-- What the code that is pointed to does: `State` is what the call changes.
pub record Code (D State : Type 0) : Type 1 where
  pub Invoker : Type 0
  pub Cloner : Type 0
  pub invoke : Invoker → D → State → State × D
  pub clone : Cloner → D → D

module _ {D State : Type 0} (code : Code D State) where
  pub record FixedFn : Type 0 where
    pub buffer : D
    pub invoker : Option code.Invoker
    pub cloner : Option code.Cloner

  unfoldable pub copy_from : FixedFn → (other : FixedFn) → Option FixedFn
  copy_from fn other = elim other.invoker [
    | none ↦ some (record fn { invoker = none; cloner = none })
    | some i ↦ elim other.cloner [
      | none ↦ none
      | some c ↦
          some (record { buffer = code.clone c other.buffer; invoker = some i; cloner = some c })
    ]
  ]

  -- The object and the one it was moved from.
  unfoldable pub move_from : FixedFn → (other : FixedFn) → FixedFn × FixedFn
  move_from fn other = elim other.invoker [
    | none ↦ (record fn { invoker = none; cloner = none }, other)
    | some i ↦ (
      record { buffer = other.buffer; invoker = some i; cloner = other.cloner },
      record other { invoker = none; cloner = none },
    )
  ]

  -- `operator=` on a function that may be the same object; `store` has the objects by address.
  unfoldable pub assign_copy : (store : ℕ → FixedFn) → (this other : ℕ) → Option (ℕ → FixedFn)
  unfolding copy_from
  assign_copy store this other =
      if this == other then some store else elim (copy_from (store this) (store other)) [
        | none ↦ none
        | some fn ↦ some (λ p. if p == this then fn else store p)
      ]

  unfoldable pub assign_move : (store : ℕ → FixedFn) → (this other : ℕ) → ℕ → FixedFn
  unfolding move_from
  assign_move store this other =
      if this == other
      then store
      else (let (fn, rest) = move_from (store this) (store other) in
          λ p. if p == this then fn else if p == other then rest else store p)

  -- `operator bool`
  unfoldable pub is_set : FixedFn → Bool
  is_set fn = elim fn.invoker [ none ↦ false | some i ↦ true ]

  -- `operator()`
  unfoldable pub call : FixedFn → State → State × FixedFn
  call fn s = elim fn.invoker [
    | none ↦ (s, fn)
    | some i ↦ let (s', d) = code.invoke i fn.buffer s in (s', record fn { buffer = d })
  ]

  -- What the object that is moved to does is what the other one did, and that one is empty behind it.
  call-move_from :
      (fn other : FixedFn) (s : State)
      → ((call (move_from fn other).0 s).0 ≡ (call other s).0)
        × (is_set (move_from fn other).1 ≡ false)
  unfolding move_from call is_set
  call-move_from fn other s = by_invoker other.buffer other.cloner other.invoker
    where
      by_invoker :
          (d : D) (c : Option code.Cloner) (i : Option code.Invoker)
          → let o : FixedFn = record { buffer = d; invoker = i; cloner = c } in
            ((call (move_from fn o).0 s).0 ≡ (call o s).0) × (is_set (move_from fn o).1 ≡ false)
      by_invoker d c none = (refl, refl)
      by_invoker d c (some i) = (refl, refl)
