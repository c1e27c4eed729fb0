-- ===== src/DataType/Buffer.antt =====
-- kernel/data_type/buffer.hpp: `Buffer_t<T, N>`, a stack over an array.
-- `len` is the value of the `int32_t`, which is not negative; a write outside the array is left out.
pub mod Contents
use mos_core.Prelude.{
  ℕ, ◌+◌, ◌-◌, Bool, not, List, Option, none, some, ◌==◌, if◌then◌else◌, leb, get_elem?, set,
  length, replicate,
}

pub record Buffer {ℓ} (T : Type ℓ) : Type ℓ where
  pub raw : List T
  pub len : ℕ

module _ {ℓ} {T : Type ℓ} where
  unfoldable pub full : ℕ → Buffer T → Bool
  full capacity b = leb capacity b.len

  unfoldable pub empty : Buffer T → Bool
  empty b = b.len == 0

  unfoldable pub push : Buffer T → T → Buffer T
  push b value = record { raw = set b.raw b.len value; len = b.len + 1 }

  -- The newest value, or the null of the type; `none` reads outside the array.
  unfoldable pub back : (null : T) → Buffer T → Option T
  unfolding empty
  back null b = if empty b then some null else get_elem? b.raw (b.len - 1)

  unfoldable pub pop : (null : T) → Buffer T → Buffer T
  unfolding empty
  pop null b =
      if not (empty b) then record { raw = set b.raw (b.len - 1) null; len = b.len - 1 } else b

  unfoldable pub clear : (null : T) → Buffer T → Buffer T
  unfolding empty
  clear null b =
      if not (empty b) then record { raw = replicate (length b.raw) null; len = 0 } else b
