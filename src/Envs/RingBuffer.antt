-- ===== src/Envs/RingBuffer.antt =====
-- `RingBuffer` of envs/common_utils.hh: a queue in a vector that is written round and round. The
-- vector is a function of its index; what stands in it before the first write is a parameter.
-- Indices are below twice the capacity, so that no sum overflows for a capacity below 2 ^ 63.
pub mod Contents
pub mod Operations
pub mod Refines
use gz_drl.Base.{
  ℕ, zero, suc, ◌+◌, ◌-◌, ◌%◌, min, Bool, true, false, ◌||◌, List, [], ◌∷◌, Option, none, some,
  Result, ok, throws, invalid_argument, leb, ltb, nat_beq, if◌then◌else◌, write,
}

module _ {ℓ} (A : Type ℓ) where
  pub record RingBuffer : Type ℓ where
    pub capacity : ℕ
    pub buffer : ℕ → A
    pub write_idx : ℕ
    pub size : ℕ

module _ {ℓ} {A : Type ℓ} where
  unfoldable pub make : A → ℕ → Result (RingBuffer A)
  make blank capacity =
      if nat_beq capacity 0
      then throws invalid_argument
      else ok (record { capacity = capacity; buffer = λ i. blank; write_idx = 0; size = 0 })

  unfoldable pub push_overwrite : A → RingBuffer A → RingBuffer A
  push_overwrite value r = record {
    capacity = r.capacity;
    buffer = write r.buffer r.write_idx value;
    write_idx = (r.write_idx + 1) % r.capacity;
    size = if ltb r.size r.capacity then suc r.size else r.size;
  }

  unfoldable pub push : A → RingBuffer A → Bool × RingBuffer A
  push value r = if leb r.capacity r.size then (false, r) else (
    true,
    record {
      capacity = r.capacity;
      buffer = write r.buffer r.write_idx value;
      write_idx = (r.write_idx + 1) % r.capacity;
      size = suc r.size;
    },
  )

  unfoldable pub pop : RingBuffer A → Option A × RingBuffer A
  pop r =
      if nat_beq r.size 0
      then (none, r)
      else let read_idx = (r.write_idx + r.capacity - r.size) % r.capacity in
        (some (r.buffer read_idx), record r { size = r.size - 1 })

  unfoldable pub empty : RingBuffer A → Bool
  empty r = nat_beq r.size 0

  unfoldable pub full : RingBuffer A → Bool
  full r = nat_beq r.size r.capacity

  -- The loop of `peek_latest` over `i`, …, `i + n - 1`: what it writes.
  unfoldable pub copy_from : (ℕ → A) → ℕ → ℕ → ℕ → ℕ → List A
  copy_from buffer capacity start_idx i zero = []
  copy_from buffer capacity start_idx i (suc n) =
      buffer ((start_idx + i) % capacity) ∷ copy_from buffer capacity start_idx (suc i) n

  -- How many elements are copied, and the elements.
  unfoldable pub peek_latest : ℕ → RingBuffer A → ℕ × List A
  unfolding copy_from
  peek_latest n r =
      if nat_beq r.size 0 || nat_beq n 0
      then (0, [])
      else let count = min n r.size in
        let start_offset = r.size - count in
        let start_idx = (r.write_idx + r.capacity - r.size + start_offset) % r.capacity in
        (count, copy_from r.buffer r.capacity start_idx 0 count)

  -- The loop of `peek_latest_reverse` over `i`, …, `i + n - 1`.
  unfoldable pub copy_back : (ℕ → A) → ℕ → ℕ → ℕ → ℕ → List A
  copy_back buffer capacity write_idx i zero = []
  copy_back buffer capacity write_idx i (suc n) =
      buffer ((write_idx + capacity - 1 - i) % capacity)
      ∷ copy_back buffer capacity write_idx (suc i) n

  unfoldable pub peek_latest_reverse : ℕ → RingBuffer A → ℕ × List A
  unfolding copy_back
  peek_latest_reverse n r =
      if nat_beq r.size 0 || nat_beq n 0
      then (0, [])
      else let count = min n r.size in (count, copy_back r.buffer r.capacity r.write_idx 0 count)
