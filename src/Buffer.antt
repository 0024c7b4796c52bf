-- ===== src/Buffer.antt =====
-- utils/buffer.h: StaticBuffer. A byte is a number; what the format library prints is an argument
-- of `append_format`. A result of `none` is a write past the end of `buf_`; to write no byte is
-- none.
pub mod Bounds
mod Tests
use magio.Prelude.{
  ℕ, ◌+◌, ◌-◌, ◌%◌, ◌^◌, ◌≡◌, min, Option, none, some, List, [], ◌++◌, leb, ◌==◌, ◌||◌,
  if◌then◌else◌, length, take, drop,
}

-- `data` are the bytes of `buf_` that have been written since the last `clear`.
pub record StaticBuffer : Type 0 where
  pub data_bytes : List ℕ
  pub size : ℕ

abbrev pub empty_buffer : StaticBuffer
empty_buffer = record { data_bytes = []; size = 0 }

abbrev pub clear : StaticBuffer → StaticBuffer
clear b = record b { data_bytes = []; size = 0 }

abbrev pub small_buffer_size : ℕ
small_buffer_size = 400000

abbrev pub large_buffer_size : ℕ
large_buffer_size = 4000000

module _ (Size : ℕ) where
  -- A `size_t`.
  unfoldable pub rest : StaticBuffer → ℕ
  rest b = (Size + 2 ^ 64 - b.size) % 2 ^ 64

  unfoldable pub append : StaticBuffer → List ℕ → Option (StaticBuffer × ℕ)
  append b msg =
      let cplen = min (rest b) (length msg) in
      if leb (b.size + cplen) Size || (cplen == 0)
      then some
          (record { data_bytes = b.data_bytes ++ take cplen msg; size = b.size + cplen }, cplen)
      else none

  -- `vformat_to_n` writes at most `rest()` bytes, and returns the size of the whole text.
  unfoldable pub append_format : StaticBuffer → (text : List ℕ) → Option (StaticBuffer × ℕ)
  append_format b text =
      let n = min (rest b) (length text) in
      if leb (b.size + n) Size || (n == 0)
      then some (
        record { data_bytes = b.data_bytes ++ take n text; size = (b.size + length text) % 2 ^ 64 },
        length text,
      )
      else none

-- `slice()`: the first `size_` bytes.
unfoldable pub slice : StaticBuffer → List ℕ
slice b = take b.size b.data_bytes

pub slice_at : StaticBuffer → (pos count : ℕ) → List ℕ
slice_at b pos count =
    if leb b.size pos then [] else take (min count (b.size - pos)) (drop pos b.data_bytes)
