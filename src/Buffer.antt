-- ===== src/Buffer.antt =====
-- string/buffer.h and string/buffer.cpp: the growing buffer that every part writes to. The bytes that
-- were written behind `_M_data` are a list; whether `realloc` succeeds for a size is a parameter.
-- `format` and `vformat`, which go through `vsnprintf`, are not modelled.
pub mod Appends
mod Examples
use gweb_plusplus.Base.{
  ℕ, ◌+◌, ◌*◌, ◌/◌, ◌%◌, Bool, true, false, [], ◌∷◌, ◌++◌, leb, ◌==◌, if◌then◌else◌, size_mod,
  Bytes, length, take, drop,
}

pub record Buffer : Type 0 where
  pub data' : Bytes
  pub size : ℕ
  pub used : ℕ
  pub increment : ℕ

-- `set_buffer_increment`: 0 stands for `DEFAULT_BUFFER_INCREMENT`.
unfoldable pub set_buffer_increment : Buffer → ℕ → Buffer
set_buffer_increment b n = record b { increment = if n == 0 then 64 else n }

-- The constructor.
unfoldable pub new_buffer : ℕ → Buffer
unfolding set_buffer_increment
new_buffer n = set_buffer_increment (record { data' = []; size = 0; used = 0; increment = 0 }) n

pub free : Buffer → Buffer
free b = record b { data' = []; size = 0; used = 0 }

pub reset_buffer : Buffer → Buffer
reset_buffer b = record b { used = 0 }

abbrev pub increment_count : Buffer → ℕ → Buffer
increment_count b n = record b { used = (b.used + n) % size_mod }

-- The bytes at `_M_data + _M_used` are overwritten.
abbrev pub write : Buffer → Bytes → Buffer
write b s = record b { data' = take b.used b.data' ++ s ++ drop (b.used + length s) b.data' }

-- The least multiple of the increment that is not below `n`.
abbrev pub rounded : ℕ → ℕ → ℕ
rounded n increment = (n / increment + (if n % increment == 0 then 0 else 1)) * increment % size_mod

-- The copy behind a successful `allocate`.
abbrev pub write_in : Buffer × Bool → Bytes → Buffer × Bool
write_in r s = if r.1 then (increment_count (write r.0 s) (length s), true) else (r.0, false)

module _ (realloc : ℕ → Bool) where
  unfoldable pub allocate : Buffer → ℕ → Buffer × Bool
  allocate b n =
      let size = (n + b.used) % size_mod in
      if leb size b.size
      then (b, true)
      else if realloc (rounded size b.increment)
      then (record b { size = rounded size b.increment }, true)
      else (b, false)

  pub append_char : Buffer → ℕ → Buffer × Bool
  unfolding allocate
  append_char b c = write_in (allocate b 1) (c ∷ [])

  unfoldable pub append : Buffer → Bytes → Buffer × Bool
  unfolding allocate
  append b s = if length s == 0 then (b, true) else write_in (allocate b (length s)) s

  pub append_nul_terminated_string : Buffer → Bytes → Buffer × Bool
  unfolding allocate
  append_nul_terminated_string b s = write_in (allocate b (length s + 1)) (s ++ (0 ∷ []))
