-- ===== src/Webmon/MessageBuf.antt =====
-- webmon/data_store.h, `MessageBuf`: a message with its header of eight bytes, and a position in its
-- body. `none` is a failed assertion or a read out of bounds.
use llprof.Base.{
  ℕ, ◌+◌, Bool, Option, some, Text, length, drop, leb, word32, word64, ◌>>=◌, ◌>>◌, assert,
}

pub record MessageBuf : Type 0 where
  pub buf : Text
  pub ptr : ℕ

abbrev pub get_message_type : MessageBuf → Option ℕ
get_message_type m = word32 m.buf

abbrev pub get_message_size : MessageBuf → Option ℕ
get_message_size m = word32 (drop 4 m.buf)

abbrev pub as_string : MessageBuf → Text
as_string m = drop 8 m.buf

-- `GetCurrentBufPtr`: the bytes from the position on.
abbrev pub get_current : MessageBuf → Text
get_current m = drop (m.ptr + 8) m.buf

abbrev pub set_current_ptr : MessageBuf → ℕ → MessageBuf
set_current_ptr m val = record m { ptr = val }

-- The assertion compares with the size of the whole message.
abbrev pub seek : MessageBuf → ℕ → Option MessageBuf
seek m offset = do
  assert (leb (m.ptr + offset) (length m.buf))
  some (record m { ptr = m.ptr + offset })

-- `Get<uint64_t>` and `Get<unsigned int>`
abbrev pub get64 : MessageBuf → Option (ℕ × MessageBuf)
get64 m = do
  assert (leb (8 + m.ptr) (length m.buf))
  v ← word64 (get_current m)
  m' ← seek m 8
  some (v, m')

abbrev pub get32 : MessageBuf → Option (ℕ × MessageBuf)
get32 m = do
  assert (leb (4 + m.ptr) (length m.buf))
  v ← word32 (get_current m)
  m' ← seek m 4
  some (v, m')

-- `IsEOF`: `sz_ - ptr_ - 8 <= 0`, in numbers with a sign.
abbrev pub is_eof : MessageBuf → Bool
is_eof m = leb (length m.buf) (m.ptr + 8)
