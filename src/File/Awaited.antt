-- ===== src/File/Awaited.antt =====
-- core/file.cpp: what the awaitable operations of File and RandomAccessFile hand back, and what the
-- callbacks of the others do to the file and are given, the error code last.
use magio.Prelude.{ℕ}
use magio.Io.{IoContext}
use magio.Result.{Result, of_value}
use magio.File.{File, read_completed, write_completed}
use magio.Socket.Awaited.{Resumed}

unfoldable pub read_at_awaited : (rh : Resumed) → Result ℕ
read_at_awaited rh = of_value rh.res rh.ec

unfoldable pub write_at_awaited : (rh : Resumed) → Result ℕ
write_at_awaited rh = of_value rh.res rh.ec

unfoldable pub read_at_callback : ℕ → IoContext → ℕ × ℕ
read_at_callback ec ioc = (ioc.res, ec)

unfoldable pub write_at_callback : ℕ → IoContext → ℕ × ℕ
write_at_callback ec ioc = (ioc.res, ec)

unfoldable pub read_awaited : File → (rh : Resumed) → File × Result ℕ
read_awaited f rh = (read_completed f rh.res, of_value rh.res rh.ec)

unfoldable pub write_awaited : File → (rh : Resumed) → File × Result ℕ
write_awaited f rh = (write_completed f rh.res, of_value rh.res rh.ec)

unfoldable pub read_callback : File → ℕ → IoContext → File × (ℕ × ℕ)
read_callback f ec ioc = (read_completed f ioc.res, (ioc.res, ec))

unfoldable pub write_callback : File → ℕ → IoContext → File × (ℕ × ℕ)
write_callback f ec ioc = (write_completed f ioc.res, (ioc.res, ec))
