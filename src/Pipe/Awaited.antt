-- ===== src/Pipe/Awaited.antt =====
-- core/pipe.cpp: what the awaitable operations of the pipes hand back, and what the callbacks of the
-- others are given, the error code last.
use magio.Prelude.{ℕ}
use magio.Io.{IoContext}
use magio.Result.{Result, of_value}
use magio.Socket.Awaited.{Resumed}

unfoldable pub read_awaited : (rh : Resumed) → Result ℕ
read_awaited rh = of_value rh.res rh.ec

unfoldable pub write_awaited : (rh : Resumed) → Result ℕ
write_awaited rh = of_value rh.res rh.ec

unfoldable pub read_callback : ℕ → IoContext → ℕ × ℕ
read_callback ec ioc = (ioc.res, ec)

unfoldable pub write_callback : ℕ → IoContext → ℕ × ℕ
write_callback ec ioc = (ioc.res, ec)
