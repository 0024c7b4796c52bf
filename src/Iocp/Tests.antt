-- ===== src/Iocp/Tests.antt =====
-- The theorem about the completion port at a concrete queue.
use magio.IoUring.{Callback}
use magio.Prelude.{ℕ, List, [], ◌∷◌}
use magio.Io.{Operation, blank}
use magio.Iocp.{Packet, woken, done, timed_out, poll_loop}
use magio.Iocp.Rounds.{Accounted, poll_loop-Accounted}

abbrev queue : List Packet
queue =
    woken
    ∷ done (blank Operation.send 55 1) 0 10 []
    ∷ done (blank Operation.accept 56 2) 995 0 []
    ∷ timed_out
    ∷ []

-- The callback makes another request.
abbrev one_more : Callback → ℕ
one_more c = 1

poll_loop-Accounted_example : Accounted one_more 1024 1 queue (poll_loop one_more 1024 1 queue)
poll_loop-Accounted_example = poll_loop-Accounted one_more 1024 1 queue
