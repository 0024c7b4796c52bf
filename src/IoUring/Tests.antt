-- ===== src/IoUring/Tests.antt =====
-- Runs of the service, and the theorems about it at concrete inputs.
use magio.IoUring.Deliveries.{made, Round, polled-Round}
use magio.Prelude.{
  ℕ, ◌%◌, ◌^◌, length, ◌≡◌, ◌≢◌, refl, some, List, [], ◌∷◌, pos, negsuc, true, arith,
}
use magio.Io.{user}
use magio.IoService
use magio.IoUring.{
  Entry, IoUring, Callback, Prepared, request, wake_read, completed, settle, settle_op, handle_cqe,
  construct, prepare, prep_wake_up,
}
use magio.IoUring
use magio.IoUring.Poll.{Call, Kernel, Polled, poll, call, calls, serve_one, serve}
use magio.IoUring.Count.{Balanced, construct-Balanced}
use magio.IoUring.Completion.{request_of, message_failure_misdirected}
use magio.IoUring.Pending.{pending}
use magio.IoUring.History.{History, Reach, here, later, asks, polls, Accounted, requests_answered}
use magio.IoUring.Room.{poll_serves}

-- A service with a read in flight, whose callback asks for another one.
abbrev reading : Call
reading = Call.read_file 7 100 10 0 55 1

abbrev again : Callback → List Call
again c = reading ∷ []

abbrev fresh : IoUring
fresh = record { entries = 8; io_num = 0; sq = wake_read ∷ []; in_flight = []; event = 0 }

abbrev waiting : IoUring
unfolding IoService.read_file
waiting = record {
  entries = 8;
  io_num = 1;
  sq = [];
  in_flight = wake_read ∷ request (IoUring.read 7 100 10 0) (IoService.read_file 100 10 55 1) ∷ [];
  event = 0;
}

abbrev arrived : Kernel
arrived = record {
  ret = pos 1;
  submitted = true;
  completions = record { index = 1; res = pos 10; peer = [] } ∷ [];
}

fresh-Balanced : Balanced fresh
unfolding construct prep_wake_up prepare
fresh-Balanced = construct-Balanced 8 fresh refl

waiting-Balanced : Balanced waiting
unfolding IoService.read_file waiting
waiting-Balanced = record { counted = refl; armed = refl }

poll_serves_example : (x : Polled) × (poll again waiting 1000 arrived ≡ some x) × Balanced x.ring
unfolding IoService.read_file waiting
poll_serves_example =
    poll_serves again 1 (λ c. omega arith) waiting 1000 arrived waiting-Balanced (ground arith)

abbrev datagram : Call
datagram = Call.send_to 7 (2 ∷ 0 ∷ []) 100 10 55 1

message_failure_misdirected_example :
    (let back = completed [] (request_of datagram) (negsuc 4) in
      (back.cb ≡ 1) × ((p : ℕ) → back.ptr ≢ user p))
message_failure_misdirected_example = message_failure_misdirected datagram [] 4 refl

-- A request is made and answered, and its callback has made another one.
record Run : Type 0 where
  last : History again
  reach : Reach again last

abbrev served : Run
unfolding construct prep_wake_up prepare call serve_one serve poll handle_cqe completed settle
    settle_op IoUring.read_file IoService.read_file calls
served = record {
  last = _;
  reach = later (later (here 8 fresh refl) (asks reading _ refl)) (polls 1000 arrived _ refl);
}

requests_answered_example :
    Accounted again served.last
    × (served.last.ring.io_num ≡ length (pending served.last.ring) % 2 ^ 64)
requests_answered_example = requests_answered again served.reach

-- The read that the callback has made is prepared; the next round submits it, and its callback is
-- due.
abbrev arrives_again : Kernel
arrives_again = record {
  ret = pos 1;
  submitted = true;
  completions = record { index = 1; res = negsuc 4; peer = [] } ∷ [];
}

abbrev served_again : (x : Polled) × (poll again served.last.ring 1000 arrives_again ≡ some x)
unfolding served construct prep_wake_up prepare call serve_one serve poll handle_cqe completed
    settle settle_op IoUring.read_file IoService.read_file calls
served_again = (_, refl)

polled-Round_example :
    Round again (made again served.reach) served.last.ring arrives_again served_again.0
polled-Round_example =
    polled-Round again served.reach 1000 arrives_again served_again.0 served_again.1
