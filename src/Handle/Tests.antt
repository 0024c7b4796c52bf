-- ===== src/Handle/Tests.antt =====
-- The theorems about handles at concrete worlds.
use magio.Prelude.{zero, ◌≡◌, refl, false, none, some, [], ◌∷◌, arith}
use magio.Handle.Ownership.{Inv, Move}
use magio.Handle.World.{
  World, Reach, here, later, opens, constructs, assigns, closes, ledger, assigned, closed,
}
use magio.Handle.Classes.{handles_owned, steps_refine}
use magio.Handle.Attach.{uses, uses_lem}
use magio.Socket.{Socket, blank_socket, socket_owner}
use magio.Socket
use magio.Acceptor.{blank_acceptor, acceptor_owner}
use magio.File.{blank_file, file_owner}
use magio.File.RandomAccess.{blank, random_access_owner}
use magio.Pipe.{blank_pipe, pipe_owner}
use magio.Handle.{Owner}

abbrev empty_world : {A : Type 0} → A → World A
empty_world a = record { object = λ i. a; is_open = λ h. false; leaked = λ h. false }

record Reached {A : Type 0} (owner : Owner A) : Type 0 where
  world : World A
  reach : Reach owner world

-- Two files with the handles 5 and 6.
abbrev two_files : Reached file_owner
unfolding file_owner
two_files = record {
  world = _;
  reach =
      later
        (later
          (here {w = empty_world blank_file} (record {
            nothing_held = λ i. refl;
            nothing_open = λ h. refl;
            nothing_leaked = λ h. refl;
          }))
          (opens 0 5 (record blank_file { handle = some 5 }) refl refl refl refl))
        (opens 1 6 (record blank_file { handle = some 6 }) refl refl refl refl);
}

zero_ne_one : ¬ (zero ≡ 1)
zero_ne_one e = ground (arith, e)

-- A socket with the handle 5, moved.
abbrev moved_socket : Reached socket_owner
unfolding socket_owner Socket.construct
moved_socket = record {
  world = _;
  reach =
      later
        (later
          (here {w = empty_world blank_socket} (record {
            nothing_held = λ i. refl;
            nothing_open = λ h. refl;
            nothing_leaked = λ h. refl;
          }))
          (opens 0 5 (Socket.construct 5 Socket.v4 Socket.tcp) refl refl refl refl))
        (constructs 0 1 zero_ne_one refl);
}

abbrev no_random : Reached (random_access_owner none)
unfolding random_access_owner
no_random = record {
  world = empty_world blank;
  reach =
      here
        (record { nothing_held = λ i. refl; nothing_open = λ h. refl; nothing_leaked = λ h. refl });
}

abbrev no_pipe : Reached pipe_owner
unfolding pipe_owner
no_pipe = record {
  world = empty_world blank_pipe;
  reach =
      here
        (record { nothing_held = λ i. refl; nothing_open = λ h. refl; nothing_leaked = λ h. refl });
}

abbrev no_acceptor : Reached acceptor_owner
unfolding acceptor_owner
no_acceptor = record {
  world = empty_world blank_acceptor;
  reach =
      here
        (record { nothing_held = λ i. refl; nothing_open = λ h. refl; nothing_leaked = λ h. refl });
}

handles_owned_example :
    Inv (ledger socket_owner moved_socket.world)
    × Inv (ledger acceptor_owner no_acceptor.world)
    × Inv (ledger file_owner two_files.world)
    × Inv (ledger (random_access_owner none) no_random.world)
    × Inv (ledger pipe_owner no_pipe.world)
handles_owned_example =
    handles_owned none moved_socket.reach no_acceptor.reach two_files.reach no_random.reach
      no_pipe.reach

steps_refine_example :
    Move
      (ledger socket_owner moved_socket.world)
      (ledger socket_owner (closed socket_owner moved_socket.world 1))
    × Move
        (ledger acceptor_owner no_acceptor.world)
        (ledger acceptor_owner (closed acceptor_owner no_acceptor.world 0))
    × Move
        (ledger file_owner two_files.world)
        (ledger file_owner (assigned file_owner two_files.world 0 1))
    × Move
        (ledger (random_access_owner none) no_random.world)
        (ledger (random_access_owner none) (closed (random_access_owner none) no_random.world 0))
    × Move (ledger pipe_owner no_pipe.world) (ledger pipe_owner (closed pipe_owner no_pipe.world 0))
steps_refine_example =
    steps_refine none moved_socket.reach (closes 1) no_acceptor.reach (closes 0) two_files.reach
      (assigns 0 1 zero_ne_one) no_random.reach (closes 0) no_pipe.reach (closes 0)

uses_lem_example : uses (some 5) none (3 ∷ 3 ∷ []) ≡ some (some 3, 1)
uses_lem_example = uses_lem 5 3 (3 ∷ [])
