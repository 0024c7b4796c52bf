-- ===== src/Handle/Classes.antt =====
-- core/file.cpp, core/pipe.cpp, net/socket.cpp, net/acceptor.cpp: the ledger of handles, for each class.
use magio.Prelude.{ℕ, ◌≡◌, ◌≢◌, true, Option, some}
use magio.Handle.Ownership.{Inv, Move}
use magio.Handle.World.{
  World, Step, Reach, ledger, handle_at, assigned, Reach-Inv, Reach-Move, assign_leaks,
}
use magio.Socket.{Socket, socket_owner}
use magio.Acceptor.{Acceptor, acceptor_owner}
use magio.File.{File, file_owner}
use magio.File.RandomAccess.{RandomAccessFile, random_access_owner}
use magio.Pipe.{Pipe, pipe_owner}

-- However sockets, acceptors, files, random access files and pipes are opened, moved, assigned, closed and
-- destroyed, each handle of an object is open, that object's alone and not lost, and each open handle
-- is an object's or was lost in an assignment: no handle is used or closed after it was closed.
pub handles_owned :
    {s : World Socket} {a : World Acceptor} {f : World File} {x : World RandomAccessFile}
    {p : World Pipe} (indeterminate : Option ℕ)
    → Reach socket_owner s
    → Reach acceptor_owner a
    → Reach file_owner f
    → Reach (random_access_owner indeterminate) x
    → Reach pipe_owner p
    → Inv (ledger socket_owner s)
      × Inv (ledger acceptor_owner a)
      × Inv (ledger file_owner f)
      × Inv (ledger (random_access_owner indeterminate) x)
      × Inv (ledger pipe_owner p)
handles_owned indeterminate s a f x p = (
  Reach-Inv socket_owner s,
  Reach-Inv acceptor_owner a,
  Reach-Inv file_owner f,
  Reach-Inv (random_access_owner indeterminate) x,
  Reach-Inv pipe_owner p,
)

-- From a reachable world of sockets, acceptors, files, random access files or pipes, each step of the
-- objects is a move of the abstract ledger: a handle opened, passed on or given back, and nothing else.
pub steps_refine :
    {s s' : World Socket} {a a' : World Acceptor} {f f' : World File}
    {x x' : World RandomAccessFile} {p p' : World Pipe} (indeterminate : Option ℕ)
    → Reach socket_owner s
    → Step socket_owner s s'
    → Reach acceptor_owner a
    → Step acceptor_owner a a'
    → Reach file_owner f
    → Step file_owner f f'
    → Reach (random_access_owner indeterminate) x
    → Step (random_access_owner indeterminate) x x'
    → Reach pipe_owner p
    → Step pipe_owner p p'
    → Move (ledger socket_owner s) (ledger socket_owner s')
      × Move (ledger acceptor_owner a) (ledger acceptor_owner a')
      × Move (ledger file_owner f) (ledger file_owner f')
      × Move
          (ledger (random_access_owner indeterminate) x)
          (ledger (random_access_owner indeterminate) x')
      × Move (ledger pipe_owner p) (ledger pipe_owner p')
steps_refine indeterminate s ss a sa f sf x sx p sp = (
  Reach-Move socket_owner s ss,
  Reach-Move acceptor_owner a sa,
  Reach-Move file_owner f sf,
  Reach-Move (random_access_owner indeterminate) x sx,
  Reach-Move pipe_owner p sp,
)

-- A file assigned to another one that is open leaves the handle of that one open, and no file has it
-- to close it.
file_assign_leaks :
    {w : World File} (r : Reach file_owner w) (i j h : ℕ)
    → i ≢ j
    → handle_at file_owner w j ≡ some h
    → ((assigned file_owner w i j).is_open h ≡ true)
      × ((k : ℕ) → handle_at file_owner (assigned file_owner w i j) k ≢ some h)
file_assign_leaks r i j h n e = assign_leaks file_owner r i j h n e
