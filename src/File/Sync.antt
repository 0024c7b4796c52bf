-- ===== src/File/Sync.antt =====
-- core/file.cpp: sync_all and sync_data of File and RandomAccessFile, on both systems.
use magio.Prelude.{ℕ, ◌≡◌, refl, Option, none, some}
use magio.File.{File, close}
use magio.File
use magio.File.RandomAccess.{RandomAccessFile}

pub data System : Type 0 where
  windows linux : System

-- The call of the system.
pub data SyncCall : Type 0 where
  fsync fdatasync : (fd : ℕ) → SyncCall

pub file_sync_all : System → ℕ → Option SyncCall
file_sync_all windows h = none
file_sync_all linux h = some (SyncCall.fsync h)

pub file_sync_data : System → ℕ → Option SyncCall
file_sync_data windows h = none
file_sync_data linux h = some (SyncCall.fdatasync h)

abbrev with_handle : Option ℕ → (ℕ → Option SyncCall) → Option SyncCall
with_handle none sync = none
with_handle (some h) sync = sync h

pub sync_all : System → File → Option SyncCall
unfolding file_sync_all
sync_all s f = with_handle f.handle (file_sync_all s)

pub sync_data : System → File → Option SyncCall
unfolding file_sync_data
sync_data s f = with_handle f.handle (file_sync_data s)

pub sync_all_of : System → RandomAccessFile → Option SyncCall
unfolding file_sync_all
sync_all_of s f = with_handle f.handle (file_sync_all s)

pub sync_data_of : System → RandomAccessFile → Option SyncCall
unfolding file_sync_data
sync_data_of s f = with_handle f.handle (file_sync_data s)

quiet : (h : Option ℕ) → with_handle h (λ k. none) ≡ none
quiet none = refl
quiet (some k) = refl

-- On Windows nothing is ever flushed.
windows_flushes_nothing :
    (f : File) (g : RandomAccessFile)
    → (sync_all windows f ≡ none)
      × (sync_data windows f ≡ none)
      × (sync_all_of windows g ≡ none)
      × (sync_data_of windows g ≡ none)
unfolding sync_all sync_data sync_all_of sync_data_of file_sync_all file_sync_data
windows_flushes_nothing f g = (quiet f.handle, quiet f.handle, quiet g.handle, quiet g.handle)

-- A file that is closed asks nothing of the system.
closed_syncs_nothing :
    (s : System) (f : File) → (sync_all s (close f).0 ≡ none) × (sync_data s (close f).0 ≡ none)
unfolding sync_all sync_data
closed_syncs_nothing s f = (rw ((File.close_lem f).1) refl, rw ((File.close_lem f).1) refl)
