-- ===== src/Vfs/Files/Calls.antt =====
-- The calls of kernel/src/filesystem.c, for the current process.
pub mod RoundTrip
use efi_os.Prelude.{
  ℕ, ◌+◌, ◌-◌, ◌^◌, Bool, true, false, Option, none, some, List, ◌==◌, ◌>>=◌, if◌then◌else◌,
}
use efi_os.Memory.{Memory}
use efi_os.Vfs.{vfs_navigate_to}
use efi_os.Vfs.Cache.{Vfs, Environment, vfs_create_folder, vfs_create_pipe, vfs_open, vfs_close}
use efi_os.Vfs.Files.{
  FileTable, find_entry, file_read, file_write, file_seek, file_fstat, create_file_table_entry,
  remove_file_table_entry,
}

-- The file system, and of the current process its directory and its table.
pub record Session : Type 0 where
  pub vfs : Vfs
  pub working_dir : ℕ
  pub files : FileTable

abbrev with_vfs : Session → ℕ × Vfs → ℕ × Session
with_vfs s (result, v) = (result, record s { vfs = v })

-- `n` is the address of the new node, `cells` the array of its list of children.
pub mkdir :
    (rounds : ℕ) → Session → (n : ℕ) → (cells : Memory) → (pathname : List ℕ) → Option (ℕ × Session)
mkdir rounds s n cells pathname =
    vfs_create_folder rounds s.vfs n s.working_dir cells pathname 0 >>= λ r. some (with_vfs s r)

pub mkfifo : (rounds : ℕ) → Session → (n : ℕ) → (pathname : List ℕ) → Option (ℕ × Session)
mkfifo rounds s n pathname =
    vfs_create_pipe rounds s.vfs n s.working_dir pathname >>= λ r. some (with_vfs s r)

-- 0, or -1 where the path leads nowhere.
pub chdir : (rounds : ℕ) → Session → (path : List ℕ) → Option (ℕ × Session)
chdir rounds s path = do
  to ← vfs_navigate_to rounds s.vfs.nodes s.working_dir path false
  some (if to == 0 then (2 ^ 32 - 1, s) else (0, record s { working_dir = to }))

-- The test for NULL comes behind the use of the pointer in `vfs_open`.
pub open_file :
    (rounds : ℕ) → Environment → Session → (fe : ℕ) → (pathname : List ℕ) → Option (ℕ × Session)
open_file rounds env s fe pathname = do
  (file, v) ← vfs_open rounds env s.vfs s.working_dir pathname
  (fd, ft) ← create_file_table_entry s.files fe file
  some (fd, record s { vfs = v; files = ft })

pub close_file : Session → (fd : ℕ) → Option (ℕ × Session)
close_file s fd = do
  file ← find_entry s.files fd
  (v, ft) ← remove_file_table_entry (vfs_close s.vfs (s.files.file_at file).base) s.files fd
  some (0, record s { vfs = v; files = ft })

pub read : (attempts : ℕ) → Session → (fd buf count : ℕ) → Option (ℕ × Session)
read attempts s fd buf count = do
  (n, v, ft) ← file_read attempts s.vfs s.files fd buf count
  some (n, record s { vfs = v; files = ft })

pub write : (attempts : ℕ) → Session → (fd loc buf count : ℕ) → Option (ℕ × Session)
write attempts s fd loc buf count = do
  (n, v, ft) ← file_write attempts s.vfs s.files fd loc buf count
  some (n, record s { vfs = v; files = ft })

pub fstat : Session → (fd : ℕ) → Option (ℕ × ℕ)
fstat s fd = file_fstat s.vfs s.files fd

-- The result of `file_seek` is dropped.
pub lseek : Session → (fd offset whence : ℕ) → Option (ℕ × Session)
lseek s fd offset whence = do
  (place, ft) ← file_seek s.vfs s.files fd offset whence
  some (0, record s { files = ft })
