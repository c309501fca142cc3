-- ===== src/Vfs/Files/Calls/RoundTrip.antt =====
-- Bytes through a descriptor: `write`, `lseek` and `read` of kernel/src/filesystem.c.
use efi_os.Vfs.Cache.{Vfs}
