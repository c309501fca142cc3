-- ===== src/Process.antt =====
-- Starting a program, `new_process` of kernel/src/process.c: its segments are copied to the space of the
-- program, a thread is made for its entry. The program's file stands in memory at `program`.
mod Tests
use efi_os.Prelude.{
  ℕ, zero, suc, ◌+◌, ◌*◌, ◌^◌, ◌%◌, Option, none, some, List, [], ◌∷◌, ◌==◌, ltb, if◌then◌else◌,
  ◌>>=◌, bit_or, add32,
}
use efi_os.Memory.{Memory, store}
use efi_os.CircularBuffer.{cb_push}
use efi_os.Scheduler.{Registers, Scheduler, new_thread}

-- Two, four and eight bytes, the lowest first.
abbrev load16 : Memory → ℕ → ℕ
load16 m a = m a + 256 * m (a + 1)

abbrev load32 : Memory → ℕ → ℕ
load32 m a = load16 m a + 2 ^ 16 * load16 m (a + 2)

abbrev load64 : Memory → ℕ → ℕ
load64 m a = load32 m a + 2 ^ 32 * load32 m (a + 4)

-- `Elf64_Ehdr`, the fields that are read, by their offsets.
abbrev e_entry : Memory → (program : ℕ) → ℕ
e_entry m program = load64 m (program + 24)

abbrev e_phoff : Memory → (program : ℕ) → ℕ
e_phoff m program = load64 m (program + 32)

abbrev e_phentsize : Memory → (program : ℕ) → ℕ
e_phentsize m program = load16 m (program + 54)

abbrev e_phnum : Memory → (program : ℕ) → ℕ
e_phnum m program = load16 m (program + 56)

-- `Elf64_Phdr`.
abbrev p_type : Memory → (phdr : ℕ) → ℕ
p_type m phdr = load32 m phdr

abbrev p_offset : Memory → (phdr : ℕ) → ℕ
p_offset m phdr = load64 m (phdr + 8)

abbrev p_paddr : Memory → (phdr : ℕ) → ℕ
p_paddr m phdr = load64 m (phdr + 24)

abbrev p_filesz : Memory → (phdr : ℕ) → ℕ
p_filesz m phdr = load64 m (phdr + 32)

abbrev pt_load : ℕ
pt_load = 1

-- The bytes of a segment; `left` is what `i` lacks of its size in the file.
copy_segment : (left : ℕ) → Memory → (target source i : ℕ) → Memory
copy_segment zero m target source i = m
copy_segment (suc left) m target source i =
    copy_segment left (store m (target + i) (m (source + i))) target source (i + 1)

-- The loop over the program headers; its end is read from the header in each round. `none` if the
-- rounds run out.
segment_loop : (rounds : ℕ) → Memory → (program program_space phdrs phdr : ℕ) → Option Memory
unfolding copy_segment
segment_loop zero m program program_space phdrs phdr = none
segment_loop (suc rounds) m program program_space phdrs phdr =
    let m' =
      if p_type m phdr == pt_load
      then copy_segment (p_filesz m phdr) m (program_space + p_paddr m phdr)
          (program + p_offset m phdr) 0
      else m in
    let further =
      segment_loop rounds m' program program_space phdrs (phdr + e_phentsize m' program) in
    if ltb phdr (phdrs + e_phnum m program * e_phentsize m program) then further else some m

load_segments : (rounds : ℕ) → Memory → (program program_space : ℕ) → Option Memory
unfolding segment_loop
load_segments rounds m program program_space =
    let phdrs = program + e_phoff m program in
    segment_loop rounds m program program_space phdrs phdrs

-- What the call sets: the number of the process, the registers of its thread, and rdi of them.
pub record Started : Type 0 where
  pub pid : ℕ
  pub registers : Registers
  pub rdi : ℕ

-- `exe` gives the memory with the file, `th` is the page of the thread, `exit` the address of
-- thread_exit, `ptr` what the program gets in rdi.
pub new_process :
    (rounds attempts : ℕ)
    → Memory
    → Scheduler
    → (program program_space th exit next_pid ptr : ℕ) → Option (Started × Memory × Scheduler)
unfolding load_segments
new_process rounds attempts m s program program_space th exit next_pid ptr = do
  m' ← load_segments rounds m program program_space
  let made = new_thread s th (program_space + e_entry m' program) exit
  (pushed, pool) ← cb_push attempts s.thread_pool (th ∷ [])
  some (
    record {
      pid = next_pid;
      registers = record (made.0) { cs = bit_or 0x20 3; ss = bit_or 0x28 3; flags = 0x2 };
      rdi = ptr;
    },
    m',
    record (made.1) { thread_pool = pool },
  )
