-- ===== src/Vfs/Cache/ReadWrite.antt =====
-- Writing a file of kernel/src/vfs.c and reading it back.
use efi_os.Prelude.{
  ℕ, refl, sym, ap, subst, ◌∙◌, ◌+◌, ◌-◌, ◌^◌, ◌<◌, ◌≤◌, ◌≡◌, ◌≢◌, ◌⊎◌, inl, inr, true, false,
  Bool-cases, some, arith, ltb, ◌==◌, if◌then◌else◌, not, bit_and, min, max, add64,
}
use efi_os.Memory.{Memory, memset, memcpy, within}
use efi_os.Memory.Copy.{memcpy-Copied}
use efi_os.Memory.Fill.{memset-Filled}
use efi_os.Vfs.{VfsNode, has_flag, vfs_file, vfs_pipe}
use efi_os.Vfs.Cache.{
  Vfs, krealloc, round_4K, grow_cache, vfs_file_read, vfs_file_write, vfs_read, vfs_write,
}

-- Two ranges without a common address.
abbrev pub Apart : (a n b m : ℕ) → Type 0
Apart a n b m = (a + n ≤ b) ⊎ (b + m ≤ a)

-- A file that is open, and a segment `loc` of the heap that is not in use.
pub record IsOpen (v : Vfs) (file loc : ℕ) : Type 0 where
  pub no_pipe : has_flag (v.nodes file) vfs_pipe ≡ false
  pub is_file : has_flag (v.nodes file) vfs_file ≡ true
  pub small : (v.nodes file).size + 8192 < 2 ^ 64
  pub cached : round_4K (v.nodes file).size ≤ v.segment_len (v.nodes file).data_cache
  pub given : loc ≢ 0
  pub unused :
      Apart loc
        (round_4K (v.nodes file).size + 4096)
        (v.nodes file).data_cache
        (v.segment_len (v.nodes file).data_cache)

-- A buffer of the caller, apart from the cache and from the unused segment.
pub record IsBuffer (v : Vfs) (file loc buf count : ℕ) : Type 0 where
  pub from_cache :
      Apart buf count (v.nodes file).data_cache (v.segment_len (v.nodes file).data_cache)
  pub from_new : Apart buf count loc (round_4K (v.nodes file).size + 4096)

-- The cache with room for a write that goes at most a page behind the file's pages.
record Grown (v v1 : Vfs) (file loc offset count cache : ℕ) : Type 0 where
  node : v1.nodes file ≡ record (v.nodes file) { data_cache = cache }
  room : offset + count ≤ v1.segment_len cache
  bytes :
      (i : ℕ)
      → i < (v.nodes file).size
      → v1.memory (cache + i) ≡ v.memory ((v.nodes file).data_cache + i)
  others :
      (x : ℕ)
      → (x < loc) ⊎ (loc + (round_4K (v.nodes file).size + 4096) ≤ x)
      → v1.memory x ≡ v.memory x
  where_cached :
      ((cache ≡ (v.nodes file).data_cache) × (v1.segment_len cache ≡ v.segment_len cache))
      ⊎ ((cache ≡ loc) × (v1.segment_len cache ≡ round_4K (v.nodes file).size + 4096))

round_4K-le : (x : ℕ) → x + 8192 < 2 ^ 64 → (x ≤ round_4K x) × (round_4K x ≤ x + 4095)
round_4K-le x h = (omega arith, omega arith)

-- The segment of a new length that has the bytes of the old one.
krealloc-memory :
    (v : Vfs) (loc adr size x : ℕ)
    → Apart loc size adr (v.segment_len adr)
    → (krealloc v loc adr size).memory x ≡ (
        if within loc (min size (v.segment_len adr)) x
        then v.memory (x - loc + adr)
        else if within loc size x
        then 0
        else v.memory x)
unfolding krealloc
krealloc-memory v loc adr size x apart =
    let n = min size (v.segment_len adr) in
    let cleared = memset v.memory loc 0 size in
    ground (
      arith,
      memcpy-Copied cleared loc adr n (omega arith) x,
      memset-Filled v.memory loc 0 size x,
      memset-Filled v.memory loc 0 size (x - loc + adr),
    )

grow_cache-Grown :
    (v : Vfs) (file loc offset count : ℕ)
    → IsOpen v file loc
    → offset + count ≤ round_4K (v.nodes file).size + 4096
    → (cache : ℕ) × Grown v (grow_cache v file loc offset count) file loc offset count cache
unfolding grow_cache krealloc
grow_cache-Grown v file loc offset count h near =
    let n = v.nodes file in
    let (above, close) = round_4K-le n.size h.small in
    let exact : add64 offset count ≡ offset + count = omega (arith, near, close, h.small) in
    let given : (loc == 0) ≡ false = ground (arith, h.given) in
    let same : (file == file) ≡ true = ground arith in
    let S = round_4K n.size + 4096 in
    let krealloc_byte : (i : ℕ)
        → i < n.size
        → (krealloc v loc n.data_cache S).memory (loc + i) ≡ v.memory (n.data_cache + i) =
      λ i small.
        krealloc-memory v loc n.data_cache S (loc + i) h.unused
        ∙ ground (
          arith,
          h.cached,
          ap v.memory {x = loc + i - loc + n.data_cache} {y = n.data_cache + i} (omega arith),
        ) in
    elim (Bool-cases (ltb (round_4K n.size) (add64 offset count))) [
      | inr e ↦ (
        n.data_cache,
        rw e (record {
          node = refl;
          room = ground (arith, h.cached, exact);
          bytes = λ i small. refl;
          others = λ x out. refl;
          where_cached = inl (refl, refl);
        }),
      )
      | inl e ↦ (
        loc,
        rw e (
            rw given (record {
              node = rw same refl;
              room = ground arith;
              bytes = λ i small. krealloc_byte i small;
              others = λ x out. krealloc-memory v loc n.data_cache S x h.unused ∙ ground arith;
              where_cached = inr (refl, ground arith);
            })),
      )
    ]

-- The node and the memory behind a write.
record Stored (v v1 : Vfs) (file buf offset count cache : ℕ) (between : Memory) : Type 0 where
  cached : (v1.nodes file).data_cache ≡ cache
  new_size : (v1.nodes file).size ≡ max (v.nodes file).size (offset + count)
  same_flags : (v1.nodes file).flags ≡ (v.nodes file).flags
  memory :
      (x : ℕ)
      → v1.memory x ≡ (
          if within (cache + offset) count x
          then between (x - (cache + offset) + buf)
          else between x)

-- The size that a write leaves.
resized :
    (n : VfsNode) (offset count : ℕ)
    → offset + count < 2 ^ 64
    → let n' =
        if ltb n.size (add64 offset count) then record n { size = add64 offset count } else n in
      (n'.data_cache ≡ n.data_cache)
      × (n'.size ≡ max n.size (offset + count))
      × (n'.flags ≡ n.flags)
resized n offset count h =
    let exact : add64 offset count ≡ offset + count = omega (arith, h) in
    elim (Bool-cases (ltb n.size (add64 offset count))) [
      | inl e ↦ rw e (refl, ground arith, refl)
      | inr e ↦ rw e (refl, ground arith, refl)
    ]

vfs_file_write-Stored :
    (v : Vfs) (file loc buf offset count cache : ℕ)
    → (grow_cache v file loc offset count).nodes file ≡ record (v.nodes file) { data_cache = cache }
    → offset + count < 2 ^ 64
    → Apart (cache + offset) count buf count
    → Stored v
        (vfs_file_write v file loc buf offset count).1
        file
        buf
        offset
        count
        cache
        (grow_cache v file loc offset count).memory
unfolding vfs_file_write
vfs_file_write-Stored v file loc buf offset count cache e h apart =
    let g = grow_cache v file loc offset count in
    let same : (file == file) ≡ true = ground arith in
    let (same_cache, size, flags) = resized (g.nodes file) offset count h in
    let at = same_cache ∙ ap (λ (n : VfsNode). n.data_cache) e in
    record {
      cached = rw same at;
      new_size = rw same (size ∙ ap (λ (n : VfsNode). max n.size (offset + count)) e);
      same_flags = rw same (flags ∙ ap (λ (n : VfsNode). n.flags) e);
      memory = λ x.
          ap (λ (d : ℕ). memcpy g.memory (d + offset) buf count x) at
          ∙ memcpy-Copied g.memory (cache + offset) buf count (ground arith) x;
    }

-- What a write and a read of the same place leave.
pub record Rewritten (v v1 v2 : Vfs) (file buf buf2 offset count : ℕ) : Type 0 where
  pub bytes : (i : ℕ) → i < count → v2.memory (buf2 + i) ≡ v.memory (buf + i)
  pub inside : offset + count ≤ v1.segment_len (v1.nodes file).data_cache
  pub new_size : (v1.nodes file).size ≡ max (v.nodes file).size (offset + count)
  pub kept :
      (i : ℕ)
      → i < (v.nodes file).size
      → (i < offset) ⊎ (offset + count ≤ i)
      → v1.memory ((v1.nodes file).data_cache + i) ≡ v.memory ((v.nodes file).data_cache + i)

cache-Apart :
    (v g : Vfs) (file loc buf offset count cache : ℕ)
    → Grown v g file loc offset count cache
    → IsBuffer v file loc buf count
    → Apart (cache + offset) count buf count
cache-Apart v g file loc buf offset count cache k b = elim k.where_cached [
  | inl (e, same) ↦
      let len : g.segment_len cache ≡ v.segment_len (v.nodes file).data_cache =
        same ∙ ap v.segment_len e in
      omega (arith, e, len, k.room, b.from_cache)
  | inr (e, len) ↦ omega (arith, e, len, k.room, b.from_new)
]

has_flag-flags :
    (n n' : VfsNode) (flag : ℕ) → n.flags ≡ n'.flags → has_flag n flag ≡ has_flag n' flag
has_flag-flags n n' flag e = ap (λ (f : ℕ). not (bit_and f flag == 0)) e

-- The read, by what the write left.
read_back :
    (attempts : ℕ) (v g v1 : Vfs) (file loc buf buf2 offset count cache : ℕ)
    → IsOpen v file loc
    → offset + count < 2 ^ 64
    → IsBuffer v file loc buf count
    → IsBuffer v file loc buf2 count
    → Grown v g file loc offset count cache
    → v1.segment_len ≡ g.segment_len
    → Stored v v1 file buf offset count cache g.memory
    → (v2 : Vfs) × (vfs_read attempts v1 file buf2 offset count ≡ some (count, v2))
      × Rewritten v v1 v2 file buf buf2 offset count
unfolding vfs_read vfs_file_read
read_back attempts v g v1 file loc buf buf2 offset count cache h small b b2 k lens s =
    let n1 = v1.nodes file in
    let fits : ltb n1.size (add64 offset count) ≡ false = ground (arith, s.new_size) in
    let no_pipe = has_flag-flags n1 (v.nodes file) vfs_pipe s.same_flags ∙ h.no_pipe in
    let is_file = has_flag-flags n1 (v.nodes file) vfs_file s.same_flags ∙ h.is_file in
    let apart = cache-Apart v g file loc buf2 offset count cache k b2 in
    let v2 = record v1 { memory = memcpy v1.memory buf2 (n1.data_cache + offset) count } in
    let copied : (i : ℕ)
        → i < count
        → (if within buf2 count (buf2 + i)
            then v1.memory (buf2 + i - buf2 + (cache + offset))
            else v1.memory (buf2 + i))
          ≡ v.memory (buf + i) =
      λ i less.
        let here : within buf2 count (buf2 + i) ≡ true = ground arith in
        let place : within (cache + offset) count (buf2 + i - buf2 + (cache + offset)) ≡ true =
          ground arith in
        rw here (
          s.memory (buf2 + i - buf2 + (cache + offset))
          ∙ rw place (
              ap g.memory {x = buf2 + i - buf2 + (cache + offset) - (cache + offset) + buf}
                {y = buf + i} (omega arith)
              ∙ k.others (buf + i) (omega (arith, b.from_new)))) in
    (
      v2,
      rw no_pipe (rw is_file (rw fits refl)),
      record {
        bytes = λ i less.
            ap (λ (c : ℕ). memcpy v1.memory buf2 (c + offset) count (buf2 + i)) s.cached
            ∙ memcpy-Copied v1.memory buf2 (cache + offset) count (omega (arith, apart)) (buf2 + i)
            ∙ copied i less;
        inside =
            subst (λ (l : ℕ → ℕ). offset + count ≤ l n1.data_cache) (sym lens)
              (subst (λ (c : ℕ). offset + count ≤ g.segment_len c) (sym s.cached) k.room);
        new_size = s.new_size;
        kept = λ i less away.
            ap (λ (c : ℕ). v1.memory (c + i)) s.cached
            ∙ s.memory (cache + i)
            ∙ ground (arith, k.bytes i less);
      },
    )

-- A write to an open file that ends at most a page behind the pages of its size, of bytes apart from the cache:
-- `vfs_write` and then `vfs_read` at the same place, into a buffer apart from the cache too, both give the number of bytes, and the
-- buffer has the bytes that were written. The write stays in the cache's segment, the size is the larger of the old size and the
-- end of the write, and the file's other bytes are what they were.
pub vfs_read-vfs_write :
    (attempts : ℕ) (v : Vfs) (file loc buf buf2 offset count : ℕ)
    → IsOpen v file loc
    → offset + count ≤ round_4K (v.nodes file).size + 4096
    → IsBuffer v file loc buf count
    → IsBuffer v file loc buf2 count
    → (v1 v2 : Vfs) × (vfs_write attempts v file loc buf offset count ≡ some (count, v1))
      × (vfs_read attempts v1 file buf2 offset count ≡ some (count, v2))
      × Rewritten v v1 v2 file buf buf2 offset count
unfolding vfs_write vfs_file_write
vfs_read-vfs_write attempts v file loc buf buf2 offset count h near b b2 =
    let (cache, k) = grow_cache-Grown v file loc offset count h near in
    let (above, close) = round_4K-le (v.nodes file).size h.small in
    let small : offset + count < 2 ^ 64 = omega (arith, near, close, h.small) in
    let g = grow_cache v file loc offset count in
    let v1 = (vfs_file_write v file loc buf offset count).1 in
    let (v2, read, again) =
      read_back attempts v g v1 file loc buf buf2 offset count cache h small b b2 k refl (
        vfs_file_write-Stored v file loc buf offset count cache k.node small
          (cache-Apart v g file loc buf offset count cache k b)) in
    (v1, v2, rw h.no_pipe (rw h.is_file refl), read, again)
