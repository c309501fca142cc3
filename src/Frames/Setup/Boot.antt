-- ===== src/Frames/Setup/Boot.antt =====
-- The map of frames that INIT_PAGING of kernel/src/paging.c builds, before it requests frames for the
-- page tables.
use efi_os.Prelude.{
  ℕ, zero, suc, refl, sym, subst, ◌∙◌, ◌+◌, ◌*◌, ◌/◌, ◌^◌, ◌<◌, ◌≤◌, ◌≡◌, Bool, true, false, none,
  some, List, [], ◌∷◌, arith, ◌==◌, if◌then◌else◌, lt→ltb, ◌&&◌, ◌||◌, not, add64,
}
use efi_os.Memory.{within}
use efi_os.Frames.{Frames, lock_pages, reserve_pages}
use efi_os.Frames.Count.{IsValid, used_below}
use efi_os.Frames.Ranges.{Fits, pages-Ranged, total-lock_pages, total-reserve_pages}
use efi_os.Frames.Setup.{
  Descriptor, efi_conventional_memory, get_memory_size, largest_segment, reserve_segments, all_free,
  init_frames,
}

-- The segments that are reserved fit the map.
pub data SegmentsFit (total : ℕ) : List Descriptor → Type 0 where
  no_more : SegmentsFit total []
  conventional :
      {d : Descriptor} {ds : List Descriptor}
      → (d.descriptor_type == efi_conventional_memory) ≡ true
      → SegmentsFit total ds
      → SegmentsFit total (d ∷ ds)
  reserved :
      {d : Descriptor} {ds : List Descriptor}
      → (d.descriptor_type == efi_conventional_memory) ≡ false
      → Fits total d.physical_start d.number_of_pages
      → SegmentsFit total ds
      → SegmentsFit total (d ∷ ds)

abbrev pub reserved_by : List Descriptor → ℕ → Bool
reserved_by [] x = false
reserved_by (d ∷ ds) x =
    not (d.descriptor_type == efi_conventional_memory)
      && within (d.physical_start / 4096) d.number_of_pages x
    || reserved_by ds x

-- Whether a frame is in use at that point: the first megabyte, the map itself, what the firmware
-- keeps, and the kernel's image.
abbrev pub in_use : (map_start total kernel_start kernel_size : ℕ) → List Descriptor → ℕ → Bool
in_use map_start total kernel_start kernel_size table x =
    within 0 0x100 x
    || within (map_start / 4096) (total / 4096 + 1) x
    || reserved_by table x
    || within (kernel_start / 4096) kernel_size x

get_memory_size-range :
    (table : List Descriptor) (m : ℕ) → m < 2 ^ 64 → get_memory_size m table < 2 ^ 64
unfolding get_memory_size
get_memory_size-range [] m h = h
get_memory_size-range (d ∷ ds) m h =
    get_memory_size-range ds
      (if d.descriptor_type == 0 then m else add64 m (4096 * d.number_of_pages)) (ground arith)

none_used : (f : Frames) (m n : ℕ) → n ≤ m / 4096 + 1 → used_below (all_free f m).pages_used n ≡ 0
none_used f m zero h = refl
none_used f m (suc n) h = ground (arith, none_used f m n (omega arith))

all_free-IsValid :
    (f : Frames) (m : ℕ)
    → m < 2 ^ 64
    → f.used_memory ≡ 0
    → f.reserved_memory ≡ 0
    → f.page_index ≡ 0
    → IsValid m (all_free f m)
all_free-IsValid f m range a b c = record {
  free_range = range;
  taken_range = omega (arith, a, b, none_used f m (m / 4096 + 1) (omega arith));
  all_memory = omega (arith, none_used f m (m / 4096 + 1) (omega arith));
  none_below = λ x lt lt'. absurd (omega (arith, c));
}

record Reserved (memory : ℕ) (ds : List Descriptor) (f g : Frames) : Type 0 where
  valid : IsValid memory g
  total : g.total_pages ≡ f.total_pages
  covered : (x : ℕ) → g.pages_used x ≡ (reserved_by ds x || f.pages_used x)

reserve_segments-Reserved :
    (memory : ℕ) (ds : List Descriptor) (f : Frames)
    → SegmentsFit f.total_pages ds
    → IsValid memory f
    → Reserved memory ds f (reserve_segments f ds)
unfolding reserve_segments
reserve_segments-Reserved memory [] f no_more v = record {
  valid = v;
  total = refl;
  covered = λ x. refl;
}
reserve_segments-Reserved memory (d ∷ ds) f (conventional e fit) v = rw e (
    let k = reserve_segments-Reserved memory ds f fit v in
    record { valid = k.valid; total = k.total; covered = λ x. ground (arith, k.covered x, e) })
reserve_segments-Reserved memory (d ∷ ds) f (reserved e here fit) v =
    let r = (pages-Ranged memory d.physical_start d.number_of_pages f here v).1 in
    let same = total-reserve_pages f d.physical_start d.number_of_pages in
    rw e (
      let k =
        reserve_segments-Reserved memory ds (reserve_pages f d.physical_start d.number_of_pages)
          (subst (λ n. SegmentsFit n ds) (sym same) fit) r.valid in
      record {
        valid = k.valid;
        total = k.total ∙ same;
        covered = λ x. ground (arith, k.covered x, r.covered x, e);
      })

any_of_four :
    (o w r k : Bool)
    → (if k then true else (r || (if w then true else (if o then true else false))))
      ≡ (o || w || r || k)
any_of_four o w r k = ground arith

-- The first part of `INIT_PAGING`, up to the lock of the kernel's image and before the first frame is
-- requested for a page table, started with zero counts on a memory map whose longest segment of
-- conventional memory is at `map_start`, where the first megabyte, the map, the reserved segments and
-- the kernel fit the frames counted: at that point the counts agree with the map, and exactly the
-- frames are in use that are in one of these.
pub init_frames-IsValid :
    (f : Frames) (kernel_start kernel_size : ℕ) (table : List Descriptor) (largest : Descriptor)
    → largest_segment none 0 table ≡ some largest
    → f.used_memory ≡ 0
    → f.reserved_memory ≡ 0
    → f.page_index ≡ 0
    → let m = get_memory_size 0 table in
      let total = m / 4096 + 1 in
      Fits total 0 0x100
      → Fits total largest.physical_start (total / 4096 + 1)
      → SegmentsFit total table
      → Fits total kernel_start kernel_size
      → (g : Frames) × (init_frames f kernel_start kernel_size table ≡ some g)
        × IsValid m g
        × ((x : ℕ)
            → x < total
            → g.pages_used x ≡ in_use largest.physical_start total kernel_start kernel_size table x)
unfolding init_frames
init_frames-IsValid f kernel_start kernel_size table largest found a b c fit1 fit2 fit3 fit4 =
    let m = get_memory_size 0 table in
    let total = m / 4096 + 1 in
    let f0 = all_free f m in
    let r1 =
      (pages-Ranged m 0 0x100 f0 fit1
        (all_free-IsValid f m (get_memory_size-range table 0 (omega arith)) a b c)).1 in
    let f1 = reserve_pages f0 0 0x100 in
    let t1 : f1.total_pages ≡ total = total-reserve_pages f0 0 0x100 in
    let f2 = lock_pages f1 largest.physical_start (f1.total_pages / 4096 + 1) in
    let r2 =
      (pages-Ranged m largest.physical_start (f1.total_pages / 4096 + 1) f1 (rw t1 fit2)
        r1.valid).0 in
    let t2 : f2.total_pages ≡ total =
      total-lock_pages f1 largest.physical_start (f1.total_pages / 4096 + 1) ∙ t1 in
    let r3 =
      reserve_segments-Reserved m table f2 (subst (λ n. SegmentsFit n table) (sym t2) fit3)
        r2.valid in
    let f3 = reserve_segments f2 table in
    let t3 : f3.total_pages ≡ total = r3.total ∙ t2 in
    let r4 = (pages-Ranged m kernel_start kernel_size f3 (rw t3 fit4) r3.valid).0 in
    (
      lock_pages f3 kernel_start kernel_size,
      rw (init_frames, found) refl,
      r4.valid,
      λ x lt.
          r4.covered x
          ∙ rw (r3.covered x, r2.covered x, r1.covered x, lt→ltb x total lt, t1)
              (any_of_four (within 0 0x100 x)
                (within (largest.physical_start / 4096) (total / 4096 + 1) x) (reserved_by table x)
                (within (kernel_start / 4096) kernel_size x)),
    )
