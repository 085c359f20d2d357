-- ===== src/Tests/Samples.antt =====
-- A tree of three regions, and the pages of a process of rank 1 beside one of rank 0.
use sbllmalloc.Shared.{
  ℕ, ◌+◌, ◌^◌, ◌≡◌, ◌≢◌, sym, ◌∙◌, refl, arith, true, false, [], some, ◌==◌, if◌then◌else◌,
  Bool-cases, inl, inr,
}
use sbllmalloc.Avl.Tree.{Entry, null, node, AvlTreeData}
use sbllmalloc.Avl.Insert.{Fresh}
use sbllmalloc.Avl.Bindings.{bindings}
use sbllmalloc.Avl.Refinement.{IsValid}
use sbllmalloc.Metadata.Sharing.{
  Table, eight, get_sharing_bit, is_other_sharing, count_sharing_procs,
}
use sbllmalloc.Metadata.Address.{Space, heap_bytes}
use sbllmalloc.Metadata.Bitmap.{get_bit, set_bit, set_and_return_bit, reset_and_return_bit}
use sbllmalloc.Pages.Memory.{
  Bytes, Memory, zeros, anonymous, shared_page, unmapped, make_writable, map_shared, same_content,
  same_bytes, backing_bytes,
}
use sbllmalloc.Nodes.CreateLaws.{get_bit-empty}
use sbllmalloc.Merge.Single.{merge_pages, merge_pages-IsSound}
use sbllmalloc.Contents.PageStates.{Agrees, PageState-cast, as_fresh}
use sbllmalloc.Contents.FaultStates.{handle_fault-Agrees}
use sbllmalloc.Contents.SingleStates.{merge_pages-Agrees}
use sbllmalloc.Bits.{count_loop, complement}
use sbllmalloc.Pages.State.{Pages}
use sbllmalloc.Pages.Steps.{fault_page, handle_fault, change_mapping, remap_page, copy_page}
use sbllmalloc.Pages.Account.{IsSound, is_initialized, is_zero}
use sbllmalloc.Pages.StepLaws.Fault.{fault_page-IsSound}
use sbllmalloc.Regions.Aspace.{my_comparator}
use sbllmalloc.Regions.AspaceLaws.{my_comparator-IsComparator}
use sbllmalloc.Regions.Heap.{Heap, threshold}
use sbllmalloc.Merge.Remaps.{System}
use sbllmalloc.Process.Calls.{Process}

abbrev pub fresh : Fresh
fresh = record { creator = 7; call_stack = []; garbage = 1 }

abbrev pub region : ℕ → ℕ → Entry
region key value = record { key = key; value = value; dirty = 0; creator = 7; call_stack = [] }

abbrev pub space : Space
space = record { bottom = 0x10000; top = 0x10000 + heap_bytes }

-- The regions take the pages 1, 2 and 5, and 16 to 19.
abbrev pub tree : AvlTreeData
tree = record {
  root =
      node (region 0x12000 0x1000) 2 (node (region 0x11000 0x1000) 1 null null)
        (node (region 0x15000 0x1000) 1 null null);
  comparator = my_comparator;
  size = 3;
}

pub tree-IsValid : IsValid (2 ^ 63) tree
unfolding bindings
tree-IsValid = record {
  lawful = my_comparator-IsComparator;
  ordered = (
    omega arith,
    omega arith,
    (omega arith, omega arith, tt, tt),
    (omega arith, omega arith, tt, tt),
  );
  counted = refl;
}

-- The process of rank 0 shares the pages 1 and 5.
abbrev pub others : Table
others i = if i == 1 then 1 else if i == 5 then 1 else 0

-- Page 9 holds zeros, the other pages the bytes 7, as do the pages 1 and 5 of the shared file.
abbrev sevens : Bytes
sevens k = 7

abbrev sample_memory : Memory
sample_memory = record {
  frames = λ i. record { backing = anonymous (if i == 9 then zeros else sevens); writable = false };
  shared_file = λ i. if i == 1 then sevens else if i == 5 then sevens else zeros;
}

abbrev start : Pages
start = record {
  num_proc = eight;
  my_rank = 1;
  sharing_processes_info = others;
  shared_page_count = 0;
  all_proc_private_page_count = 2;
  base_case_total_page_count = 2;
  alive_procs = 2;
  initialized_pages_bv = λ i. 0;
  zero_pages_bv = λ i. 0;
  zero_page_count = 0;
  mmap_count = 40;
  memory = sample_memory;
}

nothing_owned : (i : ℕ) → get_sharing_bit eight 1 others i ≡ false
unfolding get_sharing_bit
nothing_owned i = elim (Bool-cases (i == 1)) [
  | inl a ↦ rw a refl
  | inr b ↦ elim (Bool-cases (i == 5)) [ inl c ↦ rw (b, c) refl | inr d ↦ rw (b, d) refl ]
]

start-IsSound : IsSound start
unfolding get_bit
start-IsSound = record {
  known = omega arith;
  fits = λ i. ground arith;
  bytes_initialized = λ i. omega arith;
  bytes_zero = λ i. omega arith;
  zero_initialized = λ i e. e;
  shared_initialized = λ i e. ground (arith, nothing_owned i);
  exclusive = λ i e. nothing_owned i;
}

start-Agrees : Agrees start
start-Agrees i =
    PageState-cast refl (get_bit-empty i) (get_bit-empty i) (nothing_owned i) (as_fresh _)

-- The pages 1 and 5 are written, and page 1 is then shared with the other process.
abbrev one_written : Pages
one_written = handle_fault 5 start

one_written-IsSound : IsSound one_written
unfolding handle_fault
one_written-IsSound = fault_page-IsSound start start-IsSound 5

one_written-Agrees : Agrees one_written
one_written-Agrees = handle_fault-Agrees start 5 start-IsSound start-Agrees (λ e. absurd (cc))

abbrev pub written : Pages
written = handle_fault 1 one_written

pub written-IsSound : IsSound written
unfolding handle_fault
written-IsSound = fault_page-IsSound one_written one_written-IsSound 1

written-Agrees : Agrees written
unfolding handle_fault fault_page change_mapping make_writable set_and_return_bit get_bit set_bit
written-Agrees =
    handle_fault-Agrees one_written 1 one_written-IsSound one_written-Agrees (λ e. absurd (cc))

page_written : is_initialized written 1 ≡ true
unfolding handle_fault fault_page set_and_return_bit reset_and_return_bit get_bit get_sharing_bit
    set_bit
page_written = refl

page_not_zero : is_zero written 1 ≡ false
unfolding handle_fault fault_page set_and_return_bit reset_and_return_bit get_bit get_sharing_bit
    set_bit
page_not_zero = refl

abbrev pub pages : Pages
pages = (merge_pages 1 written).0

pub pages-IsSound : IsSound pages
pages-IsSound = merge_pages-IsSound 1 written written-IsSound page_written page_not_zero

pub pages-Agrees : Agrees pages
pages-Agrees =
    merge_pages-Agrees 1 written written-IsSound page_written page_not_zero written-Agrees

shared_page_frame : (pages.memory.frames 1).backing ≡ shared_page
unfolding handle_fault fault_page change_mapping make_writable merge_pages set_and_return_bit
    reset_and_return_bit get_bit set_bit get_sharing_bit is_other_sharing count_sharing_procs
    count_loop same_content same_bytes backing_bytes map_shared remap_page copy_page complement
shared_page_frame = refl

shared_not_unmapped : shared_page ≢ unmapped
shared_not_unmapped e = absurd (cc)

private_page_frame : (pages.memory.frames 5).backing ≡ anonymous sevens
unfolding handle_fault fault_page change_mapping make_writable merge_pages set_and_return_bit
    reset_and_return_bit get_bit set_bit get_sharing_bit is_other_sharing count_sharing_procs
    count_loop same_content same_bytes backing_bytes map_shared remap_page copy_page complement
private_page_frame = refl

own_not_unmapped : anonymous sevens ≢ unmapped
own_not_unmapped e = absurd (cc)

pub private_page_mapped : (pages.memory.frames 5).backing ≢ unmapped
private_page_mapped e = own_not_unmapped (sym private_page_frame ∙ e)

pub shared_page_mapped : (pages.memory.frames 1).backing ≢ unmapped
shared_page_mapped e = shared_not_unmapped (sym shared_page_frame ∙ e)

abbrev pub system : System
system = record {
  get_shared_region = λ i n. true;
  maps_zero_page = λ i. true;
  maps_buffer = λ i. true;
}

abbrev pub heap : Heap
heap = record {
  is_mpi_initialized = true;
  not_mpi_app = false;
  is_mpi_finalized = false;
  merge_metric = threshold;
  space = space;
  alloc_record = some tree;
  pages = pages;
}

abbrev pub process : Process
process = record {
  heap = heap;
  count_down_timer = 1;
  merge_min_mem_th = 2;
  malloc_ref_freq = 10;
  malloc_ref_counter = 0;
  buffer_of_dirty_pages = [];
}

-- Page 2 is written, and no other process shares it.
