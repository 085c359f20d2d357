-- ===== src/Process/FaultNotes.antt =====
-- SharedHeap.cpp: the parts of `SigSegvHandler` under each of the four policies.
use sbllmalloc.Shared.{
  ℕ, ◌<◌, ◌≡◌, refl, sym, ap, ◌∙◌, List, [], ◌∷◌, ◌++◌, length, Option, none, some, ◌==◌,
  Bool-cases, inl, inr,
}
use mathlib.Core.Option
use sbllmalloc.Avl.Tree.{AvlTreeData}
use sbllmalloc.Avl.Assoc.{Region}
use sbllmalloc.Avl.SearchLaws.{bindings-update_range}
use sbllmalloc.Avl.Refinement.{regions}
use sbllmalloc.Metadata.Address.{Space, IsHeap}
use sbllmalloc.Contents.Reads.{Transparent, Transparent-refl}
use sbllmalloc.Contents.BufferedReads.{NoZero, AllInside, merge_by_buffered-Transparent}
use sbllmalloc.Contents.PageStates.{Agrees, StillMapped}
use sbllmalloc.Pages.State.{Pages}
use sbllmalloc.Pages.Account.{IsSound}
use sbllmalloc.Regions.Aspace.{mark_dirty}
use sbllmalloc.Regions.Heap.{MergeMetric, merge_disabled, alloc_frequency, threshold, buffered}
use sbllmalloc.Merge.Remaps.{System}
use sbllmalloc.Merge.ZeroLaws.{AllBuffered}
use sbllmalloc.Merge.Policies.{merge_all}
use sbllmalloc.Merge.PolicyLaws.{AllInHeap, Merged, Merged-refl, merge_all-Merged}
use sbllmalloc.Process.Calls.{Process, buffer_length, note_fault, merge_after_fault, after_merge}
use sbllmalloc.Process.FaultParts.{AllInHeap-update_range, marked_root, merge_by_threshold_cases}

-- What a policy relies on: a tree whose regions lie inside the heap, where it may traverse the tree;
-- addresses inside the heap, and no page that is mapped to the zero page, where it merges the pages of
-- the buffer.
abbrev pub ReadyWith : Space → MergeMetric → Pages → Option AvlTreeData → List ℕ → Type 0
ReadyWith s merge_disabled h r b = Unit {0}
ReadyWith s alloc_frequency h r b = Unit {0}
ReadyWith s threshold h r b = (tree : AvlTreeData) × (r ≡ some tree) × AllInHeap s tree.root
ReadyWith s buffered h r b = AllInside s b × NoZero h

-- It relies on nothing of the pages but that none is mapped to the zero page.
pub ReadyWith-pages :
    (s : Space) (metric : MergeMetric) (h h' : Pages) (r : Option AvlTreeData) (b : List ℕ)
    → (NoZero h → NoZero h')
    → ReadyWith s metric h r b
    → ReadyWith s metric h' r b
ReadyWith-pages s merge_disabled h h' r b keeps ready = tt
ReadyWith-pages s alloc_frequency h h' r b keeps ready = tt
ReadyWith-pages s threshold h h' r b keeps ready = ready
ReadyWith-pages s buffered h h' r b keeps ready = (ready.0, keeps ready.1)

AllInside-append :
    (s : Space) (a : ℕ) (b : List ℕ)
    → s.bottom < a
    → a < s.top
    → AllInside s b
    → AllInside s (b ++ a ∷ [])
AllInside-append s a [] low high inside = (low, high, tt)
AllInside-append s a (t ∷ rest) low high inside =
    (inside.0, inside.1, AllInside-append s a rest low high inside.2)

-- A process after a fault: what the handler can change of it.
abbrev pub served : Process → Pages → Option AvlTreeData → List ℕ → ℕ → ℕ → Process
served p h r b timer least = record p {
  heap = record p.heap { pages = h; alloc_record = r };
  buffer_of_dirty_pages = b;
  count_down_timer = timer;
  merge_min_mem_th = least;
}

abbrev pub noted_as : Process → Pages → Option AvlTreeData → List ℕ → Process
noted_as p h r b = served p h r b p.count_down_timer p.merge_min_mem_th

-- The list of regions, where there is a record.
abbrev pub recorded : Option AvlTreeData → Option (List Region)
recorded r = Option.map regions r

recorded-mark_dirty : (a : ℕ) (r : Option AvlTreeData) → recorded (mark_dirty r a) ≡ recorded r
unfolding mark_dirty
recorded-mark_dirty a none = refl
recorded-mark_dirty a (some tree) =
    ap some
      (bindings-update_range tree.comparator a (λ e. record e { dirty = 1 }) (λ e. refl) tree.root)

-- What the handler notes before it deals with the page.
abbrev Noted : System → ℕ → Process → MergeMetric → Type 0
Noted os a p metric =
    (h : Pages) × (r : Option AvlTreeData) × (b : List ℕ) × (note_fault os a p metric
      ≡ some (noted_as p h r b))
    × IsSound h
    × Agrees h
    × StillMapped p.heap.pages h
    × Transparent p.heap.pages h
    × (recorded r ≡ recorded p.heap.alloc_record)
    × ReadyWith p.heap.space metric h r b

module _ (os : System) (buffers : AllBuffered os) (a : ℕ) (p : Process)
    (sound : IsSound p.heap.pages) (agrees : Agrees p.heap.pages) (low : p.heap.space.bottom < a)
    (high : a < p.heap.space.top) where
  pages_kept :
      (metric : MergeMetric) (r : Option AvlTreeData) (b : List ℕ)
      → note_fault os a p metric ≡ some (noted_as p p.heap.pages r b)
      → recorded r ≡ recorded p.heap.alloc_record
      → ReadyWith p.heap.space metric p.heap.pages r b
      → Noted os a p metric
  pages_kept metric r b e same ready = (
    p.heap.pages,
    r,
    b,
    e,
    sound,
    agrees,
    λ j mapped. mapped,
    Transparent-refl p.heap.pages,
    same,
    ready,
  )

  note_fault-buffered :
      AllInside p.heap.space p.buffer_of_dirty_pages → NoZero p.heap.pages → Noted os a p buffered
  unfolding note_fault
  note_fault-buffered inside no_zero =
      let buffer = p.buffer_of_dirty_pages in
      elim (Bool-cases (length buffer == buffer_length)) [
        | inl full ↦
            let (h, e, sound', no_zero', agrees', still, reads) =
              merge_by_buffered-Transparent os p.heap.space buffers buffer p.heap.pages inside sound
                no_zero agrees in
            (
              h,
              p.heap.alloc_record,
              a ∷ [],
              rw (full, e) refl,
              sound',
              agrees',
              still,
              reads,
              refl,
              ((low, high, tt), no_zero'),
            )
        | inr room ↦
            pages_kept buffered p.heap.alloc_record (buffer ++ a ∷ []) (rw room refl) refl
              (AllInside-append p.heap.space a buffer low high inside, no_zero)
      ]

  pub note_fault-Noted :
      (metric : MergeMetric)
      → ReadyWith p.heap.space metric p.heap.pages p.heap.alloc_record p.buffer_of_dirty_pages
      → Noted os a p metric
  unfolding note_fault marked_root mark_dirty
  note_fault-Noted merge_disabled ready =
      pages_kept merge_disabled p.heap.alloc_record p.buffer_of_dirty_pages refl refl ready
  note_fault-Noted alloc_frequency ready =
      pages_kept alloc_frequency (mark_dirty p.heap.alloc_record a) p.buffer_of_dirty_pages refl
        (recorded-mark_dirty a p.heap.alloc_record) ready
  note_fault-Noted threshold (tree, there, inside) =
      pages_kept threshold (mark_dirty p.heap.alloc_record a) p.buffer_of_dirty_pages refl
        (recorded-mark_dirty a p.heap.alloc_record)
        (
          record tree { root = marked_root tree a },
          ap (λ t. mark_dirty t a) there,
          AllInHeap-update_range tree.comparator a p.heap.space tree.root inside,
        )
  note_fault-Noted buffered ready = note_fault-buffered ready.0 ready.1

-- The merge that may follow the fault.
abbrev AfterFault : System → Process → MergeMetric → Option AvlTreeData → Option Process → Type 0
AfterFault os p metric found result =
    (h : Pages) × (r : Option AvlTreeData) × (timer : ℕ) × (least : ℕ) × (result
      ≡ some (served p h r p.buffer_of_dirty_pages timer least))
    × Merged os p.heap.space p.heap.pages h
    × (recorded r ≡ recorded found)
    × ReadyWith p.heap.space metric h r p.buffer_of_dirty_pages

module _ (os : System) (p : Process) (sound : IsSound p.heap.pages) (heap : IsHeap p.heap.space)
    (buffers : AllBuffered os) where
  no_merge :
      (metric : MergeMetric)
      → ReadyWith p.heap.space metric p.heap.pages p.heap.alloc_record p.buffer_of_dirty_pages
      → AfterFault os p metric p.heap.alloc_record (some p)
  no_merge metric ready = (
    p.heap.pages,
    p.heap.alloc_record,
    p.count_down_timer,
    p.merge_min_mem_th,
    refl,
    Merged-refl os p.heap.space p.heap.pages sound,
    refl,
    ready,
  )

  merge_after_fault-threshold :
      (tree : AvlTreeData)
      → AllInHeap p.heap.space tree.root
      → AfterFault os p threshold (some tree) (merge_after_fault os p threshold (some tree))
  unfolding merge_after_fault
  merge_after_fault-threshold tree inside =
      let (h', done, merged, same, inside', clean) =
        merge_all-Merged os p.heap.space tree p.heap.pages sound heap buffers inside in
      let tree' = (merge_all os p.heap.space tree p.heap.pages).1 in
      merge_by_threshold_cases os p.heap.space
        (λ x.
          AfterFault os p threshold (some tree)
            (after_merge (record p { count_down_timer = x.0; merge_min_mem_th = x.1 }) x.2 x.3))
        p.count_down_timer p.merge_min_mem_th tree p.heap.pages
        (λ t l. (
          p.heap.pages,
          some tree,
          t,
          l,
          refl,
          Merged-refl os p.heap.space p.heap.pages sound,
          refl,
          (tree, refl, inside),
        ))
        (λ t l. (
          h',
          some tree',
          t,
          l,
          ap (λ o. after_merge (record p { count_down_timer = t; merge_min_mem_th = l }) o tree')
              done,
          merged,
          ap some same,
          (tree', refl, inside'),
        ))

  pub merge_after_fault-AfterFault :
      (metric : MergeMetric)
      → ReadyWith p.heap.space metric p.heap.pages p.heap.alloc_record p.buffer_of_dirty_pages
      → AfterFault os p metric p.heap.alloc_record
          (merge_after_fault os p metric p.heap.alloc_record)
  unfolding merge_after_fault
  merge_after_fault-AfterFault merge_disabled ready = no_merge merge_disabled ready
  merge_after_fault-AfterFault alloc_frequency ready = no_merge alloc_frequency ready
  merge_after_fault-AfterFault threshold (tree, there, inside) =
      let (h, r, t, l, e, merged, same, ready') = merge_after_fault-threshold tree inside in
      (
        h,
        r,
        t,
        l,
        ap (merge_after_fault os p threshold) there ∙ e,
        merged,
        same ∙ sym (ap recorded there),
        ready',
      )
  merge_after_fault-AfterFault buffered ready = no_merge buffered ready
