-- ===== src/Merge/ZeroMapped.antt =====
-- SharedHeap.cpp: the pages that the loop of `RemapToZero` maps.
use sbllmalloc.Shared.{
  ℕ, suc, ◌+◌, ◌≡◌, refl, ◌∙◌, arith, Bool, true, false, ◌⊎◌, inl, inr, Bool-cases,
}
use sbllmalloc.Pages.Memory.{Frame, Memory, zero_page, in_run, map_zero}

abbrev pub zero_frame : Frame
zero_frame = record { backing = zero_page; writable = false }

-- The pages of a run, or those before the first that is refused, are mapped to the zero page.
pub record ZeroMapped (i n : ℕ) (m m' : Memory) (done : Bool) : Type 0 where
  pub same_file : (j : ℕ) → m'.shared_file j ≡ m.shared_file j
  pub elsewhere : (j : ℕ) → in_run i n j ≡ false → m'.frames j ≡ m.frames j
  pub either : (j : ℕ) → (m'.frames j ≡ m.frames j) ⊎ (m'.frames j ≡ zero_frame)
  pub inside : done ≡ true → (j : ℕ) → in_run i n j ≡ true → m'.frames j ≡ zero_frame

pub ZeroMapped-none : (i : ℕ) (m : Memory) → ZeroMapped i 0 m m true
ZeroMapped-none i m = record {
  same_file = λ j. refl;
  elsewhere = λ j out. refl;
  either = λ j. inl refl;
  inside = λ e j here. absurd (ground arith);
}

pub ZeroMapped-refused : (i n : ℕ) (m : Memory) → ZeroMapped i n m m false
ZeroMapped-refused i n m = record {
  same_file = λ j. refl;
  elsewhere = λ j out. refl;
  either = λ j. inl refl;
  inside = λ e j here. absurd (cc);
}

pub ZeroMapped-next :
    (i n : ℕ) (m m' : Memory) (done : Bool)
    → ZeroMapped (i + 1) n (map_zero i m) m' done
    → ZeroMapped i (suc n) m m' done
unfolding map_zero
ZeroMapped-next i n m m' done rest = record {
  same_file = rest.same_file;
  elsewhere = λ j out.
      let later : in_run (i + 1) n j ≡ false = ground arith in
      let other : in_run i 1 j ≡ false = ground arith in rest.elsewhere j later ∙ rw other refl;
  either = λ j. elim (Bool-cases (in_run i 1 j)) [
    | inl here ↦ elim (rest.either j) [ inl e ↦ inr (e ∙ rw here refl) | inr e ↦ inr e ]
    | inr other ↦ elim (rest.either j) [ inl e ↦ inl (e ∙ rw other refl) | inr e ↦ inr e ]
  ];
  inside = λ e j here. elim (Bool-cases (in_run (i + 1) n j)) [
    | inl later ↦ rest.inside e j later
    | inr out ↦
        let first : in_run i 1 j ≡ true = ground arith in rest.elsewhere j out ∙ rw first refl
  ];
}
