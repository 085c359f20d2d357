-- ===== src/Startup/CallStackLaws.antt =====
-- SharedHeap.cpp: the frames that `GetCallStack` leaves.
use sbllmalloc.Shared.{
  ℕ, zero, suc, ◌+◌, ◌-◌, ◌≤◌, ◌<◌, ◌≡◌, refl, ap, ◌∙◌, arith, List, [], ◌∷◌, length, true, ltb,
  ◌==◌, if◌then◌else◌, Bool-cases, inl, inr,
}
use sbllmalloc.Startup.CallStack.{
  LoadRange, outside, first_outside, write, shift_down, filled, get_call_stack,
}

module _ (load : ℕ → ℕ) (r : LoadRange) where
  -- The frames without those at the start that count as the library's
  abbrev pub drop_inside : List ℕ → List ℕ
  drop_inside [] = []
  drop_inside (frame ∷ rest) =
      let dropped = drop_inside rest in if outside load r frame then frame ∷ rest else dropped

  first_outside-le : (frames : List ℕ) → first_outside load r frames ≤ length frames
  unfolding first_outside
  first_outside-le [] = omega arith
  first_outside-le (frame ∷ rest) = ground (arith, first_outside-le rest)

  filled_end : (frames : List ℕ) (k : ℕ) → length frames ≤ k → filled load r frames k ≡ 0
  filled_end [] k past = refl
  filled_end (frame ∷ rest) zero past = absurd (omega arith)
  filled_end (frame ∷ rest) (suc k) past = filled_end rest k (omega arith)

  filled-drop_inside :
      (frames : List ℕ) (k : ℕ)
      → filled load r frames (k + first_outside load r frames)
        ≡ filled load r (drop_inside frames) k
  unfolding first_outside
  filled-drop_inside [] k = refl
  filled-drop_inside (frame ∷ rest) k = elim (Bool-cases (outside load r frame)) [
    | inl here ↦ rw here (ap (filled load r (frame ∷ rest)) (omega arith))
    | inr inside ↦
        let e : k + (first_outside load r rest + 1) ≡ suc (k + first_outside load r rest) =
          omega arith in
        rw inside (ap (filled load r (frame ∷ rest)) e ∙ filled-drop_inside rest k)
  ]

  -- After `n` rounds the frames from `j` on are those from `i` on.
  shift_down-at :
      (n i j : ℕ) (stack : ℕ → ℕ) (k : ℕ)
      → j < i
      → ((m : ℕ) → i + n ≤ m → stack m ≡ 0)
      → shift_down load r n i j stack k ≡ (
          if ltb k j
          then stack k
          else if ltb k (j + n)
          then stack (k + i - j)
          else if ltb k i
          then stack k
          else 0)
  unfolding shift_down
  shift_down-at zero i j stack k less ends = ground (arith, ends k)
  shift_down-at (suc n) i j stack k less ends =
      let moved = write load r (write load r stack j (stack i)) i 0 in
      let later =
        shift_down-at n (i + 1) (j + 1) moved k (omega arith) (λ m past. ground (arith, ends m)) in
      let same : k + (i + 1) - (j + 1) ≡ k + i - j = omega arith in
      let source = ap stack same in
      let here : k ≡ j → stack (k + i - j) ≡ stack i = λ e. ap stack (omega arith) in
      ground (arith, later, ends k, source, here)

  -- With backtraces enabled, `GetCallStack` leaves at the start of the array the frames that are
  -- left when those at the start that count as the library's are dropped; behind them the dropped
  -- frames stay in their places, and all that follows is NULL.
  pub get_call_stack-eq-drop_inside :
      (frames : List ℕ) (k : ℕ)
      → let i = first_outside load r frames in
        get_call_stack load r true frames k ≡ (
          if ltb k (length frames - i)
          then filled load r (drop_inside frames) k
          else if ltb k i
          then filled load r frames k
          else 0)
  unfolding get_call_stack
  get_call_stack-eq-drop_inside frames k =
      let i = first_outside load r frames in
      let dropped = filled-drop_inside frames k in
      let le = first_outside-le frames in
      elim (Bool-cases (i == 0)) [
        | inl none_inside ↦
            let zero_here : k + i ≡ k = ground arith in
            let start = ap (filled load r frames) zero_here in
            rw none_inside (ground (arith, dropped, start, filled_end frames k))
        | inr some_inside ↦
            let shifted =
              shift_down-at (length frames - i) i 0 (filled load r frames) k (ground arith)
                (λ m past. filled_end frames m (omega (arith, le))) in
            let place : k + i - 0 ≡ k + i = omega arith in
            let source = ap (filled load r frames) place in
            rw some_inside (ground (arith, shifted, dropped, source, le))
      ]
