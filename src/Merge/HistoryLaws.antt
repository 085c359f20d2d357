-- ===== src/Merge/HistoryLaws.antt =====
-- SharedHeap.cpp: the rounds of `CheckIfMergeable`, and the times at which it allows a merge.
use Prim.Native.Nat.{bit_and}
use sbllmalloc.Shared.{
  ℕ, zero, suc, ◌+◌, ◌*◌, ◌/◌, ◌%◌, ◌^◌, ◌≤◌, ◌<◌, ◌≡◌, refl, ap, ◌∙◌, arith, true, false, ltb,
  ◌==◌, if◌then◌else◌, Bool-cases, inl, inr,
}
use sbllmalloc.Bits.{to_bool, two_pow-suc}
use sbllmalloc.Merge.History.{
  MergeHistory, merge_cost, time_since, history_loop, total_merge_time, check_if_mergeable,
}

-- More rounds change nothing.
abbrev Enough : ℕ → ℕ → Type 0
Enough fuel hist =
    (more merge_time total : ℕ)
    → history_loop (fuel + more) hist merge_time total ≡ history_loop fuel hist merge_time total

Enough-zero : (hist : ℕ) → hist ≡ 0 → Enough 0 hist
unfolding history_loop
Enough-zero hist e more merge_time total =
    ap (λ f. history_loop f hist merge_time total) (omega arith) ∙ go more
  where
    go : (f : ℕ) → history_loop f hist merge_time total ≡ total
    go zero = refl
    go (suc f) = let gone : (hist == 0) ≡ true = ground arith in rw gone

Enough-suc : (fuel hist : ℕ) → Enough fuel (hist * 2 % 2 ^ 8) → Enough (suc fuel) hist
unfolding history_loop
Enough-suc fuel hist enough more merge_time total =
    let e : suc fuel + more ≡ suc (fuel + more) = omega arith in
    ap (λ f. history_loop f hist merge_time total) e
    ∙ ap (λ r. if hist == 0 then total else r) (enough more _ _)

-- The loop of `CheckIfMergeable` over a history of one byte ends within 8 rounds: more fuel gives
-- the same total.
pub history_loop-ends :
    (hist more merge_time total : ℕ)
    → hist < 2 ^ 8
    → history_loop (8 + more) hist merge_time total ≡ history_loop 8 hist merge_time total
history_loop-ends hist more merge_time total byte =
    Enough-suc 7 _
      (Enough-suc 6 _ (
        Enough-suc 5 _ (
          Enough-suc 4 _ (
            Enough-suc 3 _
              (Enough-suc 2 _ (Enough-suc 1 _ (Enough-suc 0 _ (Enough-zero _ (omega arith)))))))))
      more merge_time total

power_pos : (f : ℕ) → 0 < 2 ^ f
power_pos zero = omega arith
power_pos (suc f) = omega (arith, two_pow-suc f, power_pos f)

times_power : (t f : ℕ) → t * 2 ^ suc f ≡ 2 * (t * 2 ^ f)
times_power t f = rw (two_pow-suc f) (grind arith)

twice_power : (t f : ℕ) → t * 2 * 2 ^ f ≡ 2 * (t * 2 ^ f)
twice_power t f = grind arith

less_power : (t u f : ℕ) → u ≤ t → u * 2 ^ f + t ≤ t * 2 ^ f + u
less_power t u f le = go t u (2 ^ f) le (power_pos f)
  where
    go : (a b p : ℕ) → b ≤ a → 0 < p → b * p + a ≤ a * p + b
    go a b (suc p) le some_power =
        let low : b * p ≤ a * p = grind arith in
        let first : a * suc p ≡ a * p + a = grind arith in
        let second : b * suc p ≡ b * p + b = grind arith in omega (arith, low, first, second)
    go a b zero le some_power = absurd (omega arith)

-- The sum stays between its start and what a history of ones gives.
Between : ℕ → ℕ → ℕ → ℕ → Type 0
Between fuel merge_time total r = (total ≤ r) × (r + merge_time ≤ total + merge_time * 2 ^ fuel)

history_loop-Between :
    (fuel hist merge_time total : ℕ)
    → merge_time * 2 ^ fuel < 2 ^ 32
    → total + merge_time * 2 ^ fuel < 2 ^ 32 + merge_time
    → Between fuel merge_time total (history_loop fuel hist merge_time total)
unfolding history_loop Between
history_loop-Between zero hist merge_time total first second = (omega arith, omega arith)
history_loop-Between (suc fuel) hist t total first second =
    let doubled = times_power t fuel in
    let moved = twice_power t fuel in
    let some_power = less_power t 0 fuel (omega arith) in
    elim (Bool-cases (hist == 0)) [
      | inl gone ↦ rw gone (omega arith, omega (arith, doubled, some_power))
      | inr more ↦ elim (Bool-cases (to_bool (bit_and hist 0x80))) [
        | inl unstable ↦
            let sum : (total + t) % 2 ^ 32 ≡ total + t = omega (arith, doubled, some_power) in
            let time : t * 2 % 2 ^ 32 ≡ t * 2 = omega (arith, doubled, some_power) in
            let rest =
              history_loop-Between fuel (hist * 2 % 2 ^ 8) (t * 2) (total + t)
                (omega (arith, doubled, moved)) (omega (arith, doubled, moved)) in
            rw (more, unstable, sum, time)
              (omega (arith, rest.0), omega (arith, rest.1, doubled, moved))
        | inr stable ↦ elim (Bool-cases (ltb 1 t)) [
          | inl large ↦
              let fewer = less_power t (t / 2) fuel (omega arith) in
              let rest =
                history_loop-Between fuel (hist * 2 % 2 ^ 8) (t / 2) total
                  (omega (arith, doubled, fewer, some_power))
                  (omega (arith, doubled, fewer, some_power)) in
              rw (more, stable, large) (rest.0, omega (arith, rest.1, doubled, fewer, some_power))
          | inr small ↦
              let rest =
                history_loop-Between fuel (hist * 2 % 2 ^ 8) t total
                  (omega (arith, doubled, some_power)) (omega (arith, doubled, some_power)) in
              rw (more, stable, small) (rest.0, omega (arith, rest.1, doubled, some_power))
        ]
      ]
    ]

-- The longest time, 256 times the cost of a merge
abbrev pub longest_time : ℕ
longest_time = 256 * merge_cost

total_merge_time-le : (hist : ℕ) → total_merge_time hist ≤ longest_time
unfolding total_merge_time Between
total_merge_time-le hist =
    let between = history_loop-Between 8 hist merge_cost merge_cost (omega arith) (omega arith) in
    omega (arith, between.1)

-- `CheckIfMergeable` refuses a page within the cost of a merge after its last merge and then
-- changes nothing; after 256 times that cost it allows the merge whatever the history, and records
-- the time.
pub check_if_mergeable_bounds :
    (index curr_time : ℕ) (h : MergeHistory)
    → let since = time_since (h.last_merge_time index) curr_time in
      let checked = check_if_mergeable index curr_time h in
      (since < merge_cost → checked ≡ (false, h))
      × (longest_time ≤ since → (checked.0 ≡ true) × (checked.1.last_merge_time index ≡ curr_time))
unfolding check_if_mergeable
check_if_mergeable_bounds index curr_time h =
    let since = time_since (h.last_merge_time index) curr_time in
    let most = total_merge_time-le (h.merge_succ_hist index) in
    (
      λ early. (let soon : ltb since merge_cost ≡ true = ground arith in rw soon refl),
      λ late.
          (let not_soon : ltb since merge_cost ≡ false = ground arith in
            let over : ltb since (total_merge_time (h.merge_succ_hist index)) ≡ false =
              ground (arith, most) in
            let here : (index == index) ≡ true = ground arith in
            rw (not_soon, over, here) (refl, refl)),
    )
