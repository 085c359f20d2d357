-- ===== src/Startup/EnvironmentLaws.antt =====
-- SharedHeap.cpp: the settings that `InitEnv` accepts.
use sbllmalloc.Shared.{
  ℕ, ◌*◌, ◌/◌, ◌^◌, ◌≤◌, ◌<◌, ◌≡◌, refl, sym, ap, ◌∙◌, arith, true, false, ◌&&◌, Option, none, some,
  ◌==◌, ℤ, pos, negsuc, is_pos, Bool-cases, inl, inr,
}
use sbllmalloc.Startup.Environment.{
  Variable, enable_backtrace, merge_metric, min_mem_th, malloc_merge_freq, not_mpi_app, sem_key,
  Settings, slot, assign, read_args, args, less, times, check_env, init_env,
}

-- What the documentation says of a variable that is not set.
abbrev pub default_of : Variable → ℤ
default_of enable_backtrace = pos 0
default_of merge_metric = pos 1
default_of min_mem_th = pos 10
default_of malloc_merge_freq = pos 1000
default_of not_mpi_app = pos 0
default_of sem_key = pos 1234

abbrev pub set_or_default : (Variable → Option ℤ) → Variable → ℤ
set_or_default getenv v = elim (getenv v) [ none ↦ default_of v | some x ↦ x ]

read_args-eq :
    (getenv : Variable → Option ℤ) (start : Settings) (v : Variable)
    → read_args getenv args start v ≡ set_or_default getenv v
unfolding read_args
read_args-eq getenv start enable_backtrace = refl
read_args-eq getenv start merge_metric = refl
read_args-eq getenv start min_mem_th = refl
read_args-eq getenv start malloc_merge_freq = refl
read_args-eq getenv start not_mpi_app = refl
read_args-eq getenv start sem_key = refl

is_pos-pos : (x : ℤ) → is_pos x ≡ true → (n : ℕ) × (x ≡ pos n) × (0 < n)
is_pos-pos (pos n) e = (n, refl, ground arith)
is_pos-pos (negsuc n) e = absurd (ground arith)

check_env_cases {ℓ} :
    (P : Option Settings → Type ℓ) (page_size : ℕ) (s : Settings)
    → P none
    → ((th freq : ℕ)
        → less (s merge_metric) 4 ≡ true
        → s min_mem_th ≡ pos th
        → 0 < th
        → th < 100000
        → s malloc_merge_freq ≡ pos freq
        → 0 < freq
        → P (some (assign s min_mem_th (pos (th * (1000000 / page_size))))))
    → P (check_env page_size s)
unfolding check_env
check_env_cases P page_size s rejected accepted = elim (Bool-cases (less (s merge_metric) 4)) [
  | inr large ↦ rw large rejected
  | inl known ↦ elim (Bool-cases (is_pos (s min_mem_th) && less (s min_mem_th) 100000)) [
    | inr out ↦ rw (known, out) rejected
    | inl between ↦ elim (Bool-cases (is_pos (s malloc_merge_freq))) [
      | inr never ↦ rw (known, between, never) rejected
      | inl often ↦
          let (th, e, some_th) = is_pos-pos (s min_mem_th) (ground (arith, between)) in
          let (freq, f, some_freq) = is_pos-pos (s malloc_merge_freq) often in
          let high : less (pos th) 100000 ≡ true = ground (arith, between, e) in
          let product : times (s min_mem_th) (1000000 / page_size)
              ≡ pos (th * (1000000 / page_size)) =
            ap (λ x. times x (1000000 / page_size)) e in
          rw (known, between, often, product)
            (accepted th freq known e some_th (ground (arith, high)) f some_freq)
    ]
  ]
]

product_le : (a b k m : ℕ) → a ≤ k → b ≤ m → a * b ≤ k * m
product_le a b k m first second =
    let left : a * b ≤ k * b = grind arith in
    let right : k * b ≤ k * m = grind arith in omega (arith, left, right)

quotient_le : (p : ℕ) → 4096 ≤ p → 1000000 / p ≤ 244
quotient_le p large = grind arith

-- With pages of at least 4096 bytes, the settings that `InitEnv` accepts have a positive frequency
-- and a metric below 4; the threshold in pages is the one in megabytes times the pages of a
-- megabyte and below 2^31; every other setting is that of the environment, or the default where it
-- is not set.
pub init_env_accepts :
    (page_size : ℕ) (getenv : Variable → Option ℤ) (start s : Settings)
    → 4096 ≤ page_size
    → init_env page_size getenv start ≡ some s
    → (th freq : ℕ) × (set_or_default getenv min_mem_th ≡ pos th)
      × (set_or_default getenv malloc_merge_freq ≡ pos freq)
      × (0 < freq)
      × (less (set_or_default getenv merge_metric) 4 ≡ true)
      × (s min_mem_th ≡ pos (th * (1000000 / page_size)))
      × (th * (1000000 / page_size) < 2 ^ 31)
      × ((v : Variable) → (slot v == slot min_mem_th) ≡ false → s v ≡ set_or_default getenv v)
unfolding init_env
init_env_accepts page_size getenv start s large =
    let given = read_args getenv args start in
    check_env_cases
      (λ r.
        r ≡ some s
        → (th freq : ℕ) × (set_or_default getenv min_mem_th ≡ pos th)
          × (set_or_default getenv malloc_merge_freq ≡ pos freq)
          × (0 < freq)
          × (less (set_or_default getenv merge_metric) 4 ≡ true)
          × (s min_mem_th ≡ pos (th * (1000000 / page_size)))
          × (th * (1000000 / page_size) < 2 ^ 31)
          × ((v : Variable) → (slot v == slot min_mem_th) ≡ false → s v ≡ set_or_default getenv v))
      page_size given (λ e. absurd (cc))
      (λ th freq known at_th some_th few at_freq some_freq e.
        let same : assign given min_mem_th (pos (th * (1000000 / page_size))) ≡ s = cc in
        let product : th * (1000000 / page_size) ≤ 99999 * (1000000 / page_size) =
          product_le th (1000000 / page_size) 99999 (1000000 / page_size) (omega arith)
            (omega arith) in
        (
          th,
          freq,
          sym (read_args-eq getenv start min_mem_th) ∙ at_th,
          sym (read_args-eq getenv start malloc_merge_freq) ∙ at_freq,
          some_freq,
          ap (λ x. less x 4) (sym (read_args-eq getenv start merge_metric)) ∙ known,
          sym (ap (λ (f : Settings). f min_mem_th) same),
          omega (arith, product, quotient_le page_size large),
          λ v other. sym (ap (λ (f : Settings). f v) same) ∙ rw other (read_args-eq getenv start v),
        ))
