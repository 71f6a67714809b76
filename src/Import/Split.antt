-- ===== src/Import/Split.antt =====
-- `ImportSync`: how the warehouses are shared out among the loader threads, and the progress that
-- `LoadWarehouse` reports. `size_t` wraps at 2^64, and the bounds of a share are cast to `int`.
use mathlib.Core.List.{map-append}
use native.Mathlib.Nat.{
  zero-div, div-mul-le_self, div-le_of_le-mul, mul-le-mul_right, le-div_iff_mul-le,
  mul-div_cancel_left,
}
use tpcc_oceanbase_cpp.Common.{
  ℕ, zero, suc, ◌+◌, ◌-◌, ◌*◌, ◌/◌, ◌≤◌, ◌<◌, ◌≡◌, refl, ◌⊎◌, inl, inr, Bool-cases, ap, ap₂, sym,
  ◌∙◌, Bool, true, false, List, [], ◌∷◌, ◌++◌, arith, ◌==◌, if◌then◌else◌, min, max, map, ◌^◌,
}
use tpcc_oceanbase_cpp.Common.Int.{ℤ, pos, ◌+ℤ◌, ◌-ℤ◌, leb_ℤ, pos_part, int32_of}
use tpcc_oceanbase_cpp.Common.Word.{add64, mul64}
use tpcc_oceanbase_cpp.Import.Rows.{up_from, customers, first_unprocessed}

abbrev pub max_loader_threads : ℕ
max_loader_threads = 100

-- The number of threads, for `requested` of them, `warehouses` and `cpus`.
pub thread_count : ℕ → ℕ → ℕ → ℕ
thread_count requested warehouses cpus =
    let automatic = min warehouses (min cpus max_loader_threads) in
    min (max (if requested == 0 then automatic else requested) 1) warehouses

-- `whStart` and `whEnd` of thread `tid`.
pub wh_start : ℕ → ℕ → ℕ → ℤ
wh_start warehouses threads tid = int32_of (add64 (mul64 tid warehouses / threads) 1)

pub wh_end : ℕ → ℕ → ℕ → ℤ
wh_end warehouses threads tid = int32_of (mul64 (add64 tid 1) warehouses / threads)

-- The values of an `int` that is counted up, `n` of them from `a` on.
pub int_up_from : ℤ → ℕ → List ℤ
int_up_from a zero = []
int_up_from a (suc n) = a ∷ int_up_from (a +ℤ pos 1) n

-- The values of `wh` in a loop that counts it up from `first` while `wh <= last`; the loop of the source
-- is undefined if `last` is the greatest `int`.
pub from_to : ℤ → ℤ → List ℤ
unfolding int_up_from
from_to first last =
    int_up_from first (if leb_ℤ first last then pos_part (last -ℤ first) + 1 else 0)

-- The warehouses that thread `tid` loads, in order.
pub share : ℕ → ℕ → ℕ → List ℤ
unfolding wh_start wh_end from_to
share warehouses threads tid =
    from_to (wh_start warehouses threads tid) (wh_end warehouses threads tid)

-- What the first `n` threads load.
pub shares : ℕ → ℕ → ℕ → List ℤ
shares warehouses threads zero = []
shares warehouses threads (suc n) = shares warehouses threads n ++ share warehouses threads n

-- The same with numbers that nothing wraps or casts.
slice : ℕ → ℕ → ℕ → List ℕ
slice w t n = up_from (n * w / t + 1) ((n + 1) * w / t + 1 - (n * w / t + 1))

slices : ℕ → ℕ → ℕ → List ℕ
slices w t zero = []
slices w t (suc n) = slices w t n ++ slice w t n

pub up_from-append : (m n a : ℕ) → up_from a (m + n) ≡ up_from a m ++ up_from (a + m) n
unfolding up_from
up_from-append zero n a = ap₂ (λ (k b : ℕ). up_from b k) (omega arith) (omega arith)
up_from-append (suc m) n a =
    let longer : suc m + n ≡ suc (m + n) = omega arith in
    let later : a + 1 + m ≡ a + suc m = omega arith in
    ap (up_from a) longer
    ∙ ap (◌∷◌ a)
        (up_from-append m n (a + 1) ∙ ap (λ (b : ℕ). up_from (a + 1) m ++ up_from b n) later)

up_from-continues :
    (a b : ℕ) → a ≤ b → up_from 1 a ++ up_from (a + 1) (b + 1 - (a + 1)) ≡ up_from 1 b
up_from-continues a b h =
    ap₂ (λ (c k : ℕ). up_from 1 a ++ up_from c k) (omega arith) (omega arith)
    ∙ (sym (up_from-append a (b - a) 1) ∙ ap (up_from 1) (omega arith))

div_grows : (w t n : ℕ) → 0 < t → n * w / t ≤ (n + 1) * w / t
div_grows w t n h = (le-div_iff_mul-le h).1 (grind (arith, div-mul-le_self (n * w) t))

slices_lem : (w t n : ℕ) → 0 < t → slices w t n ≡ up_from 1 (n * w / t)
unfolding slices slice up_from
slices_lem w t zero h =
    let none_yet : 0 ≡ 0 * w / t = omega (arith, zero-div t) in ap (up_from 1) none_yet
slices_lem w t (suc n) h =
    ap (λ (l : List ℕ). l ++ slice w t n) (slices_lem w t n h)
    ∙ (up_from-continues (n * w / t) ((n + 1) * w / t) (div_grows w t n h)
        ∙ ap (λ (m : ℕ). up_from 1 (m * w / t)) (omega arith))

int_up_from_lem : (a n : ℕ) → int_up_from (pos a) n ≡ map pos (up_from a n)
unfolding int_up_from up_from
int_up_from_lem a zero = refl
int_up_from_lem a (suc n) =
    let later : pos a +ℤ pos 1 ≡ pos (a + 1) = ground arith in
    ap (λ l. pos a ∷ l) (ap (λ b. int_up_from b n) later ∙ int_up_from_lem (a + 1) n)

from_to_lem : (a b : ℕ) → a ≤ b + 1 → from_to (pos a) (pos b) ≡ map pos (up_from a (b + 1 - a))
unfolding from_to
from_to_lem a b h =
    let rounds : (if leb_ℤ (pos a) (pos b) then pos_part (pos b -ℤ pos a) + 1 else 0) ≡ b + 1 - a =
      ground arith in
    ap (int_up_from (pos a)) rounds ∙ int_up_from_lem a (b + 1 - a)

int32_small : (n : ℕ) → n < 2 ^ 31 → int32_of n ≡ pos n
int32_small n h = ground arith

-- The quotients are warehouses, or 0.
div_bound : (w t n : ℕ) → 0 < t → n ≤ t → n * w / t ≤ w
div_bound w t n h l = div-le_of_le-mul t (mul-le-mul_right w l)

-- Nothing wraps.
product_fits : (w t n : ℕ) → t ≤ w → w < 2 ^ 31 → n ≤ t → n * w < 2 ^ 64
product_fits w t n a b c = let first : n * w ≤ 2 ^ 31 * w = grind arith in omega arith

bounds_lem :
    (w t n : ℕ)
    → 0 < t
    → t ≤ w
    → w < 2 ^ 31 - 1
    → n < t
    → (wh_start w t n ≡ pos (n * w / t + 1)) × (wh_end w t n ≡ pos ((n + 1) * w / t))
unfolding wh_start wh_end
bounds_lem w t n h a b l =
    let p = product_fits w t n a (omega arith) (omega arith) in
    let q = product_fits w t (suc n) a (omega arith) l in
    let r : (n + 1) * w < 2 ^ 64 = omega (arith, q) in
    let d : n * w / t ≤ w = div_bound w t n h (omega arith) in
    let e : (n + 1) * w / t ≤ w = div_bound w t (n + 1) h (omega arith) in
    let m : mul64 n w ≡ n * w = omega arith in
    let o : add64 n 1 ≡ n + 1 = omega arith in
    let m' : mul64 (n + 1) w ≡ (n + 1) * w = omega arith in
    let f : add64 (n * w / t) 1 ≡ n * w / t + 1 = omega arith in
    (
      ap (λ (x : ℕ). int32_of (add64 (x / t) 1)) m ∙ ap int32_of f ∙ int32_small _ (omega arith),
      ap (λ (x : ℕ). int32_of (mul64 x w / t)) o
          ∙ ap (λ (x : ℕ). int32_of (x / t)) m'
          ∙ int32_small _ (omega arith),
    )

share-slice :
    (w t n : ℕ) → 0 < t → t ≤ w → w < 2 ^ 31 - 1 → n < t → share w t n ≡ map pos (slice w t n)
unfolding share slice
share-slice w t n h a b l =
    let (first, last) = bounds_lem w t n h a b l in
    ap₂ from_to first last
    ∙ from_to_lem (n * w / t + 1) ((n + 1) * w / t) (omega (arith, div_grows w t n h))

shares-slices :
    (w t n : ℕ) → 0 < t → t ≤ w → w < 2 ^ 31 - 1 → n ≤ t → shares w t n ≡ map pos (slices w t n)
unfolding shares slices
shares-slices w t zero h a b l = refl
shares-slices w t (suc n) h a b l =
    ap₂ (λ (x y : List ℤ). x ++ y) (shares-slices w t n h a b (omega arith))
      (share-slice w t n h a b (omega arith))
    ∙ sym (map-append pos (slices w t n) (slice w t n))

-- With at least one warehouse there is at least one thread and no more threads than warehouses.
pub thread_count_bounds :
    (requested warehouses cpus : ℕ)
    → 0 < warehouses
    → (1 ≤ thread_count requested warehouses cpus)
      × (thread_count requested warehouses cpus ≤ warehouses)
unfolding thread_count
thread_count_bounds requested warehouses cpus h = ground arith

-- The threads of `ImportSync`, however many are requested and whatever the machine has, together load
-- the warehouses 1, …, W, each of them once, in order from thread to thread, where W is at least 1 and
-- less than the greatest `int`.
pub shares_cover :
    (requested w cpus : ℕ)
    → 0 < w
    → w < 2 ^ 31 - 1
    → let t = thread_count requested w cpus in shares w t t ≡ map pos (up_from 1 w)
shares_cover requested w cpus h b =
    let t = thread_count requested w cpus in
    let (some_thread, enough) = thread_count_bounds requested w cpus h in
    shares-slices w t t (omega arith) enough b (omega arith)
    ∙ ap (map pos)
        (slices_lem w t t (omega arith) ∙ ap (up_from 1) (mul-div_cancel_left w (omega arith)))

-- The rough sizes of the rows, in bytes.
abbrev pub district_bytes : ℕ
district_bytes =
    customers * 600
    + (customers * 46
        + (customers * 48 + ((customers + 1 - first_unprocessed) * 12 + customers * 10 * 54)))

pub shared_data_size : ℕ
shared_data_size = 100000 * 40

pub warehouse_data_size : ℕ
warehouse_data_size = 100000 * 280 + 10 * district_bytes

-- `TImportState`, with the tables that are loaded: `loaded` counts bytes.
pub record Progress : Type 0 where
  pub loaded : ℕ
  pub warehouses : ℕ

-- The loop over the districts of `LoadWarehouse`, with `n` districts left from `d` on; `stop d` is what
-- the stop token says before district `d`. The result says whether the loop came to its end.
pub load_districts : (ℕ → Bool) → ℕ → ℕ → Progress → Bool × Progress
load_districts stop zero d p = (true, p)
load_districts stop (suc n) d p =
    let more = load_districts stop n (d + 1) (record p { loaded = p.loaded + district_bytes }) in
    if stop d then (false, p) else more

-- `LoadWarehouse`, whose first question to the stop token is `stop 0`.
pub load_warehouse : (ℕ → Bool) → Progress → Progress
unfolding load_districts
load_warehouse stop p =
    if stop 0
    then p
    else (let (finished, q) =
          load_districts stop 10 1 (record p { loaded = p.loaded + 100000 * 280 }) in
        if finished then record q { warehouses = q.warehouses + 1 } else q)

load_districts_lem :
    (stop : ℕ → Bool) (n d : ℕ) (p : Progress)
    → let (finished, q) = load_districts stop n d p in
      (q.warehouses ≡ p.warehouses)
      × (((finished ≡ true) × (q.loaded ≡ p.loaded + n * district_bytes))
          ⊎ ((finished ≡ false)
              × (p.loaded ≤ q.loaded)
              × (q.loaded < p.loaded + n * district_bytes)))
unfolding load_districts
load_districts_lem stop zero d p = (refl, inl (refl, omega arith))
load_districts_lem stop (suc n) d p =
    let ih = load_districts_lem stop n (d + 1) (record p { loaded = p.loaded + district_bytes }) in
    elim (Bool-cases (stop d)) [
      | inl e ↦ rw e (refl, inr (refl, omega arith, omega arith))
      | inr e ↦ rw e (ground (arith, ih))
    ]

-- A warehouse is counted exactly when all its bytes are, as many as the estimate says; one that was
-- interrupted leaves fewer.
load_warehouse_progress :
    (stop : ℕ → Bool) (p : Progress)
    → let q = load_warehouse stop p in
      ((q.warehouses ≡ p.warehouses + 1) × (q.loaded ≡ p.loaded + warehouse_data_size))
      ⊎ ((q.warehouses ≡ p.warehouses) × (q.loaded < p.loaded + warehouse_data_size))
unfolding load_warehouse warehouse_data_size
load_warehouse_progress stop p =
    let ih = load_districts_lem stop 10 1 (record p { loaded = p.loaded + 100000 * 280 }) in
    ground (arith, ih)
