-- ===== src/Store/Books.antt =====
-- The sums that src/check.cpp compares (conditions 3.3.2.1, 3.3.2.8 and 3.3.2.9), and how the updates
-- of a payment move them.
use tpcc_oceanbase_cpp.Common.{
  ℕ, ◌+◌, ◌≡◌, ◌∙◌, refl, ap₂, Bool, List, [], ◌∷◌, ◌++◌, arith, ◌==◌, if◌then◌else◌, All,
}
use tpcc_oceanbase_cpp.Store.{
  Warehouse, District, History, Store, same2, add_warehouse_ytd, add_district_ytd,
}

-- `SUM(d_ytd)` of the districts of a warehouse.
abbrev pub district_total : ℕ → List District → ℕ
district_total w [] = 0
district_total w (r ∷ rs) = (if r.d_w_id == w then r.d_ytd else 0) + district_total w rs

-- `SUM(h_amount)` of a warehouse, and of a district.
abbrev pub history_total : ℕ → List History → ℕ
history_total w [] = 0
history_total w (r ∷ rs) = (if r.h_w_id == w then r.h_amount else 0) + history_total w rs

abbrev pub district_history_total : ℕ → ℕ → List History → ℕ
district_history_total w d [] = 0
district_history_total w d (r ∷ rs) =
    (if same2 r.h_w_id r.h_d_id w d then r.h_amount else 0) + district_history_total w d rs

-- How many rows a district has.
abbrev pub copies : ℕ → ℕ → List District → ℕ
copies w d [] = 0
copies w d (r ∷ rs) = (if same2 r.d_w_id r.d_id w d then 1 else 0) + copies w d rs

-- The year-to-date amounts of warehouses and districts are what the history says.
pub record Balanced (s : Store) : Type 0 where
  pub districts_add_up : All (λ r. r.w_ytd ≡ district_total r.w_id s.districts) s.warehouses
  pub history_adds_up : All (λ r. r.w_ytd ≡ history_total r.w_id s.history) s.warehouses
  pub district_history_adds_up :
      All (λ r. r.d_ytd ≡ district_history_total r.d_w_id r.d_id s.history) s.districts

-- The rows after a payment.
abbrev pub extra : Bool → ℕ → ℕ
extra b amount = if b then amount else 0

history_total-append :
    (k : ℕ) (hs : List History) (h : History)
    → history_total k (hs ++ h ∷ []) ≡ history_total k hs + extra (h.h_w_id == k) h.h_amount
history_total-append k [] h = omega arith
history_total-append k (r ∷ rs) h = omega (arith, history_total-append k rs h)

district_history_total-append :
    (w d : ℕ) (hs : List History) (h : History)
    → district_history_total w d (hs ++ h ∷ [])
      ≡ district_history_total w d hs + extra (same2 h.h_w_id h.h_d_id w d) h.h_amount
district_history_total-append w d [] h = omega arith
district_history_total-append w d (r ∷ rs) h = omega (arith, district_history_total-append w d rs h)

district_total-none :
    (k a w d : ℕ) (rs : List District)
    → copies w d rs ≡ 0
    → district_total k (add_district_ytd a w d rs) ≡ district_total k rs
unfolding add_district_ytd
district_total-none k a w d [] e = refl
district_total-none k a w d (r ∷ rs) e = ground (arith, district_total-none k a w d rs)

district_total-once :
    (k a w d : ℕ) (rs : List District)
    → copies w d rs ≡ 1
    → district_total k (add_district_ytd a w d rs) ≡ district_total k rs + extra (w == k) a
unfolding add_district_ytd
district_total-once k a w d [] e = absurd (omega arith)
district_total-once k a w d (r ∷ rs) e =
    ground (arith, district_total-once k a w d rs, district_total-none k a w d rs)

-- Each row of a warehouse keeps pace with a sum that grows by the amount for warehouse `w` only.
warehouses_keep :
    (a w : ℕ) (f g : ℕ → ℕ) (rs : List Warehouse)
    → ((k : ℕ) → g k ≡ f k + extra (w == k) a)
    → All (λ r. r.w_ytd ≡ f r.w_id) rs
    → All (λ r. r.w_ytd ≡ g r.w_id) (add_warehouse_ytd a w rs)
unfolding add_warehouse_ytd
warehouses_keep a w f g [] e h = tt
warehouses_keep a w f g (r ∷ rs) e (h, hs) =
    (ground (arith, e r.w_id), warehouses_keep a w f g rs e hs)

districts_keep :
    (a w d : ℕ) (f g : ℕ → ℕ → ℕ) (rs : List District)
    → ((k l : ℕ) → g k l ≡ f k l + extra (same2 w d k l) a)
    → All (λ r. r.d_ytd ≡ f r.d_w_id r.d_id) rs
    → All (λ r. r.d_ytd ≡ g r.d_w_id r.d_id) (add_district_ytd a w d rs)
unfolding add_district_ytd
districts_keep a w d f g [] e h = tt
districts_keep a w d f g (r ∷ rs) e (h, hs) =
    (ground (arith, e r.d_w_id r.d_id), districts_keep a w d f g rs e hs)

-- A payment moves the three sums together.
pub paid-Balanced :
    (s : Store) (a w d : ℕ) (h : History)
    → h.h_w_id ≡ w
    → h.h_d_id ≡ d
    → h.h_amount ≡ a
    → copies w d s.districts ≡ 1
    → Balanced s
    → Balanced (record s {
      warehouses = add_warehouse_ytd a w s.warehouses;
      districts = add_district_ytd a w d s.districts;
      history = s.history ++ h ∷ [];
    })
paid-Balanced s a w d h e f g once b = record {
  districts_add_up =
      warehouses_keep a w (λ k. district_total k s.districts) _ s.warehouses
        (λ k. district_total-once k a w d s.districts once) b.districts_add_up;
  history_adds_up =
      warehouses_keep a w (λ k. history_total k s.history) _ s.warehouses
        (λ k.
          history_total-append k s.history h
          ∙ ap₂ (λ x y. history_total k s.history + extra (x == k) y) e g)
        b.history_adds_up;
  district_history_adds_up =
      districts_keep a w d (λ k l. district_history_total k l s.history) _ s.districts
        (λ k l. district_history_total-append k l s.history h ∙ ground (arith, e, f, g))
        b.district_history_adds_up;
}
