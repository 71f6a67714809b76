-- ===== src/Log/Latest.antt =====
-- src/log_backend.cpp: the ring shows the latest lines, oldest first.
use native.Mathlib.Nat.{mod-lt, mod-eq_of_lt, mod_self}
use tpcc_oceanbase_cpp.Common.{
  ℕ, zero, suc, ◌+◌, ◌-◌, ◌%◌, ◌≤◌, ◌<◌, ◌≡◌, refl, ap, ap₂, sym, ◌∙◌, Bool, true, false, List, [],
  ◌∷◌, ◌++◌, ◌==◌, if◌then◌else◌, take, drop, set, length, arith, append-nil, append_assoc,
  length-append, length-drop, length-take, length-set, length-replicate, drop-append, Bool-cases,
  inl, inr, dec_lt, subst,
}
use tpcc_oceanbase_cpp.Log.{LogCapture, new, add_line, nonempty, get_lines}

module _ {ℓ} {A : Type ℓ} where
  -- The last `n` items.
  abbrev pub latest : ℕ → List A → List A
  latest n xs = drop (length xs - n) xs

  take-set :
      (xs : List A) (i : ℕ) (x : A)
      → i < length xs
      → take (suc i) (set xs i x) ≡ take i xs ++ x ∷ []
  take-set [] i x h = absurd (omega arith)
  take-set (y ∷ ys) zero x h = refl
  take-set (y ∷ ys) (suc i) x h = ap (λ l. y ∷ l) (take-set ys i x (omega arith))

  drop-set : (xs : List A) (i : ℕ) (x : A) → drop (suc i) (set xs i x) ≡ drop (suc i) xs
  drop-set [] i x = refl
  drop-set (y ∷ ys) zero x = refl
  drop-set (y ∷ ys) (suc i) x = drop-set ys i x

  drop-drop : (k : ℕ) (xs : List A) → drop 1 (drop k xs) ≡ drop (suc k) xs
  drop-drop zero xs = refl
  drop-drop (suc k) [] = refl
  drop-drop (suc k) (x ∷ xs) = drop-drop k xs

  take_all : (n : ℕ) (xs : List A) → length xs ≤ n → take n xs ≡ xs
  take_all zero [] h = refl
  take_all (suc n) [] h = refl
  take_all zero (x ∷ xs) h = absurd (omega arith)
  take_all (suc n) (x ∷ xs) h = ap (λ l. x ∷ l) (take_all n xs (omega arith))

  drop_all : (n : ℕ) (xs : List A) → length xs ≤ n → drop n xs ≡ []
  drop_all zero [] h = refl
  drop_all (suc n) [] h = refl
  drop_all zero (x ∷ xs) h = absurd (omega arith)
  drop_all (suc n) (x ∷ xs) h = drop_all n xs (omega arith)

  -- Adding an item keeps the latest ones.
  latest-latest :
      (n : ℕ) (xs : List A) (x : A)
      → 0 < n
      → latest n (latest n xs ++ x ∷ []) ≡ latest n (xs ++ x ∷ [])
  latest-latest n xs x p = elim (dec_lt (length xs) n) [
    | yes l ↦ let none_over : length xs - n ≡ 0 = omega arith in rw none_over refl
    | no m ↦
        let later : suc (length xs - n) ≡ length (xs ++ x ∷ []) - n =
          omega (arith, length-append xs (x ∷ [])) in
        let one_over : length (latest n xs ++ x ∷ []) - n ≡ 1 = omega (
          arith,
          length-append (drop (length xs - n) xs) (x ∷ []),
          length-drop (length xs - n) xs,
        ) in
        ap (λ (k : ℕ). drop k (latest n xs ++ x ∷ [])) one_over
        ∙ (drop-append 1 (drop (length xs - n) xs) (x ∷ [])
              (omega (arith, length-drop (length xs - n) xs))
            ∙ (ap (λ l. l ++ x ∷ []) (drop-drop (length xs - n) xs)
                ∙ (sym (drop-append (suc (length xs - n)) xs (x ∷ []) (omega arith))
                    ∙ ap (λ (k : ℕ). drop k (xs ++ x ∷ [])) later)))
  ]

nonempty-append : (xs ys : List (List ℕ)) → nonempty (xs ++ ys) ≡ nonempty xs ++ nonempty ys
nonempty-append [] ys = refl
nonempty-append ([] ∷ xs) ys = nonempty-append xs ys
nonempty-append ((b ∷ bs) ∷ xs) ys = ap (λ l. (b ∷ bs) ∷ l) (nonempty-append xs ys)

-- The ring from the oldest line to the newest.
abbrev pub shown : List (List ℕ) → ℕ → Bool → List (List ℕ)
shown lines pos wrapped = if wrapped then drop pos lines ++ take pos lines else take pos lines

module _ (lines : List (List ℕ)) (pos cap : ℕ) (line : List ℕ) (full : length lines ≡ cap)
    (lt : pos < cap) where
  latest-wrapped :
      latest cap ((drop pos lines ++ take pos lines) ++ line ∷ [])
      ≡ drop (suc pos) lines ++ (take pos lines ++ line ∷ [])
  latest-wrapped =
      let one_over : length ((drop pos lines ++ take pos lines) ++ line ∷ []) - cap ≡ 1 = omega (
        arith,
        length-append (drop pos lines ++ take pos lines) (line ∷ []),
        length-append (drop pos lines) (take pos lines),
        length-drop pos lines,
        length-take pos lines,
      ) in
      ap (λ (k : ℕ). drop k ((drop pos lines ++ take pos lines) ++ line ∷ [])) one_over
      ∙ (ap (drop 1) (append_assoc (drop pos lines) (take pos lines) (line ∷ []))
          ∙ (drop-append 1 (drop pos lines) _ (omega (arith, length-drop pos lines))
              ∙ ap (λ l. l ++ (take pos lines ++ line ∷ [])) (drop-drop pos lines)))

  latest-fresh : latest cap (take pos lines ++ line ∷ []) ≡ take pos lines ++ line ∷ []
  latest-fresh =
      let none_over : length (take pos lines ++ line ∷ []) - cap ≡ 0 =
        omega (arith, length-append (take pos lines) (line ∷ []), length-take pos lines) in
      ap (λ (k : ℕ). drop k (take pos lines ++ line ∷ [])) none_over

  written : take (suc pos) (set lines pos line) ≡ take pos lines ++ line ∷ []
  written = take-set lines pos line (omega arith)

  shown-next :
      (wrapped : Bool)
      → shown (set lines pos line) (suc pos) wrapped
        ≡ latest cap (shown lines pos wrapped ++ line ∷ [])
  shown-next true = ap₂ ◌++◌ (drop-set lines pos line) written ∙ sym latest-wrapped
  shown-next false = written ∙ sym latest-fresh

  shown-last :
      (wrapped : Bool)
      → suc pos ≡ cap
      → shown (set lines pos line) 0 true ≡ latest cap (shown lines pos wrapped ++ line ∷ [])
  shown-last wrapped e =
      append-nil (set lines pos line)
      ∙ (sym (take_all (suc pos) (set lines pos line) (omega (arith, length-set lines pos line)))
          ∙ (written ∙ last wrapped))
    where
      last : (b : Bool) → take pos lines ++ line ∷ [] ≡ latest cap (shown lines pos b ++ line ∷ [])
      last true =
          ap (λ l. l ++ (take pos lines ++ line ∷ []))
            (sym (drop_all (suc pos) lines (omega arith)))
          ∙ sym latest-wrapped
      last false = sym latest-fresh

  shown-step :
      (wrapped : Bool)
      → let next = (pos + 1) % cap in
        shown (set lines pos line) next (if next == 0 then true else wrapped)
        ≡ latest cap (shown lines pos wrapped ++ line ∷ [])
  shown-step wrapped = elim (dec_lt (pos + 1) cap) [
    | yes l ↦
        let next : (pos + 1) % cap ≡ suc pos = mod-eq_of_lt l ∙ omega arith in
        let more : (suc pos == 0) ≡ false = ground arith in rw next (rw more (shown-next wrapped))
    | no m ↦
        let next : (pos + 1) % cap ≡ 0 = ap (λ (k : ℕ). k % cap) (omega arith) ∙ mod_self cap in
        rw next (shown-last wrapped (omega arith))
  ]

-- The ring holds the latest of the lines that were added.
pub record Holds (c : LogCapture) (history : List (List ℕ)) : Type 0 where
  pub some_room : 0 < c.max_lines
  pub full_size : length c.lines ≡ c.max_lines
  pub in_range : c.write_pos < c.max_lines
  pub content : shown c.lines c.write_pos c.wrapped ≡ latest c.max_lines history

pub new-Holds : (n : ℕ) → 0 < n → Holds (new n) []
unfolding new
new-Holds n p = record {
  some_room = p;
  full_size = length-replicate n [];
  in_range = p;
  content = sym (drop_all (0 - n) [] (omega arith));
}

pub add_line-Holds :
    (c : LogCapture) (history : List (List ℕ)) (line : List ℕ)
    → Holds c history
    → Holds (add_line c line) (history ++ line ∷ [])
unfolding add_line
add_line-Holds c history line v = record {
  some_room = v.some_room;
  full_size = length-set c.lines c.write_pos line ∙ v.full_size;
  in_range = mod-lt (c.write_pos + 1) v.some_room;
  content =
      shown-step c.lines c.write_pos c.max_lines line v.full_size v.in_range c.wrapped
      ∙ (ap (λ l. latest c.max_lines (l ++ line ∷ [])) v.content
          ∙ latest-latest c.max_lines history line v.some_room);
}

-- The lines one after another.
unfoldable pub add_lines : LogCapture → List (List ℕ) → LogCapture
unfolding add_line
add_lines c [] = c
add_lines c (l ∷ ls) = add_lines (add_line c l) ls

add_lines-Holds :
    (c : LogCapture) (history more : List (List ℕ))
    → Holds c history
    → Holds (add_lines c more) (history ++ more)
unfolding add_lines
add_lines-Holds c history [] v = subst (Holds c) (sym (append-nil history)) v
add_lines-Holds c history (l ∷ ls) v =
    subst (Holds (add_lines (add_line c l) ls)) (append_assoc history (l ∷ []) ls)
      (add_lines-Holds (add_line c l) (history ++ l ∷ []) ls (add_line-Holds c history l v))

max_lines-add_lines :
    (c : LogCapture) (ls : List (List ℕ)) → (add_lines c ls).max_lines ≡ c.max_lines
unfolding add_lines add_line
max_lines-add_lines c [] = refl
max_lines-add_lines c (l ∷ ls) = max_lines-add_lines (add_line c l) ls

get_lines-shown : (c : LogCapture) → get_lines c ≡ nonempty (shown c.lines c.write_pos c.wrapped)
unfolding get_lines
get_lines-shown c = elim (Bool-cases c.wrapped) [
  | inl y ↦ rw y (sym (nonempty-append (drop c.write_pos c.lines) (take c.write_pos c.lines)))
  | inr n ↦ rw n refl
]

max_lines-new : (n : ℕ) → (new n).max_lines ≡ n
unfolding new
max_lines-new n = refl

-- A capture of at least one line, after any lines have been added to it, shows the latest of them, as
-- many as it has room for, in the order in which they came and without the empty ones.
pub get_lines-add_lines :
    (n : ℕ) (ls : List (List ℕ)) → 0 < n → get_lines (add_lines (new n) ls) ≡ nonempty (latest n ls)
get_lines-add_lines n ls p =
    let v = add_lines-Holds (new n) [] ls (new-Holds n p) in
    get_lines-shown (add_lines (new n) ls)
    ∙ ap nonempty
        (v.content ∙ ap (λ (k : ℕ). latest k ls) (max_lines-add_lines (new n) ls ∙ max_lines-new n))
