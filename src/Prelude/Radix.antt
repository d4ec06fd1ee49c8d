-- ===== src/Prelude/Radix.antt =====
-- Numbers written with digits of `w` bits, the lowest digit first, and the same bits cut into digits
-- of another width, group by group.
use Prim.Native.Nat.{ℕ, zero, suc, ◌+◌, ◌*◌, ◌/◌, ◌%◌, ◌^◌, ◌≤◌, ◌<◌}
use mathlib.Core.Path.{subst, ◌≡◌, refl, sym, ap, ap₂, ◌∙◌}
use mathlib.Core.List.{List, [], ◌∷◌, ◌++◌, map}
use native.Mathlib.Nat.{
  one-le-pow, mul-le-mul_left, add-mul-div_left, add-mul-mod_self_left, mod-eq_of_lt, div-eq_of_lt,
  div-lt_iff_lt-mul, mod-add-div,
}
use native.Mathlib.Omega.{arith}
use project_solomon.Prelude.Lists.{
  length, take, drop, get_or, All, length-take, length-drop, take-append-drop, length-map,
}

unfoldable pub radix : ℕ → List ℕ → ℕ
radix w [] = 0
radix w (c ∷ cs) = c + 2 ^ w * radix w cs

unfoldable pub digits_of : ℕ → ℕ → ℕ → List ℕ
digits_of w zero v = []
digits_of w (suc n) v = (v % 2 ^ w) ∷ digits_of w n (v / 2 ^ w)

-- A loop that translates `n` groups of `w` entries.
unfoldable pub groups : ℕ → ℕ → (List ℕ → List ℕ) → List ℕ → List ℕ
groups zero w f xs = []
groups (suc n) w f xs = f (take w xs) ++ groups n w f (drop w xs)

-- Every digit fits.
abbrev pub Fits : ℕ → ℕ → Type 0
Fits w c = c < 2 ^ w

pub length-digits_of : (w n v : ℕ) → length (digits_of w n v) ≡ n
unfolding digits_of
length-digits_of w zero v = refl
length-digits_of w (suc n) v = ap suc (length-digits_of w n (v / 2 ^ w))

pub digits_of-Fits : (w n v : ℕ) → All (Fits w) (digits_of w n v)
unfolding digits_of
digits_of-Fits w zero v = tt
digits_of-Fits w (suc n) v = (ground (arith, one-le-pow w 2), digits_of-Fits w n (v / 2 ^ w))

-- The count of values of `n` digits.
unfoldable pub size : ℕ → ℕ → ℕ
size w zero = 1
size w (suc n) = 2 ^ w * size w n

pub positive : (w : ℕ) → 0 < 2 ^ w
positive w = one-le-pow w 2 (omega arith)

-- The lowest digit of a number, and what stands above it.
low_digit : (p a b : ℕ) → a < p → (a + p * b) % p ≡ a
low_digit p a b h = add-mul-mod_self_left a p b ∙ mod-eq_of_lt h

above_digit : (p a b : ℕ) → a < p → (a + p * b) / p ≡ b
above_digit p a b h =
    add-mul-div_left a b (omega arith) ∙ ap (λ (t : ℕ). t + b) (div-eq_of_lt h) ∙ omega arith

pub upper_digits : (p a s : ℕ) → 0 < p → a < p * s → a / p < s
upper_digits p a s h k =
    let (to, from) = div-lt_iff_lt-mul {k = p} {x = a} {y = s} h in from (grind arith)

digits_of-append :
    (w n m a b : ℕ)
    → a < size w n
    → digits_of w (n + m) (a + size w n * b) ≡ digits_of w n a ++ digits_of w m b
unfolding digits_of size
digits_of-append w zero m a b h = ap₂ (λ (n v : ℕ). digits_of w n v) (omega arith) (omega arith)
digits_of-append w (suc n) m a b h =
    let p : ℕ = 2 ^ w in
    let e : suc n + m ≡ suc (n + m) = omega arith in
    let f : a + p * size w n * b ≡ a + p * (size w n * b) = grind arith in
    rw
      (
        e,
        f,
        add-mul-mod_self_left a p (size w n * b),
        add-mul-div_left a (size w n * b) (positive w),
      )
      (ap (λ ds. a % p ∷ ds)
        (digits_of-append w n m (a / p) b (upper_digits p a (size w n) (positive w) h)))

radix-append :
    (w : ℕ) (xs ys : List ℕ) → radix w (xs ++ ys) ≡ radix w xs + size w (length xs) * radix w ys
unfolding radix size
radix-append w [] ys = omega arith
radix-append w (x ∷ xs) ys = rw (radix-append w xs ys) (grind arith)

pub radix_below : (w : ℕ) (xs : List ℕ) → All (Fits w) xs → radix w xs < size w (length xs)
unfolding radix size
radix_below w [] h = omega arith
radix_below w (x ∷ xs) (h, hs) =
    let p : ℕ = 2 ^ w in
    let below : p * suc (radix w xs) ≤ p * size w (length xs) =
      mul-le-mul_left p (radix_below w xs hs) in
    grind (arith)

pub digits_of-radix :
    (w : ℕ) (xs : List ℕ) → All (Fits w) xs → digits_of w (length xs) (radix w xs) ≡ xs
unfolding radix digits_of
digits_of-radix w [] h = refl
digits_of-radix w (x ∷ xs) (h, hs) =
    ap₂ ◌∷◌ (low_digit (2 ^ w) x _ h)
      (ap (digits_of w (length xs)) (above_digit (2 ^ w) x _ h) ∙ digits_of-radix w xs hs)

pub radix-digits_of : (w n v : ℕ) → v < size w n → radix w (digits_of w n v) ≡ v
unfolding radix digits_of size
radix-digits_of w zero v h = omega arith
radix-digits_of w (suc n) v h =
    ap (λ (t : ℕ). v % 2 ^ w + 2 ^ w * t)
      (radix-digits_of w n (v / 2 ^ w) (upper_digits (2 ^ w) v (size w n) (positive w) h))
    ∙ mod-add-div v (2 ^ w)

pub digits_of_below : (w n v : ℕ) → radix w (digits_of w n v) < size w n
digits_of_below w n v =
    subst (λ (t : ℕ). radix w (digits_of w n v) < size w t) (length-digits_of w n v)
      (radix_below w (digits_of w n v) (digits_of-Fits w n v))

pub map_id : (xs : List ℕ) → map (λ x. x) xs ≡ xs
map_id [] = refl
map_id (x ∷ xs) = ap (λ ys. x ∷ ys) (map_id xs)

map-append : (f : ℕ → ℕ) (xs ys : List ℕ) → map f (xs ++ ys) ≡ map f xs ++ map f ys
map-append f [] ys = refl
map-append f (x ∷ xs) ys = ap (λ zs. f x ∷ zs) (map-append f xs ys)

pub All-take : (P : ℕ → Type 0) (n : ℕ) (xs : List ℕ) → All P xs → All P (take n xs)
All-take P zero xs h = tt
All-take P (suc n) [] h = tt
All-take P (suc n) (x ∷ xs) (h, hs) = (h, All-take P n xs hs)

pub All-drop : (P : ℕ → Type 0) (n : ℕ) (xs : List ℕ) → All P xs → All P (drop n xs)
All-drop P zero xs h = h
All-drop P (suc n) [] h = tt
All-drop P (suc n) (x ∷ xs) (h, hs) = All-drop P n xs hs

pub All-map :
    (P Q : ℕ → Type 0) (f : ℕ → ℕ) (xs : List ℕ)
    → ((x : ℕ) → P x → Q (f x))
    → All P xs
    → All Q (map f xs)
All-map P Q f [] h ps = tt
All-map P Q f (x ∷ xs) h (p, ps) = (h x p, All-map P Q f xs h ps)

-- When one group of `k` digits of `w` bits has as many values as `k'` digits of `w'` bits, and each
-- group is written with the digits of the same number, then so are all groups together. A digit is
-- coded from an entry, and an entry decoded from a digit.
module _ (w k w' k' : ℕ) (same : size w k ≡ size w' k') (f : List ℕ → List ℕ) (code decode : ℕ → ℕ)
    (P : ℕ → Type 0) (code_fits : (x : ℕ) → P x → code x < 2 ^ w)
    (group_lem : (xs : List ℕ)
      → length xs ≡ k
      → All P xs
      → f xs ≡ map decode (digits_of w' k' (radix w (map code xs)))) where
  regroup_first :
      (n n' : ℕ) (xs : List ℕ)
      → length xs ≡ suc n * k
      → All P xs
      → n' ≡ n * k'
      → map decode (digits_of w' (k' + n') (radix w (map code xs)))
        ≡ f (take k xs) ++ map decode (digits_of w' n' (radix w (map code (drop k xs))))
  regroup_first n n' xs h ps e =
      let first : length (take k xs) ≡ k = length-take k xs ∙ grind arith in
      let first_code : length (map code (take k xs)) ≡ k = length-map code (take k xs) ∙ first in
      let cut : radix w (map code xs)
          ≡ radix w (map code (take k xs)) + size w k * radix w (map code (drop k xs)) =
        ap (λ ys. radix w (map code ys)) (sym (take-append-drop k xs))
        ∙ ap (radix w) (map-append code (take k xs) (drop k xs))
        ∙ radix-append w (map code (take k xs)) (map code (drop k xs))
        ∙ ap (λ (t : ℕ). radix w (map code (take k xs)) + size w t * radix w (map code (drop k xs)))
            first_code in
      let below : radix w (map code (take k xs)) < size w' k' =
        subst (λ (t : ℕ). radix w (map code (take k xs)) < t) (ap (size w) first_code ∙ same)
          (radix_below w (map code (take k xs))
            (All-map P (Fits w) code (take k xs) code_fits (All-take P k xs ps))) in
      ap (λ (t : ℕ). map decode (digits_of w' (k' + n') t))
        (cut
          ∙ ap (λ (t : ℕ). radix w (map code (take k xs)) + t * radix w (map code (drop k xs)))
              same)
      ∙ ap (map decode) (digits_of-append w' k' n' _ _ below)
      ∙ map-append decode _ _
      ∙ ap (λ ys. ys ++ map decode (digits_of w' n' (radix w (map code (drop k xs)))))
          (sym (group_lem (take k xs) first (All-take P k xs ps)))

  pub groups_regroup :
      (n n' : ℕ) (xs : List ℕ)
      → length xs ≡ n * k
      → All P xs
      → n' ≡ n * k'
      → groups n k f xs ≡ map decode (digits_of w' n' (radix w (map code xs)))
  unfolding groups digits_of
  groups_regroup zero n' xs h ps e =
      let none_left : zero ≡ n' = omega arith in
      ap (λ (t : ℕ). map decode (digits_of w' t (radix w (map code xs)))) none_left
  groups_regroup (suc n) n' xs h ps e =
      let all_groups : k' + n * k' ≡ suc n * k' = grind arith in
      ap (λ ys. f (take k xs) ++ ys)
        (groups_regroup n (n * k') (drop k xs) (length-drop k xs ∙ grind arith) (All-drop P k xs ps)
          refl)
      ∙ sym (regroup_first n (n * k') xs h ps refl)
      ∙ ap (λ (t : ℕ). map decode (digits_of w' t (radix w (map code xs)))) (all_groups ∙ sym e)

-- The entries of a list, read by their index from `i` on.
unfoldable pub entries : ℕ → ℕ → List ℕ → List ℕ
entries i zero xs = []
entries i (suc k) xs = get_or xs i 0 ∷ entries (suc i) k xs

entries_tail : (i k x : ℕ) (xs : List ℕ) → entries (suc i) k (x ∷ xs) ≡ entries i k xs
unfolding entries
entries_tail i zero x xs = refl
entries_tail i (suc k) x xs = ap (λ ys. get_or xs i 0 ∷ ys) (entries_tail (suc i) k x xs)

pub entries_all : (xs : List ℕ) → entries 0 (length xs) xs ≡ xs
unfolding entries
entries_all [] = refl
entries_all (x ∷ xs) = ap (λ ys. x ∷ ys) (entries_tail 0 (length xs) x xs ∙ entries_all xs)

pub entries_eq : (k : ℕ) (xs : List ℕ) → length xs ≡ k → entries 0 k xs ≡ xs
entries_eq k xs h = ap (λ (t : ℕ). entries 0 t xs) (sym h) ∙ entries_all xs

pub length-entries : (i k : ℕ) (xs : List ℕ) → length (entries i k xs) ≡ k
unfolding entries
length-entries i zero xs = refl
length-entries i (suc k) xs = ap suc (length-entries (suc i) k xs)
