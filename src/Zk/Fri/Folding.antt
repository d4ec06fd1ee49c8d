-- ===== src/Zk/Fri/Folding.antt =====
-- The folding of solomon-zk/src/fri.rs ends in a constant, without a panic.
use project_solomon.Prelude.{
  ℕ, zero, suc, ◌+◌, ◌-◌, ◌/◌, ◌^◌, ◌≤◌, ◌<◌, List, [], ◌∷◌, ◌++◌, none, some, length, get_elem?,
}
use project_solomon.Prelude.{◌≡◌, ◌≢◌, refl, sym, ap, ◌∙◌, arith}
use project_solomon.Prelude.{
  ltb, leb, if◌then◌else◌, ◌==◌, ◌||◌, ◌&&◌, Bool, true, false, guard, ◌>>◌, Result, ok, ◌>>=◌,
}
use mathlib.Core.Path.{subst}
use project_solomon.Prelude.Residues.{lt-two_pow}
use native.Mathlib.Nat.{pow-suc, pow-le-pow_right, mod-lt, div-le_self}
use project_solomon.Zk.Field.{goldilocks_prime, exp, invert, from_u64}
use project_solomon.Zk.Field.Power.{exp-mod}
use project_solomon.Zk.Field.Units.{
  Invertible, Invertible-pow, Invertible-mod, Invertible-ne, seven-Invertible,
}
use project_solomon.Zk.Merkle.{Digest}
use project_solomon.Zk.Verifier.{Fault, get_root_of_unity, any_power, is_power_of_two, sample_ext}
use project_solomon.Zk.Fri.{
  expect, fold_point, fold_points, merkleize_evals, fold_layers, fold_to_constant,
}

or_left : (t u : Bool) → t ≡ true → t || u ≡ true
or_left true u h = refl
or_left false u h = cc

or_right : (t u : Bool) → u ≡ true → t || u ≡ true
or_right true u h = refl
or_right false u h = h

any_power-pow : (j k : ℕ) → any_power (suc (j + k)) (2 ^ k) ≡ true
unfolding any_power
any_power-pow zero k = or_left (2 ^ (0 + k) == 2 ^ k) (any_power (0 + k) (2 ^ k)) (ground arith)
any_power-pow (suc j) k =
    let next : suc j + k ≡ suc (j + k) = omega arith in
    or_right (2 ^ (suc j + k) == 2 ^ k) (any_power (suc j + k) (2 ^ k))
      (subst (λ t. any_power t (2 ^ k) ≡ true) (sym next) (any_power-pow j k))

pow_below : (n : ℕ) → n ≤ 32 → 2 ^ n ≤ 4294967296
pow_below n h = pow-le-pow_right {n = 2} (omega arith) h

is_power_of_two-pow : (n : ℕ) → n < 64 → is_power_of_two (2 ^ n) ≡ true
unfolding is_power_of_two
is_power_of_two-pow n h =
    let split : suc ((63 - n) + n) ≡ 64 = omega arith in
    subst (λ t. any_power t (2 ^ n) ≡ true) split (any_power-pow (63 - n) n)

guard-passed :
    {A : Type 0} (t u : Bool) (a : A)
    → t ≡ true
    → u ≡ true
    → (guard (t && u) Fault.panicked >> ok a) ≡ ok a
guard-passed true true a h k = refl
guard-passed true false a h k = cc
guard-passed false u a h k = cc

-- The exponent of the root of unity of a domain of the given size.
abbrev root_power : ℕ → ℕ
root_power d = (goldilocks_prime - 1) / d

root_exists : (n : ℕ) → n ≤ 32 → get_root_of_unity (2 ^ n) ≡ ok (exp 7 (root_power (2 ^ n)))
unfolding get_root_of_unity
root_exists n h =
    let fits : leb (2 ^ n) 4294967296 ≡ true = ground (arith, pow_below n h) in
    guard-passed (is_power_of_two (2 ^ n)) (leb (2 ^ n) 4294967296) (exp 7 (root_power (2 ^ n)))
      (is_power_of_two-pow n (omega arith)) fits

power-Invertible :
    (a k : ℕ)
    → a < goldilocks_prime
    → k < 2 ^ 64
    → Invertible goldilocks_prime a
    → Invertible goldilocks_prime (exp a k)
power-Invertible a k l h u =
    subst (Invertible goldilocks_prime) (sym (exp-mod a k l h)) (
      Invertible-mod goldilocks_prime (a ^ k) (Invertible-pow goldilocks_prime a k (omega arith) u))

power-below : (a k : ℕ) → a < goldilocks_prime → k < 2 ^ 64 → exp a k < goldilocks_prime
power-below a k l h =
    subst (λ t. t < goldilocks_prime) (sym (exp-mod a k l h)) (mod-lt (a ^ k) (omega arith))

root_power-below : (d : ℕ) → root_power d < 2 ^ 64
root_power-below d = omega (arith, div-le_self (goldilocks_prime - 1) d)

-- A power of a root of unity is not zero, so that it has an inverse.
point_ne : (d i : ℕ) → i < 2 ^ 64 → exp (exp 7 (root_power d)) i ≢ 0
point_ne d i h = Invertible-ne goldilocks_prime (exp (exp 7 (root_power d)) i) (
    power-Invertible (exp 7 (root_power d)) i
      (power-below 7 (root_power d) (omega arith) (root_power-below d)) h
      (power-Invertible 7 (root_power d) (omega arith) (root_power-below d) seven-Invertible))

expect-some :
    {A : Type 0} (t : Bool) (a : A) → t ≡ false → expect (if t then none else some a) ≡ ok a
unfolding expect
expect-some true a h = cc
expect-some false a h = refl

inverse_exists : (a : ℕ) → a ≢ 0 → expect (invert a) ≡ ok (exp a (goldilocks_prime - 2))
unfolding invert
inverse_exists a h = expect-some (a == 0) (exp a (goldilocks_prime - 2)) (ground arith)

-- What a computation returns, without a panic.
abbrev Gives : {A : Type 0} → (A → Type 0) → Result Fault A → Type 0
Gives {A = A} P r = (a : A) × (r ≡ ok a) × P a

Gives-bind :
    {A B : Type 0} (P : A → Type 0) (Q : B → Type 0) (r : Result Fault A) (f : A → Result Fault B)
    → Gives P r
    → ((a : A) → P a → Gives Q (f a))
    → Gives Q (r >>= f)
Gives-bind P Q r f (a, e, p) k = let (b, d, q) = k a p in (b, ap (λ t. t >>= f) e ∙ d, q)

got_elem : (xs : List ℕ) (i : ℕ) → i < length xs → Gives (λ _. Unit {0}) (expect (get_elem? xs i))
unfolding expect
got_elem [] i h = absurd (omega arith)
got_elem (x ∷ xs) zero h = (x, refl, tt)
got_elem (x ∷ xs) (suc i) h = got_elem xs i (omega arith)

folded_point :
    (inv2 beta d : ℕ) (evals : List ℕ) (next_len i : ℕ)
    → i < 2 ^ 64
    → i + next_len < length evals
    → Gives (λ _. Unit {0}) (fold_point inv2 beta (exp 7 (root_power d)) evals next_len i)
unfolding fold_point
folded_point inv2 beta d evals next_len i h k =
    Gives-bind (λ _. Unit {0}) (λ _. Unit {0}) (expect (get_elem? evals i)) _
      (got_elem evals i (omega arith))
      (λ f_x _.
        Gives-bind (λ _. Unit {0}) (λ _. Unit {0}) (expect (get_elem? evals (i + next_len))) _
          (got_elem evals (i + next_len) k)
          (λ f_neg_x _.
            Gives-bind (λ _. Unit {0}) (λ _. Unit {0})
              (expect (invert (exp (exp 7 (root_power d)) i))) _
              (_, inverse_exists (exp (exp 7 (root_power d)) i) (point_ne d i h), tt)
              (λ x _. (_, refl, tt))))

folded_points :
    (inv2 beta d : ℕ) (evals : List ℕ) (next_len n i : ℕ)
    → i + n ≤ 2 ^ 64
    → i + n + next_len ≤ length evals
    → Gives
        (λ out. length out ≡ n)
        (fold_points inv2 beta (exp 7 (root_power d)) evals next_len n i)
unfolding fold_points
folded_points inv2 beta d evals next_len zero i h k = ([], refl, refl)
folded_points inv2 beta d evals next_len (suc n) i h k =
    Gives-bind (λ _. Unit {0}) (λ out. length out ≡ suc n)
      (fold_point inv2 beta (exp 7 (root_power d)) evals next_len i) _
      (folded_point inv2 beta d evals next_len i (omega arith) (omega arith))
      (λ v _.
        Gives-bind (λ out. length out ≡ n) (λ out. length out ≡ suc n)
          (fold_points inv2 beta (exp 7 (root_power d)) evals next_len n (i + 1)) _
          (folded_points inv2 beta d evals next_len n (i + 1) (omega arith) (omega arith))
          (λ rest e. (v ∷ rest, refl, ap suc e)))

Gives-if :
    {A : Type 0} (P : A → Type 0) (t : Bool) (x y : Result Fault A)
    → (t ≡ true → Gives P x)
    → (t ≡ false → Gives P y)
    → Gives P (if t then x else y)
Gives-if P true x y h k = h refl
Gives-if P false x y h k = k refl

positive : (n : ℕ) → 1 ≤ 2 ^ n
positive n = pow-le-pow_right {n = 2} (omega arith) {i = 0} (omega arith)

module _ (hash : List ℕ → Digest) where
  -- One evaluation is left, and there are as many layers as given.
  abbrev pub Folded : ℕ → List ℕ × List (Digest × List (List Digest)) × List ℕ → Type 0
  Folded n (last, layers, state) = (length last ≡ 1) × (length layers ≡ n)

  layers-Folded :
      (inv2 n fuel : ℕ) (evals state : List ℕ)
      → n ≤ fuel
      → n ≤ 32
      → length evals ≡ 2 ^ n
      → Gives (Folded n) (fold_layers hash inv2 fuel evals state)
  unfolding fold_layers
  layers-Folded inv2 zero zero evals state f b h = (_, refl, (h, refl))
  layers-Folded inv2 zero (suc fuel) evals state f b h =
      Gives-if (Folded 0) (ltb 1 (length evals)) _ _ (λ t. absurd (ground (arith, h)))
        (λ t. (_, refl, (h, refl)))
  layers-Folded inv2 (suc n) zero evals state f b h = absurd (omega arith)
  layers-Folded inv2 (suc n) (suc fuel) evals state f b h =
      let half : length evals / 2 ≡ 2 ^ n = omega (arith, h, pow-suc 2 n) in
      Gives-if (Folded (suc n)) (ltb 1 (length evals)) _ _
        (λ t.
          Gives-bind (λ root. root ≡ exp 7 (root_power (2 ^ suc n))) (Folded (suc n))
            (get_root_of_unity (length evals)) _
            (_, ap get_root_of_unity h ∙ root_exists (suc n) b, refl)
            (λ root e.
              Gives-bind (λ out. length out ≡ length evals / 2) (Folded (suc n))
                (fold_points inv2 (sample_ext hash state).0 root evals (length evals / 2)
                  (length evals / 2) 0)
                _
                (subst
                  (λ w.
                    Gives (λ out. length out ≡ length evals / 2)
                      (fold_points inv2 (sample_ext hash state).0 w evals (length evals / 2)
                        (length evals / 2) 0))
                  (sym e)
                  (folded_points inv2 (sample_ext hash state).0 (2 ^ suc n) evals (length evals / 2)
                    (length evals / 2) 0 (omega (arith, half, pow_below n (omega arith)))
                    (omega arith)))
                (λ next_evals e'.
                  Gives-bind (Folded n) (Folded (suc n))
                    (fold_layers hash inv2 fuel next_evals
                      ((sample_ext hash state).1 ++ (merkleize_evals hash next_evals).0))
                    _
                    (layers-Folded inv2 n fuel next_evals _ (omega arith) (omega arith) (e' ∙ half))
                    (λ (last, layers, state) (l, c). (_, refl, (l, ap suc c))))))
        (λ t. absurd (ground (arith, h, pow-suc 2 n, positive n)))

  -- The folding of 2^n evaluations, up to 2^32, returns: it does not panic, one evaluation is left,
  -- and n + 1 layers are committed.
  pub fold_to_constant-finishes :
      (n : ℕ) (evals state : List ℕ)
      → n ≤ 32
      → length evals ≡ 2 ^ n
      → (last : List ℕ) × (layers : List (Digest × List (List Digest))) × (after : List ℕ)
        × (fold_to_constant hash evals state ≡ ok (last, layers, after))
        × (length last ≡ 1)
        × (length layers ≡ n + 1)
  unfolding fold_to_constant from_u64
  fold_to_constant-finishes n evals state b h =
      let ((last, layers, after), d, (l, c)) =
        layers-Folded (exp 2 (goldilocks_prime - 2)) n (length evals) evals
          (state ++ (merkleize_evals hash evals).0) (omega (arith, lt-two_pow n, h)) b h in
      (
        last,
        merkleize_evals hash evals ∷ layers,
        after,
        ap
            (λ r.
              r >>= λ (last, layers, after). ok (last, merkleize_evals hash evals ∷ layers, after))
            d,
        l,
        omega (arith, c),
      )
