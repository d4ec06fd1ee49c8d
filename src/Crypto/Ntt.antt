-- ===== src/Crypto/Ntt.antt =====
-- The number theoretic transforms of solomon-core/src/crypto/poly.rs, whose butterflies run in an
-- order shuffled from the coefficients. A polynomial is the list of its 256 coefficients, a stage is
-- given by `shift`, the logarithm of its `len`.
pub mod Zetas
pub mod Perm
pub mod Butterfly
pub mod Order
pub mod Stage
pub mod Inverse
pub mod RoundTrip
use project_solomon.Prelude.{
  ℕ, zero, suc, ◌+◌, ◌-◌, ◌*◌, ◌/◌, ◌%◌, ◌^◌, List, [], ◌∷◌, map, get_or, set,
}
use project_solomon.Prelude.{bit_and, bit_xor}
use project_solomon.Crypto.Scalar.{q, widen, add, sub, mul}
use project_solomon.Crypto.Ntt.Zetas.{zetas}

-- `next_u32`: the number and the next state.
unfoldable pub next_u32 : ℕ → ℕ × ℕ
next_u32 state =
    let next : ℕ = (state * 6364136223846793005 + 1442695040888963407) % 2 ^ 64 in
    (next / 2 ^ 32, next)

unfoldable pub hash_loop : List ℕ → ℕ → ℕ
unfolding widen
hash_loop [] hash = hash
hash_loop (c ∷ cs) hash = hash_loop cs (bit_xor hash (widen c) * 0x100000001b3 % 2 ^ 64)

unfoldable pub hash_coefficients : List ℕ → ℕ
unfolding hash_loop
hash_coefficients coeffs = hash_loop coeffs 0xcbf29ce484222325

-- `order.swap(i, j)`
unfoldable pub swap : List ℕ → ℕ → ℕ → List ℕ
swap order i j = set (set order i (get_or order j 0)) j (get_or order i 0)

-- `for i in (1..128).rev() { .. }` from `i` down: the order and the state.
unfoldable pub shuffle : ℕ → ℕ → List ℕ → List ℕ × ℕ
unfolding next_u32 swap
shuffle zero state order = (order, state)
shuffle (suc i) state order =
    let (number, state) = next_u32 state in
    let j : ℕ = number * (suc i + 1) / 2 ^ 32 in shuffle i state (swap order (suc i) j)

unfoldable pub count_from : ℕ → ℕ → List ℕ
count_from i zero = []
count_from i (suc n) = i ∷ count_from (suc i) n

-- The order of one stage, and the state after it.
unfoldable pub stage_order : ℕ → List ℕ × ℕ
unfolding shuffle count_from
stage_order state = shuffle 127 state (count_from 0 128)

-- `j` of a butterfly.
unfoldable pub position : ℕ → ℕ → ℕ
position shift idx = let len : ℕ = 2 ^ shift in idx / 2 ^ shift * len * 2 + bit_and idx (len - 1)

-- The Cooley-Tukey butterfly.
unfoldable pub butterfly : ℕ → List ℕ → ℕ → List ℕ
unfolding position add sub mul zetas
butterfly shift coeffs idx =
    let len : ℕ = 2 ^ shift in
    let j : ℕ = position shift idx in
    let k_val : ℕ = 128 / 2 ^ shift + idx / 2 ^ shift in
    let zeta : ℕ = get_or zetas k_val 0 in
    let s_j : ℕ = get_or coeffs j 0 in
    let t : ℕ = mul (get_or coeffs (j + len) 0) zeta in
    set (set coeffs j (add s_j t)) (j + len) (sub s_j t)

-- The Gentleman-Sande butterfly.
unfoldable pub inverse_butterfly : ℕ → List ℕ → ℕ → List ℕ
unfolding position add sub mul zetas
inverse_butterfly shift coeffs idx =
    let len : ℕ = 2 ^ shift in
    let j : ℕ = position shift idx in
    let k_val : ℕ = 256 / 2 ^ shift - 1 - idx / 2 ^ shift in
    let zeta : ℕ = q - get_or zetas k_val 0 in
    let s_j : ℕ = get_or coeffs j 0 in
    let s_j_len : ℕ = get_or coeffs (j + len) 0 in
    set (set coeffs j (add s_j s_j_len)) (j + len) (mul (sub s_j s_j_len) zeta)

-- `for &idx_u8 in order.iter() { .. }`
unfoldable pub run : (List ℕ → ℕ → List ℕ) → List ℕ → List ℕ → List ℕ
run step [] coeffs = coeffs
run step (idx ∷ order) coeffs = run step order (step coeffs idx)

-- `while len >= 1 { .. len >>= 1; }`, for the stages below `n`.
unfoldable pub ntt_stages : ℕ → ℕ → List ℕ → List ℕ
unfolding stage_order butterfly run
ntt_stages zero state coeffs = coeffs
ntt_stages (suc shift) state coeffs =
    let (order, state) = stage_order state in
    ntt_stages shift state (run (butterfly shift) order coeffs)

unfoldable pub ntt : List ℕ → List ℕ
unfolding hash_coefficients ntt_stages
ntt coeffs = ntt_stages 8 (hash_coefficients coeffs) coeffs

-- `while len <= 128 { .. len <<= 1; }`, for `n` stages from `shift` on.
unfoldable pub intt_stages : ℕ → ℕ → ℕ → List ℕ → List ℕ
unfolding stage_order inverse_butterfly run
intt_stages zero shift state coeffs = coeffs
intt_stages (suc n) shift state coeffs =
    let (order, state) = stage_order state in
    intt_stages n (suc shift) state (run (inverse_butterfly shift) order coeffs)

unfoldable pub intt : List ℕ → List ℕ
unfolding hash_coefficients intt_stages mul
intt coeffs = map (λ s. mul s 16382) (intt_stages 8 0 (hash_coefficients coeffs) coeffs)
