-- ===== src/Proxy/Stream/Metering.antt =====
-- The usage that a stream is charged with, and its price.
use microvm_terminal.Base.{
  ℕ, ◌+◌, ◌*◌, ◌^◌, ◌<◌, ◌≡◌, ap, ◌∙◌, ◌⊎◌, true, Option, some, List, [], ◌∷◌, map, Bytes, bytes,
  get_elem?, drop, All, arith, if◌then◌else◌,
}
use microvm_terminal.Base.Int64.{ℤ, pos, lt64, le64, add64_pos, mul64_pos}
use microvm_terminal.Base.Trim.{trim_space, has_prefix}
use microvm_terminal.Proxy.Stream.{Outer, Usage, max_from, parse_usage, estimate_cost_micros}

-- `m` is the greatest of the numbers and 0.
pub record IsMax (m : ℤ) (xs : List ℤ) : Type 0 where
  pub above : All (λ x. le64 x m ≡ true) xs
  pub not_negative : le64 (pos 0) m ≡ true
  pub attained : (m ≡ pos 0) ⊎ ((i : ℕ) × (get_elem? xs i ≡ some m))

-- One step of the running maximum.
abbrev step_max : ℤ → ℤ → ℤ
step_max m x = if lt64 m x then x else m

-- The usage of each data line of a stream.
pub data_usages : (Bytes → Option Outer) → List Bytes → List Usage
data_usages unmarshal [] = []
data_usages unmarshal (l ∷ ls) =
    if has_prefix l (bytes "data:")
    then parse_usage unmarshal (trim_space (drop 5 l)) ∷ data_usages unmarshal ls
    else data_usages unmarshal ls

-- The two components, each by its running maximum.
abbrev MaxUsage : Usage → List Usage → Usage → Type 0
MaxUsage u us v =
    (v.request_tokens ≡ max_from u.request_tokens (map (λ x. x.request_tokens) us))
    × (v.response_tokens ≡ max_from u.response_tokens (map (λ x. x.response_tokens) us))

-- The price of a usage is three micros for a token in and fifteen for a token out, exactly, as long
-- as both counts are below 2^58.
pub estimate_cost_micros_exact :
    (i o : ℕ)
    → i < 2 ^ 58
    → o < 2 ^ 58
    → estimate_cost_micros (record { request_tokens = pos i; response_tokens = pos o })
      ≡ pos (3 * i + 15 * o)
unfolding estimate_cost_micros
estimate_cost_micros_exact i o h g =
    rw (mul64_pos i 3 (omega arith) (omega arith), mul64_pos o 15 (omega arith) (omega arith))
      (add64_pos (i * 3) (o * 15) (omega arith) ∙ ap pos (omega arith))
