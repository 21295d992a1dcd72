-- ===== src/Cache/Geometry/Budget.antt =====
-- A budget of bytes is used as far as whole tokens and whole requests allow, the bytes being those of the
-- key and value tensors of every layer.
use full_inference_engine.Base.{
  ℕ, zero, suc, ◌+◌, ◌*◌, ◌/◌, ◌≤◌, ◌<◌, ◌≡◌, ◌∙◌, ap, sym, subst, some, List, [], ◌∷◌, arith,
}
use mathlib.Core.Path.{fun_ext}
use native.Mathlib.Nat.{mul-div-le, div-lt_iff_lt-mul, mul-pos, mul_comm}
use full_inference_engine.Cache.Geometry.{
  ModelConfig, KvCacheGeometry, from_model_config, bytes_per_token, bytes_for_tokens,
  max_tokens_for_budget, max_concurrent_requests,
}

-- A tensor of this shape, its elements of `dtype_bytes` each.
abbrev pub tensor_bytes : List ℕ → ℕ → ℕ
tensor_bytes [] dtype_bytes = dtype_bytes
tensor_bytes (n ∷ shape) dtype_bytes = n * tensor_bytes shape dtype_bytes

-- What the cache of so many tokens is: in each layer a key and a value for each token and each key-value head.
abbrev pub layers_bytes : ℕ → KvCacheGeometry → ℕ → ℕ
layers_bytes zero g tokens = 0
layers_bytes (suc n) g tokens =
    tensor_bytes (tokens ∷ g.num_kv_heads ∷ g.head_dim ∷ []) g.dtype_bytes
    + tensor_bytes (tokens ∷ g.num_kv_heads ∷ g.head_dim ∷ []) g.dtype_bytes
    + layers_bytes n g tokens

abbrev pub cache_bytes : KvCacheGeometry → ℕ → ℕ
cache_bytes g tokens = layers_bytes g.num_layers g tokens

-- A budget is enough for `count` of what needs `need count` bytes, and not for one more.
abbrev pub Fits : ℕ → (ℕ → ℕ) → ℕ → Type 0
Fits budget need count = (need count ≤ budget) × (budget < need (suc count))

layers_bytes-mul :
    (n : ℕ) (g : KvCacheGeometry) (tokens : ℕ)
    → layers_bytes n g tokens ≡ 2 * n * g.num_kv_heads * g.head_dim * g.dtype_bytes * tokens
layers_bytes-mul zero g tokens = grind arith
layers_bytes-mul (suc n) g tokens = grind (arith, layers_bytes-mul n g tokens)

-- The formula of the source gives the bytes of the tensors.
bytes_for_tokens-cache_bytes :
    (g : KvCacheGeometry) (tokens : ℕ) → bytes_for_tokens g tokens ≡ cache_bytes g tokens
unfolding bytes_for_tokens bytes_per_token
bytes_for_tokens-cache_bytes g tokens = sym (layers_bytes-mul g.num_layers g tokens)

unit-Fits : (budget unit : ℕ) → 0 < unit → Fits budget (λ n. unit * n) (budget / unit)
unit-Fits budget unit h = (
  mul-div-le budget unit,
  subst (λ n. budget < n) (mul_comm (suc (budget / unit)) unit)
      ((div-lt_iff_lt-mul {k = unit} {x = budget} {y = suc (budget / unit)} h).0 (omega arith)),
)

module _ (config : ModelConfig) (dtype_bytes : ℕ) (g : KvCacheGeometry) where
  AllPositive : Type 0
  AllPositive =
      (0 < g.num_layers) × (0 < g.num_kv_heads) × (0 < g.head_dim) × (g.dtype_bytes ≡ dtype_bytes)

  config_positive : from_model_config config dtype_bytes ≡ some g → AllPositive
  unfolding from_model_config AllPositive
  config_positive e = ground arith

  bytes_positive :
      from_model_config config dtype_bytes ≡ some g → 0 < dtype_bytes → 0 < bytes_per_token g
  unfolding bytes_per_token AllPositive
  bytes_positive e h =
      let p = config_positive e in
      mul-pos (mul-pos (mul-pos (mul-pos (omega arith) p.0) p.1) p.2)
        (subst (λ n. 0 < n) (sym p.3) h)

  -- For the geometry of a model whose number type has a size, the key and value tensors of all layers for the
  -- tokens that max_tokens_for_budget gives fit into the budget, and those for one token more do not; and
  -- likewise, where the tokens of a request are not zero, the tensors of as many requests as
  -- max_concurrent_requests gives, each with so many tokens.
  pub max_tokens_for_budget-Fits :
      (budget tokens : ℕ)
      → from_model_config config dtype_bytes ≡ some g
      → 0 < dtype_bytes
      → 0 < tokens
      → Fits budget (cache_bytes g) (max_tokens_for_budget g budget)
        × ((n : ℕ) × (max_concurrent_requests g budget tokens ≡ some n)
            × Fits budget (λ requests. requests * cache_bytes g tokens) n)
  max_tokens_for_budget-Fits budget tokens e h k =
      let some_bytes = bytes_positive e h in
      (
        subst (λ need. Fits budget need (max_tokens_for_budget g budget))
            (fun_ext (bytes_for_tokens-cache_bytes g))
            (unfold max_tokens_for_budget bytes_for_tokens in
              unit-Fits budget (bytes_per_token g) some_bytes),
        (
          budget / bytes_for_tokens g tokens,
          unfold max_concurrent_requests in ground arith,
          subst (λ need. Fits budget need (budget / bytes_for_tokens g tokens))
              (fun_ext (requests_bytes tokens))
              (unit-Fits budget (bytes_for_tokens g tokens)
                (unfold bytes_for_tokens in mul-pos some_bytes k)),
        ),
      )
    where
      requests_bytes :
          (t requests : ℕ) → bytes_for_tokens g t * requests ≡ requests * cache_bytes g t
      requests_bytes t requests =
          mul_comm (bytes_for_tokens g t) requests
          ∙ ap (λ (b : ℕ). requests * b) (bytes_for_tokens-cache_bytes g t)
