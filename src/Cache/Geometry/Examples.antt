-- ===== src/Cache/Geometry/Examples.antt =====
-- The theorem on budgets at the shape of a small model in 16 bits.
use full_inference_engine.Base.{ℕ, ◌≡◌, ◌*◌, refl, none, some, arith}
use full_inference_engine.Cache.Geometry.{
  ModelConfig, KvCacheGeometry, from_model_config, derived_head_dim, max_tokens_for_budget,
  max_concurrent_requests,
}
use full_inference_engine.Cache.Geometry.Budget.{cache_bytes, Fits, max_tokens_for_budget-Fits}

abbrev config : ModelConfig
config = record {
  num_hidden_layers = some 28;
  num_key_value_heads = some 8;
  num_attention_heads = some 16;
  head_dim = none;
  hidden_size = some 2048;
}

abbrev geometry : KvCacheGeometry
geometry = record {
  num_layers = 28;
  num_kv_heads = 8;
  head_dim = 128;
  dtype_bytes = 2;
  num_query_heads = some 16;
}

max_tokens_for_budget-Fits_example :
    Fits 1000000 (cache_bytes geometry) (max_tokens_for_budget geometry 1000000)
    × ((n : ℕ) × (max_concurrent_requests geometry 1000000 4 ≡ some n)
        × Fits 1000000 (λ requests. requests * cache_bytes geometry 4) n)
unfolding from_model_config derived_head_dim
max_tokens_for_budget-Fits_example =
    max_tokens_for_budget-Fits config 2 geometry 1000000 4 refl (omega arith) (omega arith)
