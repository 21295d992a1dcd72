-- ===== src/Cache/Geometry.antt =====
-- `KVCacheGeometry` of engine/cache/kv_cache.py: the bytes that the cache of a model needs. `dtype_bytes` is
-- what torch says of the number type.
pub mod Budget
mod Examples
use full_inference_engine.Base.{
  ℕ, ◌*◌, ◌/◌, Bool, true, false, not, ◌||◌, ◌&&◌, Option, none, some, ◌==◌, if◌then◌else◌,
}

-- What is read of a model's configuration.
pub record ModelConfig : Type 0 where
  pub num_hidden_layers : Option ℕ
  pub num_key_value_heads : Option ℕ
  pub num_attention_heads : Option ℕ
  pub head_dim : Option ℕ
  pub hidden_size : Option ℕ

pub record KvCacheGeometry : Type 0 where
  pub num_layers : ℕ
  pub num_kv_heads : ℕ
  pub head_dim : ℕ
  pub dtype_bytes : ℕ
  pub num_query_heads : Option ℕ

-- `hidden_size // num_attention_heads`, where both are given and not zero.
pub derived_head_dim : Option ℕ → Option ℕ → Option ℕ
derived_head_dim none heads = none
derived_head_dim (some size) none = none
derived_head_dim (some size) (some heads) =
    if (size == 0) || (heads == 0) then none else some (size / heads)

abbrev pub or_else : Option ℕ → Option ℕ → Option ℕ
or_else none other = other
or_else (some n) other = some n

-- A value that is given and positive.
abbrev pub positive : Option ℕ → Option ℕ
positive none = none
positive (some n) = if n == 0 then none else some n

-- `none` is the `ValueError`.
pub from_model_config : ModelConfig → ℕ → Option KvCacheGeometry
from_model_config config dtype_bytes = elim (positive config.num_hidden_layers) [
  | none ↦ none
  | some layers ↦ elim (positive (or_else config.num_key_value_heads config.num_attention_heads)) [
    | none ↦ none
    | some kv_heads ↦
        elim (positive (
          or_else config.head_dim
            (derived_head_dim config.hidden_size config.num_attention_heads))) [
              | none ↦ none
              | some head_dim ↦ some (record {
                num_layers = layers;
                num_kv_heads = kv_heads;
                head_dim = head_dim;
                dtype_bytes = dtype_bytes;
                num_query_heads = config.num_attention_heads;
              })
            ]
  ]
]

pub bytes_per_token : KvCacheGeometry → ℕ
bytes_per_token g = 2 * g.num_layers * g.num_kv_heads * g.head_dim * g.dtype_bytes

pub mha_bytes_per_token : KvCacheGeometry → Option ℕ
mha_bytes_per_token g = elim g.num_query_heads [
  | none ↦ none
  | some heads ↦ some (2 * g.num_layers * heads * g.head_dim * g.dtype_bytes)
]

pub bytes_for_tokens : KvCacheGeometry → ℕ → ℕ
bytes_for_tokens g tokens = bytes_per_token g * tokens

pub max_tokens_for_budget : KvCacheGeometry → ℕ → ℕ
max_tokens_for_budget g budget_bytes = budget_bytes / bytes_per_token g

-- `none` is the `ValueError`.
pub max_concurrent_requests : KvCacheGeometry → ℕ → ℕ → Option ℕ
max_concurrent_requests g budget_bytes tokens_per_request =
    if tokens_per_request == 0
    then none
    else some (budget_bytes / bytes_for_tokens g tokens_per_request)
