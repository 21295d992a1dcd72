-- ===== src/Cache/Prefix/Figures.antt =====
-- `snapshot` of engine/cache/prefix.py. The rate of hits is given as a fraction.
use full_inference_engine.Base.{ℕ, ◌==◌, if◌then◌else◌, length}
use full_inference_engine.Cache.Prefix.{PrefixCache}

pub record PrefixSnapshot : Type 0 where
  pub max_blocks : ℕ
  pub cached_blocks : ℕ
  pub radix_nodes : ℕ
  pub exact_entries : ℕ
  pub lookups : ℕ
  pub hits : ℕ
  pub hit_tokens : ℕ
  pub hit_rate : ℕ × ℕ
  pub evictions : ℕ

pub snapshot : PrefixCache → PrefixSnapshot
snapshot c = record {
  max_blocks = c.max_blocks;
  cached_blocks = length c.references;
  radix_nodes = length c.nodes;
  exact_entries = length c.exact;
  lookups = c.lookups;
  hits = c.hits;
  hit_tokens = c.hit_tokens;
  hit_rate = if c.lookups == 0 then (0, 1) else (c.hits, c.lookups);
  evictions = c.evictions;
}
