-- ===== src/Backends/Examples.antt =====
-- The theorem on the choice of a backend, at two decode backends of which one cannot run.
use full_inference_engine.Base.{ℕ, Option, none, some, [], ◌∷◌, true, String}
use full_inference_engine.Backends.Registry.{decode, Geometry, Backend, Registry, resolve, named}
use full_inference_engine.Backends.Registry.Choice.{Answers, resolve-Answers}

abbrev shapes : Geometry
shapes = record {
  num_q_heads = 16;
  num_kv_heads = 8;
  head_dim = 128;
  block_size = 16;
  dtype = "float16";
  kv_dtype = "float16";
}

abbrev kernel : String → ℕ → Option String → Backend (Unit {0}) ℕ
kernel name priority reason = record {
  name = name;
  phase = decode;
  run = tt;
  available = λ profile geometry. reason;
  priority = priority;
  graph_safe = true;
  summary = "";
  tags = [];
}

abbrev two_kernels : Registry (Unit {0}) ℕ
two_kernels =
    ((decode, "flash"), kernel "flash" 80 (some "no wheel"))
    ∷ ((decode, "per_head"), kernel "per_head" 50 none)
    ∷ []

resolve-Answers_example :
    Answers decode 75 shapes two_kernels
      (named (some "auto"))
      (resolve decode (some "auto") 75 shapes two_kernels)
resolve-Answers_example = resolve-Answers decode 75 shapes two_kernels (some "auto")
