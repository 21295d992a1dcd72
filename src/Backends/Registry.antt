-- ===== src/Backends/Registry.antt =====
-- engine/backends/registry.py. `R` is the type of what a backend runs, `D` that of device profiles. The
-- registry is the state of `register` and `unregister`. Priorities are naturals.
pub mod Choice
use full_inference_engine.Base.{
  ℕ, ◌/◌, Bool, true, false, not, ◌&&◌, Option, none, some, List, [], ◌∷◌, map, String,
  String_discrete, is_yes, if◌then◌else◌, is_some, Dict, lookup, insert, erase,
}
use full_inference_engine.Base.Order.{text_lt, pair_lt}

pub data Phase : Type 0 where
  decode prefill : Phase

pub record Geometry : Type 0 where
  pub num_q_heads : ℕ
  pub num_kv_heads : ℕ
  pub head_dim : ℕ
  pub block_size : ℕ
  pub dtype : String
  pub kv_dtype : String

pub gqa_group : Geometry → ℕ
gqa_group g = g.num_q_heads / g.num_kv_heads

pub record Backend (R D : Type 0) : Type 0 where
  pub name : String
  pub phase : Phase
  pub run : R
  pub available : D → Geometry → Option String
  pub priority : ℕ
  pub graph_safe : Bool
  pub summary : String
  pub tags : List String

abbrev pub Key : Type 0
Key = Phase × String

pub phase_discrete : Discrete Phase
phase_discrete = hlevel

pub key_discrete : Discrete Key
key_discrete = hlevel (phase_discrete, String_discrete)

abbrev pub Registry : Type 0 → Type 0 → Type 0
Registry R D = Dict Key (Backend R D)

pub data Refusal : Type 0 where
  already_registered unknown_backend : Refusal
  cannot_run : String → Refusal
  none_available : Refusal

pub data Result (A : Type 0) : Type 0 where
  value : A → Result A
  refused : Refusal → Result A

-- `sorted`, for texts.
pub insert_text : String → List String → List String
insert_text s [] = s ∷ []
insert_text s (t ∷ ts) = if text_lt t s then t ∷ insert_text s ts else s ∷ t ∷ ts

pub sort_texts : List String → List String
sort_texts [] = []
sort_texts (s ∷ ss) = insert_text s (sort_texts ss)

-- `if requested and requested != "auto"`
abbrev pub named : Option String → Option String
named none = none
named (some name) =
    if is_yes (String_discrete name "")
    then none
    else if is_yes (String_discrete name "auto")
    then none
    else some name

module _ {R D : Type 0} where
  pub register : Backend R D → Bool → Registry R D → Result (Registry R D)
  register b replace registry =
      if is_some (lookup key_discrete (b.phase, b.name) registry) && not replace
      then refused already_registered
      else value (insert key_discrete (b.phase, b.name) b registry)

  pub unregister : Phase → String → Registry R D → Registry R D
  unregister phase name registry = erase key_discrete (phase, name) registry

  -- `get`
  pub get_backend : Phase → String → Registry R D → Result (Backend R D)
  get_backend phase name registry = elim (lookup key_discrete (phase, name) registry) [
    | none ↦ refused unknown_backend
    | some b ↦ value b
  ]

  pub names_of : Phase → Registry R D → List String
  names_of phase [] = []
  names_of phase (((p, name), b) ∷ registry) =
      if is_yes (phase_discrete p phase)
      then name ∷ names_of phase registry
      else names_of phase registry

  pub names : Phase → Registry R D → List String
  names phase registry = sort_texts (names_of phase registry)

  -- The candidates of `resolve`, from these names on.
  pub candidates : Phase → D → Geometry → Registry R D → List String → List (Backend R D)
  candidates phase profile geometry registry [] = []
  candidates phase profile geometry registry (name ∷ rest) =
      let others = candidates phase profile geometry registry rest in
      elim (get_backend phase name registry) [
        | refused _ ↦ others
        | value b ↦ if is_some (b.available profile geometry) then others else b ∷ others
      ]

  -- `max` by `(priority, name)`.
  pub best_of : Backend R D → List (Backend R D) → Backend R D
  best_of b [] = b
  best_of b (c ∷ rest) = best_of (if pair_lt b.priority b.name c.priority c.name then c else b) rest

  pub resolve : Phase → Option String → D → Geometry → Registry R D → Result (Backend R D)
  resolve phase requested profile geometry registry = elim (named requested) [
    | some name ↦ elim (get_backend phase name registry) [
      | refused e ↦ refused e
      | value b ↦ elim (b.available profile geometry) [
        | some reason ↦ refused (cannot_run reason)
        | none ↦ value b
      ]
    ]
    | none ↦ elim (candidates phase profile geometry registry (names phase registry)) [
      | [] ↦ refused none_available
      | b ∷ rest ↦ value (best_of b rest)
    ]
  ]
