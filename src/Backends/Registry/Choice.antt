-- ===== src/Backends/Registry/Choice.antt =====
-- Which backend `resolve` chooses.
use full_inference_engine.Base.{
  ◌≢◌, ◌≡◌, refl, ◌∙◌, ap, sym, subst, Bool, true, false, Option, none, some, List, [], ◌∷◌, String,
  is_yes, if◌then◌else◌, lookup, All, arith, ◌⊎◌, inl, inr, Bool-cases, Option-cases, if_neg,
  false_of,
}
use full_inference_engine.Base.Order.{
  text_lt, pair_lt, pair_lt_irrefl, pair_lt_trans, pair_lt_total,
}
use full_inference_engine.Backends.Registry.{
  Phase, Geometry, Backend, Key, Registry, phase_discrete, key_discrete, Result, value, refused,
  cannot_run, none_available, unknown_backend, insert_text, sort_texts, get_backend, names_of,
  names, candidates, best_of, named, resolve,
}

All-insert_text :
    (Q : String → Type 0) (s : String) (ts : List String)
    → All Q (insert_text s ts)
    → Q s × All Q ts
unfolding insert_text
All-insert_text Q s [] h = (h.0, tt)
All-insert_text Q s (t ∷ ts) h = elim (Bool-cases (text_lt t s)) [
  | inl e ↦
      let k : All Q (t ∷ insert_text s ts) =
        subst (λ b. All Q (if b then t ∷ insert_text s ts else s ∷ t ∷ ts)) e h in
      let ih = All-insert_text Q s ts k.1 in (ih.0, (k.0, ih.1))
  | inr e ↦ subst (λ b. All Q (if b then t ∷ insert_text s ts else s ∷ t ∷ ts)) e h
]

All-sort_texts : (Q : String → Type 0) (ts : List String) → All Q (sort_texts ts) → All Q ts
unfolding sort_texts
All-sort_texts Q [] h = tt
All-sort_texts Q (t ∷ ts) h =
    let k = All-insert_text Q t (sort_texts ts) h in (k.0, All-sort_texts Q ts k.1)

module _ {R D : Type 0} where
  -- Every name of a registered backend of the phase is among the names.
  All-names_of :
      (Q : String → Type 0) (phase : Phase) (name : String) (b : Backend R D)
      (registry : Registry R D)
      → All Q (names_of phase registry)
      → lookup key_discrete (phase, name) registry ≡ some b
      → Q name
  unfolding names_of lookup
  All-names_of Q phase name b [] h e = absurd (ground arith)
  All-names_of Q phase name b (((p, n), c) ∷ registry) h e =
      elim (key_discrete (p, n) (phase, name)) [
        | yes same ↦
            subst Q (ap (λ (k : Key). k.1) same)
              (head_of (phase_discrete p phase) (ap (λ (k : Key). k.0) same) h)
        | no other ↦
            All-names_of Q phase name b registry (tail_of (is_yes (phase_discrete p phase)) h)
              (sym (if_neg (key_discrete (p, n) (phase, name)) other _ _) ∙ e)
      ]
    where
      tail_of :
          (d : Bool)
          → All Q (if d then n ∷ names_of phase registry else names_of phase registry)
          → All Q (names_of phase registry)
      tail_of true k = k.1
      tail_of false k = k

      head_of :
          (d : Dec (p ≡ phase))
          → p ≡ phase
          → All Q (if is_yes d then n ∷ names_of phase registry else names_of phase registry)
          → Q n
      head_of (yes s) q k = k.0
      head_of (no s) q k = absurd (s q)

  abbrev pub precedes : Backend R D → Backend R D → Bool
  precedes b c = pair_lt b.priority b.name c.priority c.name

  -- What is not before `b`, which is not before `c`, is not before `c`.
  precedes_neg_trans :
      (x b c : Backend R D) → precedes x b ≡ false → precedes b c ≡ false → precedes x c ≡ false
  precedes_neg_trans x b c h k = elim (Bool-cases (precedes x c)) [
    | inr fine ↦ fine
    | inl bad ↦ elim (Bool-cases (precedes b x)) [
      | inl l ↦
          absurd
            (false_of (pair_lt_trans b.priority b.name x.priority x.name c.priority c.name l bad) k)
      | inr l ↦ absurd (
          ground (
            arith,
            pair_lt_total x.priority x.name b.priority b.name h l,
            ap (λ n. text_lt n c.name) (pair_lt_total x.priority x.name b.priority b.name h l),
          ))
    ]
  ]

  precedes_asym : (b c : Backend R D) → precedes b c ≡ true → precedes c b ≡ false
  precedes_asym b c h = elim (Bool-cases (precedes c b)) [
    | inr fine ↦ fine
    | inl bad ↦ absurd (
        false_of (pair_lt_trans b.priority b.name c.priority c.name b.priority b.name h bad)
          (pair_lt_irrefl b.priority b.name))
  ]

  abbrev AtMost : Backend R D → List (Backend R D) → Type 0
  AtMost best rest = All (λ c. precedes best c ≡ false) rest

  best_of-le :
      (b : Backend R D) (rest : List (Backend R D))
      → (precedes (best_of b rest) b ≡ false) × AtMost (best_of b rest) rest
  unfolding best_of
  best_of-le b [] = (pair_lt_irrefl b.priority b.name, tt)
  best_of-le b (c ∷ rest) = go (precedes b c) refl (best_of-le c rest) (best_of-le b rest)
    where
      go :
          (d : Bool)
          → precedes b c ≡ d
          → (precedes (best_of c rest) c ≡ false) × AtMost (best_of c rest) rest
          → (precedes (best_of b rest) b ≡ false) × AtMost (best_of b rest) rest
          → (precedes (best_of (if d then c else b) rest) b ≡ false)
            × AtMost (best_of (if d then c else b) rest) (c ∷ rest)
      go true e k l =
          (precedes_neg_trans (best_of c rest) c b k.0 (precedes_asym b c e), (k.0, k.1))
      go false e k l = (l.0, (precedes_neg_trans (best_of b rest) b c l.0 e, l.1))

best_of-All :
    {R D : Type 0} (P : Backend R D → Type 0) (b : Backend R D) (rest : List (Backend R D))
    → P b
    → All P rest
    → P (best_of b rest)
unfolding best_of
best_of-All P b [] h k = h
best_of-All P b (c ∷ rest) h k = elim (Bool-cases (precedes b c)) [
  | inl e ↦ rw e (best_of-All P c rest k.0 k.1)
  | inr e ↦ rw e (best_of-All P b rest h k.1)
]

module _ {R D : Type 0} (phase : Phase) (profile : D) (geometry : Geometry)
    (registry : Registry R D) where
  -- A registered backend of the phase that can run here.
  abbrev pub Eligible : Backend R D → Type 0
  Eligible b =
      (name : String) × (lookup key_discrete (phase, name) registry ≡ some b)
      × (b.available profile geometry ≡ none)

  abbrev among : List String → List (Backend R D)
  among = candidates phase profile geometry registry

  among_cons :
      (name : String) (rest : List String)
      → ((among (name ∷ rest) ≡ among rest)
          × ((b : Backend R D)
              → lookup key_discrete (phase, name) registry ≡ some b
              → b.available profile geometry ≢ none))
        ⊎ ((b : Backend R D) × (lookup key_discrete (phase, name) registry ≡ some b)
            × (b.available profile geometry ≡ none)
            × (among (name ∷ rest) ≡ b ∷ among rest))
  unfolding candidates get_backend
  among_cons name rest = elim (Option-cases (lookup key_discrete (phase, name) registry)) [
    | inl e ↦ inl (ground arith, λ b k l. ground arith)
    | inr (b, e) ↦ elim (Option-cases (b.available profile geometry)) [
      | inl k ↦ inr (b, e, k, ground arith)
      | inr (reason, k) ↦ inl (ground arith, λ c l m. clash b c reason (sym e ∙ l) k m)
    ]
  ]
    where
      clash :
          (b c : Backend R D) (reason : String)
          → some b ≡ some c
          → b.available profile geometry ≡ some reason
          → c.available profile geometry ≡ none
          → ⊥
      clash b c reason same k m = absurd (ground (arith, ap (available_of (some reason)) same))
        where
          available_of : Option String → Option (Backend R D) → Option String
          available_of o none = o
          available_of o (some b) = b.available profile geometry

  among-Eligible : (ns : List String) → All Eligible (among ns)
  unfolding candidates
  among-Eligible [] = tt
  among-Eligible (name ∷ rest) = elim (among_cons name rest) [
    | inl (e, none_here) ↦ subst (All Eligible) (sym e) (among-Eligible rest)
    | inr (b, e, k, l) ↦ subst (All Eligible) (sym l) ((name, e, k), among-Eligible rest)
  ]

  abbrev Satisfies : (Backend R D → Type 0) → String → Type 0
  Satisfies P name =
      (b : Backend R D)
      → lookup key_discrete (phase, name) registry ≡ some b
      → b.available profile geometry ≡ none
      → P b

  All-among :
      (P : Backend R D → Type 0) (ns : List String) → All P (among ns) → All (Satisfies P) ns
  unfolding candidates
  All-among P [] h = tt
  All-among P (name ∷ rest) h = elim (among_cons name rest) [
    | inl (e, none_here) ↦ (λ b k l. absurd (none_here b k l), All-among P rest (subst (All P) e h))
    | inr (b, e, k, l) ↦
        let both : All P (b ∷ among rest) = subst (All P) l h in
        (λ c m n. subst P (some_injective (sym e ∙ m)) both.0, All-among P rest both.1)
  ]
    where
      some_injective : {x y : Backend R D} → some x ≡ some y → x ≡ y
      some_injective h = cc

  -- What holds of all candidates holds of all eligible backends.
  All-Eligible :
      (P : Backend R D → Type 0)
      → All P (among (names phase registry))
      → (b : Backend R D) → Eligible b
      → P b
  unfolding names
  All-Eligible P h b (name, e, k) =
      All-names_of (Satisfies P) phase name b registry
        (All-sort_texts (Satisfies P) (names_of phase registry)
          (All-among P (sort_texts (names_of phase registry)) h))
        e b e k

  -- What `resolve` may answer to a name, and to "auto".
  abbrev pub NamedAnswer : String → Result (Backend R D) → Type 0
  NamedAnswer name answer =
      ((lookup key_discrete (phase, name) registry ≡ none) × (answer ≡ refused unknown_backend))
      ⊎ ((b : Backend R D) × (lookup key_discrete (phase, name) registry ≡ some b)
          × (((reason : String) × (b.available profile geometry ≡ some reason)
                × (answer ≡ refused (cannot_run reason)))
              ⊎ ((b.available profile geometry ≡ none) × (answer ≡ value b))))

  abbrev pub BestAnswer : Result (Backend R D) → Type 0
  BestAnswer answer =
      ((answer ≡ refused none_available) × ((b : Backend R D) → Eligible b → ⊥))
      ⊎ ((b : Backend R D) × (answer ≡ value b)
          × Eligible b
          × ((c : Backend R D) → Eligible c → precedes b c ≡ false))

  abbrev pub Answers : Option String → Result (Backend R D) → Type 0
  Answers none answer = BestAnswer answer
  Answers (some name) answer = NamedAnswer name answer

  best_answer :
      (bs : List (Backend R D))
      → All Eligible bs
      → ((P : Backend R D → Type 0) → All P bs → (b : Backend R D) → Eligible b → P b)
      → BestAnswer (elim bs as (λ _. Result (Backend R D)) [
        | [] ↦ refused none_available
        | b ∷ rest ↦ value (best_of b rest)
      ])
  best_answer [] h all = inl (refl, λ b e. all (λ _. ⊥) tt b e)
  best_answer (b ∷ rest) h all = inr (
    best_of b rest,
    refl,
    best_of-All Eligible b rest h.0 h.1,
    all (λ c. precedes (best_of b rest) c ≡ false) (best_of-le b rest),
  )

  -- resolve answers a name with the registered backend of that name or, if there is none or it cannot run,
  -- with the error, and never with another backend. Without a name it answers with a registered backend of
  -- the phase that can run and that no other such backend exceeds in priority and name; it refuses exactly
  -- if there is no such backend.
  pub resolve-Answers :
      (requested : Option String)
      → Answers (named requested) (resolve phase requested profile geometry registry)
  unfolding resolve get_backend
  resolve-Answers requested = go (named requested)
    where
      go :
          (n : Option String)
          → Answers n (elim n as (λ _. Result (Backend R D)) [
            | some name ↦ elim (get_backend phase name registry) as (λ _. Result (Backend R D)) [
              | refused e ↦ refused e
              | value b ↦ elim (b.available profile geometry) as (λ _. Result (Backend R D)) [
                | some reason ↦ refused (cannot_run reason)
                | none ↦ value b
              ]
            ]
            | none ↦
                elim (candidates phase profile geometry registry (names phase registry))
                  as (λ _. Result (Backend R D)) [
                    | [] ↦ refused none_available
                    | b ∷ rest ↦ value (best_of b rest)
                  ]
          ])
      go none =
          best_answer (among (names phase registry)) (among-Eligible (names phase registry))
            All-Eligible
      go (some name) = elim (Option-cases (lookup key_discrete (phase, name) registry)) [
        | inl e ↦ inl (e, ground arith)
        | inr (b, e) ↦ inr (
          b,
          e,
          elim (Option-cases (b.available profile geometry)) [
            | inl k ↦ inr (k, ground arith)
            | inr (reason, k) ↦ inl (reason, k, ground arith)
          ],
        )
      ]
