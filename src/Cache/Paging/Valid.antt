-- ===== src/Cache/Paging/Valid.antt =====
-- The invariant of `KVBlockManager`: the allocator is valid, and the two records of who holds which
-- blocks, the manager's and the allocator's, agree.
use full_inference_engine.Base.{
  ℕ, ◌*◌, ◌≤◌, ◌≡◌, refl, ◌∙◌, ap, sym, subst, ◌≢◌, Option, none, some, List, String,
  String_discrete, length, Distinct, lookup, insert, erase, ok, ite, if_pos, if_neg,
  lookup-insert_self, lookup-insert_ne, lookup-erase_ne, lookup-erase_self, insert-Distinct,
  erase-Distinct, Action, Outcome, raise, Ensures,
}
use full_inference_engine.Cache.Blocks.{BlockAllocator, Owner, owner_dec, request}
use full_inference_engine.Cache.Blocks.Valid.{IsValid}
use full_inference_engine.Cache.Paging.{KvBlockAllocation, KvBlockManager, on_allocator, find}

-- What the manager holds for a request against what the allocator holds for its owner.
abbrev pub Agrees : ℕ → Option KvBlockAllocation → Option (List ℕ) → Type 0
Agrees block_size none held = held ≡ none
Agrees block_size (some t) held =
    (held ≡ some t.physical_block_ids)
    × (t.block_size_tokens ≡ block_size)
    × (t.sequence_length ≤ length t.physical_block_ids * block_size)

abbrev pub held_by : BlockAllocator → String → Option (List ℕ)
held_by a id = lookup owner_dec (request id) a.allocations

pub record IsConsistent (m : KvBlockManager) : Type 0 where
  pub allocator_valid : IsValid m.allocator
  pub same_size : m.block_size_tokens ≡ m.allocator.block_size_tokens
  pub agrees :
      (id : String)
      → Agrees m.block_size_tokens (lookup String_discrete id m.requests) (held_by m.allocator id)
  pub one_entry : Distinct String_discrete m.requests

request_ne : {i j : String} → i ≢ j → request i ≢ request j
request_ne h e = h (request-injective e)
  where
    request-injective : {i j : String} → request i ≡ request j → i ≡ j
    request-injective e = cc

-- To give a request the table `t`, in both records.
pub IsConsistent-insert :
    (m : KvBlockManager) (a : BlockAllocator) (id : String) (t : KvBlockAllocation)
    → IsConsistent m
    → IsValid a
    → a.block_size_tokens ≡ m.allocator.block_size_tokens
    → ((o : Owner)
        → lookup owner_dec o a.allocations
          ≡ ite
              (owner_dec (request id) o)
              (some t.physical_block_ids)
              (lookup owner_dec o m.allocator.allocations))
    → t.block_size_tokens ≡ m.block_size_tokens
    → t.sequence_length ≤ length t.physical_block_ids * m.block_size_tokens
    → IsConsistent (record m { allocator = a; requests = insert String_discrete id t m.requests })
IsConsistent-insert m a id t v w size held tokens fits = record {
  allocator_valid = w;
  same_size = v.same_size ∙ sym size;
  agrees = λ j. elim (String_discrete id j) [
    | yes here ↦
        subst
          (λ k.
            Agrees m.block_size_tokens
              (lookup String_discrete k (insert String_discrete id t m.requests)) (held_by a k))
          here
          (rw (lookup-insert_self String_discrete id t m.requests) (
            held (request id) ∙ if_pos (owner_dec (request id) (request id)) refl _ _,
            tokens,
            fits,
          ))
    | no other ↦
        rw
          (
            lookup-insert_ne String_discrete id j t m.requests other,
            held (request j),
            if_neg (owner_dec (request id) (request j)) (request_ne other),
          )
          (v.agrees j)
  ];
  one_entry = insert-Distinct String_discrete id t m.requests v.one_entry;
}

pub IsConsistent-erase :
    (m : KvBlockManager) (a : BlockAllocator) (id : String)
    → IsConsistent m
    → IsValid a
    → a.block_size_tokens ≡ m.allocator.block_size_tokens
    → a.allocations ≡ erase owner_dec (request id) m.allocator.allocations
    → IsConsistent (record m { allocator = a; requests = erase String_discrete id m.requests })
IsConsistent-erase m a id v w size erased = record {
  allocator_valid = w;
  same_size = v.same_size ∙ sym size;
  agrees = λ j. elim (String_discrete id j) [
    | yes here ↦
        subst
          (λ k.
            Agrees m.block_size_tokens
              (lookup String_discrete k (erase String_discrete id m.requests)) (held_by a k))
          here
          (rw (lookup-erase_self String_discrete id m.requests v.one_entry) (
            ap (lookup owner_dec (request id)) erased
            ∙ lookup-erase_self owner_dec (request id) m.allocator.allocations
                v.allocator_valid.one_entry))
    | no other ↦
        rw
          (
            lookup-erase_ne String_discrete id j m.requests other,
            ap (lookup owner_dec (request j)) erased,
            lookup-erase_ne owner_dec (request id) (request j) m.allocator.allocations
                (request_ne other),
          )
          (v.agrees j)
  ];
  one_entry = erase-Distinct String_discrete id m.requests v.one_entry;
}

pub Agrees-none :
    (m : KvBlockManager) (id : String)
    → IsConsistent m
    → lookup String_discrete id m.requests ≡ none
    → held_by m.allocator id ≡ none
Agrees-none m id v e =
    subst (λ r. Agrees m.block_size_tokens r (held_by m.allocator id)) e (v.agrees id)

pub Agrees-some :
    (m : KvBlockManager) (id : String) (t : KvBlockAllocation)
    → IsConsistent m
    → lookup String_discrete id m.requests ≡ some t
    → Agrees m.block_size_tokens (some t) (held_by m.allocator id)
Agrees-some m id t v e =
    subst (λ r. Agrees m.block_size_tokens r (held_by m.allocator id)) e (v.agrees id)

pub on_allocator-ok :
    {A : Type 0} (call : Action BlockAllocator A) (m : KvBlockManager) (x : A) (a : BlockAllocator)
    → call m.allocator ≡ ok x a
    → on_allocator call m ≡ ok x (record m { allocator = a })
unfolding on_allocator
on_allocator-ok call m x a e = rw (e, on_allocator)

pub find-lookup :
    (m : KvBlockManager) (id : String) (t : KvBlockAllocation)
    → lookup String_discrete id m.requests ≡ some t
    → find id m ≡ ok t m
unfolding find
find-lookup m id t e = rw (e, find)

-- A change of the allocator that moves no request's blocks.
pub IsConsistent-allocator :
    (m : KvBlockManager) (a : BlockAllocator)
    → IsConsistent m
    → IsValid a
    → a.block_size_tokens ≡ m.allocator.block_size_tokens
    → ((id : String) → held_by a id ≡ held_by m.allocator id)
    → IsConsistent (record m { allocator = a })
IsConsistent-allocator m a v w size held = record {
  allocator_valid = w;
  same_size = v.same_size ∙ sym size;
  agrees = λ id.
      subst (Agrees m.block_size_tokens (lookup String_discrete id m.requests)) (sym (held id))
        (v.agrees id);
  one_entry = v.one_entry;
}

-- What a call of the allocator ensures, put in terms of the manager.
pub on_allocator-Ensures :
    {A : Type 0} (call : Action BlockAllocator A) (m : KvBlockManager)
    (Q : A → KvBlockManager → Type 0) (R : KvBlockManager → Type 0)
    → Ensures
        (λ x a. Q x (record m { allocator = a }))
        (λ a. R (record m { allocator = a }))
        (call m.allocator)
    → Ensures Q R (on_allocator call m)
unfolding on_allocator
on_allocator-Ensures {A} call m Q R h = go (call m.allocator) h
  where
    go :
        (o : Outcome BlockAllocator A)
        → Ensures (λ x a. Q x (record m { allocator = a })) (λ a. R (record m { allocator = a })) o
        → Ensures Q R (elim o as (λ _. Outcome KvBlockManager A) [
          | ok x a ↦ ok x (record m { allocator = a })
          | raise e a ↦ raise e (record m { allocator = a })
        ])
    go (ok x a) k = k
    go (raise e a) k = k
