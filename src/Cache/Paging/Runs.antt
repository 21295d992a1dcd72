-- ===== src/Cache/Paging/Runs.antt =====
-- What a test run of `KVBlockManager` computes with, and a small empty pool.
use full_inference_engine.Base.{◌≡◌, refl, subst, some, [], ◌∷◌, arith, lookup, length}
use full_inference_engine.Cache.Blocks.{BlockAllocator}
use full_inference_engine.Cache.Blocks.History.{make-IsValid}
use full_inference_engine.Cache.Blocks.Runs.{methods}
use full_inference_engine.Cache.Blocks.Valid.{IsValid}
use full_inference_engine.Cache.Paging.{
  KvBlockManager, capacity_tokens, physical_location, make, on_allocator, blocks_needed,
  record_allocation, reserve, attach_prefix, find, store, set_last, copy_on_write_tail,
  set_sequence_length, ensure_capacity, append_tokens, release, snapshot, gather_pages,
  gather_paged_tokens,
}
use full_inference_engine.Cache.Paging.Valid.{IsConsistent}

-- To unfold this is to unfold every method.
unfoldable pub paging : Unit {0}
unfolding methods capacity_tokens physical_location make on_allocator blocks_needed
    record_allocation reserve attach_prefix find store set_last copy_on_write_tail
    set_sequence_length ensure_capacity append_tokens release snapshot gather_pages
    gather_paged_tokens
paging = tt

-- Four blocks of two tokens.
abbrev pub empty : KvBlockManager
empty = record {
  allocator = record {
    num_blocks = 4;
    block_size_tokens = 2;
    free_blocks = 0 ∷ 1 ∷ 2 ∷ 3 ∷ [];
    allocations = [];
    refcounts = 0 ∷ 0 ∷ 0 ∷ 0 ∷ [];
  };
  block_size_tokens = 2;
  requests = [];
}

pub empty-IsConsistent : IsConsistent empty
empty-IsConsistent =
    let (a, e, v, l) = blocks_made in
    record {
      allocator_valid = subst IsValid (ground (arith, blocks)) v;
      same_size = refl;
      agrees = λ id. unfold lookup in refl;
      one_entry = tt;
    }
  where
    blocks : full_inference_engine.Cache.Blocks.make 4 2 ≡ some empty.allocator
    blocks = unfold methods in refl

    blocks_made :
        (a : BlockAllocator) × (full_inference_engine.Cache.Blocks.make 4 2 ≡ some a)
        × IsValid a
        × (length a.free_blocks ≡ 4)
    blocks_made = make-IsValid 4 2 (omega arith) (omega arith)
