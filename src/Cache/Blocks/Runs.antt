-- ===== src/Cache/Blocks/Runs.antt =====
-- What a test run of `BlockAllocator` computes with.
use full_inference_engine.Base.{String_discrete, ℕ_discrete, lookup, insert, erase, for_each, sort}
use full_inference_engine.Cache.Blocks.{
  owner_dec, truthy, make, pop_last, pop_free, pop_blocks, read_refcount, write_refcount,
  add_reference, take_blocks, allocate, has_duplicates, check_live, attach, drop_references,
  release, extend, normalize_index, swap_block, replace_shared, refcount, free_block_count,
  used_block_count, shared_block_count, total_references,
}

-- To unfold this is to unfold every method.
unfoldable pub methods : Unit {0}
unfolding owner_dec String_discrete truthy make pop_last pop_free pop_blocks read_refcount
    write_refcount add_reference take_blocks allocate has_duplicates check_live attach
    drop_references release extend normalize_index swap_block replace_shared refcount
    free_block_count used_block_count shared_block_count total_references lookup insert erase
    for_each sort ℕ_discrete
methods = tt
