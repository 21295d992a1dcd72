-- ===== src/Cache/Contiguous/Examples.antt =====
-- Runs of a contiguous allocator, and the theorems at concrete states.
use full_inference_engine.Base.{
  ◌≡◌, refl, refute, arith, [], ◌∷◌, final, ◌>>=◌, String_discrete, lookup, insert, erase,
}
use full_inference_engine.Cache.Contiguous.{
  ContiguousAllocator, first_fit, allocate, sort_ranges, insert_range, merge_from, merge, release,
  external_fragmentation, free_tokens, largest_free_range_tokens, sum_lengths, max_length,
}
use full_inference_engine.Cache.Contiguous.Tiling.{
  placed, placing, IsTiled, Places, Frees, made, make-IsTiled, IsTiled-placing, allocate-Places,
  release-Frees,
}

abbrev with_a : ContiguousAllocator
with_a = placing (made 10) "a" (placed "a" 0 4) ((4, 6) ∷ [])

with_a-IsTiled : IsTiled with_a
with_a-IsTiled =
    IsTiled-placing (made 10) "a" 4 0 ((4, 6) ∷ []) (make-IsTiled 10 (ground arith)).1
      (ground arith) (unfold lookup in refl) (unfold first_fit in refl)

allocate-Places_example : Places with_a "b" 3 (allocate "b" 3 with_a)
allocate-Places_example =
    allocate-Places with_a "b" 3 with_a-IsTiled
      (refute (String_discrete "b" "") (unfold String_discrete in refl)) (ground arith)
      (unfold lookup insert String_discrete in refl)

release-Frees_example : Frees with_a "a" (placed "a" 0 4) (release "a" with_a)
release-Frees_example =
    release-Frees with_a "a" (placed "a" 0 4) with_a-IsTiled
      (unfold lookup insert String_discrete in refl)

-- A released hole between two allocations is reused, and the ranges melt into one at the end.
reuse :
    final (
      (allocate "a" 4 >>= λ x. allocate "b" 3 >>= λ y.
      release "a" >>= λ z. allocate "c" 4 >>= λ w. release "b" >>= λ q. release "c")
        (made 10))
    ≡ made 10
unfolding allocate release first_fit sort_ranges insert_range merge merge_from lookup insert erase
    String_discrete
reuse = refl

fragments :
    external_fragmentation
      (final ((allocate "a" 4 >>= λ x. allocate "b" 3 >>= λ y. release "a") (made 10)))
    ≡ (3, 7)
unfolding external_fragmentation free_tokens largest_free_range_tokens sum_lengths max_length
    allocate release first_fit sort_ranges insert_range merge merge_from lookup insert erase
    String_discrete
fragments = refl
