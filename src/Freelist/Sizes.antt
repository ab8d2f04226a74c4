-- ===== src/Freelist/Sizes.antt =====
-- The sizes of the blocks of a free list: freelist_block_mem_size_full_pages and
-- freelist_page_padded_entry_count.
use native.Mathlib.Nat.{mod-eq_of_lt, mod-lt, div-add-mod}
use native.Mathlib.Decide.{dec_lt}
use aws_ofi_nccl.Base.{
  ℕ, suc, ◌+◌, ◌-◌, ◌*◌, ◌/◌, ◌%◌, ◌^◌, ◌≤◌, ◌<◌, ◌≡◌, sym, ap, ◌∙◌, arith, two_pow_pos, mod_unique,
}
use aws_ofi_nccl.Math.{word, round_up_lem, div_ceil, div_ceil_lem, div_ceil-lt}
use aws_ofi_nccl.Freelist.{
  Platform, sizeof_block, block_mem_size_full_pages, page_padded_entry_count,
}

-- Pages of a power of two, and a number of entries whose memory is far from the end of `size_t`.
pub record Fits (pf : Platform) (k e c : ℕ) : Type 0 where
  pub page : pf.system_page_size ≡ 2 ^ k
  pub page_size : k ≤ 63
  pub room : e * c + sizeof_block + 2 ^ k ≤ word

module _ (pf : Platform) (k e c : ℕ) (f : Fits pf k e c) where
  abbrev pages : ℕ
  pages = div_ceil (e * c + sizeof_block) (2 ^ k)

  pub mem_size_eq : block_mem_size_full_pages pf e c ≡ pages * 2 ^ k
  unfolding block_mem_size_full_pages
  mem_size_eq =
      rw
        (
          f.page,
          mod-eq_of_lt {n = e * c + sizeof_block} {m = word} (omega (arith, f.room, two_pow_pos k)),
        )
        (round_up_lem k (e * c + sizeof_block) (omega (arith, f.page_size)) (omega (arith, f.room)))

  pub mem_size-ge : e * c + sizeof_block ≤ block_mem_size_full_pages pf e c
  mem_size-ge =
      rw mem_size_eq
        ((div_ceil_lem (e * c + sizeof_block) (2 ^ k) pages (two_pow_pos k)).1 (omega arith))

  pub mem_size-lt : block_mem_size_full_pages pf e c < e * c + sizeof_block + 2 ^ k
  mem_size-lt = rw mem_size_eq (div_ceil-lt (e * c + sizeof_block) (2 ^ k) (two_pow_pos k))

  padded_eq : page_padded_entry_count pf e c ≡ (block_mem_size_full_pages pf e c - sizeof_block) / e
  unfolding page_padded_entry_count
  padded_eq =
      let s = block_mem_size_full_pages pf e c in
      let r : (s + word - sizeof_block) % word ≡ s - sizeof_block =
        mod_unique (s + word - sizeof_block) word 1 (s - sizeof_block) (omega (arith, mem_size-ge))
          (omega (arith, mem_size-lt, f.room)) in
      ap (λ t. t / e) r

  -- The entries of whole pages: those that were asked for fit, and one more than the result does not.
  module _ (pos : 0 < e) where
    abbrev padded : ℕ
    padded = page_padded_entry_count pf e c

    abbrev size : ℕ
    size = block_mem_size_full_pages pf e c

    padded_division : e * padded + (size - sizeof_block) % e ≡ size - sizeof_block
    padded_division = rw padded_eq (div-add-mod (size - sizeof_block) e)

    pub padded_fits : e * padded + sizeof_block ≤ size
    padded_fits = omega (arith, padded_division, mem_size-ge)

    pub one_more : size < e * suc padded + sizeof_block
    one_more =
        let step : e * suc padded ≡ e * padded + e = grind arith in
        omega (arith, step, padded_division, mod-lt (size - sizeof_block) pos)

    pub padded-ge : c ≤ padded
    padded-ge = elim (dec_lt padded c) [
      | yes p ↦
          let up : e * suc padded ≤ e * c = grind arith in
          absurd (omega (arith, up, one_more, mem_size-ge))
      | no p ↦ omega arith
    ]

-- freelist_page_padded_entry_count: for entries of a positive size, pages of a power of two and
-- sizes two pages away from the end of `size_t`, the result is at least the number asked for, its
-- block has the same number of bytes as the block for the number asked for, and one more entry
-- would not fit in there.
pub padded_lem :
    (pf : Platform) (k e c : ℕ)
    → 0 < e
    → Fits pf k e c
    → e * c + sizeof_block + 2 * 2 ^ k ≤ word
    → let n = page_padded_entry_count pf e c in
      let size = block_mem_size_full_pages pf e c in
      (c ≤ n) × (block_mem_size_full_pages pf e n ≡ size) × (size < e * suc n + sizeof_block)
padded_lem pf k e c pos f room =
    let n = page_padded_entry_count pf e c in
    let g : Fits pf k e n = record {
      page = f.page;
      page_size = f.page_size;
      room = omega (arith, padded_fits pf k e c f pos, mem_size-lt pf k e c f);
    } in
    let few : pages pf k e n g ≤ pages pf k e c f =
      (div_ceil_lem (e * n + sizeof_block) (2 ^ k) (pages pf k e c f) (two_pow_pos k)).0
        (omega (arith, padded_fits pf k e c f pos, mem_size_eq pf k e c f)) in
    let grows : e * c ≤ e * n = let h = padded-ge pf k e c f pos in grind arith in
    let many : pages pf k e c f ≤ pages pf k e n g =
      (div_ceil_lem (e * c + sizeof_block) (2 ^ k) (pages pf k e n g) (two_pow_pos k)).0
        (omega (arith, grows, mem_size-ge pf k e n g, mem_size_eq pf k e n g)) in
    let same : pages pf k e n g ≡ pages pf k e c f = omega arith in
    (
      padded-ge pf k e c f pos,
      (mem_size_eq pf k e n g ∙ ap (λ t. t * 2 ^ k) same ∙ sym (mem_size_eq pf k e c f)),
      one_more pf k e c f pos,
    )
