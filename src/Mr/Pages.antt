-- ===== src/Mr/Pages.antt =====
-- compute_page_address, and the test whether an entry covers a range of pages.
use native.Mathlib.Nat.{
  mod-eq_of_lt, mul-mod_left, div-mul_cancel, dvd-sub, dvd_of_mod-eq-zero, div-mul-le_self,
  lt-div-mul-add,
}
use native.Mathlib.Decide.{dec_lt}
use aws_ofi_nccl.Base.{
  ℕ, suc, ◌+◌, ◌-◌, ◌*◌, ◌/◌, ◌%◌, ◌^◌, ◌≤◌, ◌<◌, ◌≡◌, sym, ap, ◌∙◌, ◌↔◌, arith, two_pow_pos,
  mod_unique, bit_and, true, leb→le, two_pow_mono,
}
use aws_ofi_nccl.Math.{word, round_down, round_down_lem, complement}
use aws_ofi_nccl.Mr.{RegEntry, page_addr_of, pages_of, covers}

mul_mono : (x y z : ℕ) → x ≤ y → x * z ≤ y * z
mul_mono x y z h = grind arith

-- A page size is a power of two.
pub record PageSize (ps k : ℕ) : Type 0 where
  pub power : ps ≡ 2 ^ k
  pub small : k ≤ 62
  pub large : 1 ≤ k

module _ (ps k : ℕ) (p : PageSize ps k) where
  pub page_pos : 2 ≤ ps
  page_pos = omega (arith, p.power, two_pow_mono 1 k p.large)

  page_le : ps ≤ 2 ^ 62
  page_le = omega (arith, p.power, two_pow_mono k 62 p.small)

  pub page_addr_eq : (addr : ℕ) → addr < word → page_addr_of addr ps ≡ addr / ps * ps
  unfolding page_addr_of round_down
  page_addr_eq addr l =
      let pos = two_pow_pos k in
      let le = page_le in
      let wrap : (word - ps) % word ≡ word - ps = omega (arith, page_pos, page_le) in
      let mask : word - ps ≡ complement (2 ^ k - 1) = omega (arith, p.power) in
      ap (bit_and addr) (wrap ∙ mask)
      ∙ round_down_lem k addr (omega (arith, p.small)) l
      ∙ ap (λ t. addr / t * t) (sym p.power)

  -- compute_page_address, for a page size that is a power of two and a buffer that ends a page before
  -- the end of memory: the first page starts at the last multiple of the page size that is not
  -- above the buffer, and the pages are the fewest from there on that reach the end of the buffer.
  pub pages_lem :
      (addr size : ℕ)
      → addr + size + ps ≤ word
      → let a = page_addr_of addr ps in
        let n = pages_of addr size ps in
        (a % ps ≡ 0)
        × (a ≤ addr)
        × (addr < a + ps)
        × (addr + size ≤ a + n * ps)
        × (a + n * ps < addr + size + ps)
  unfolding pages_of
  pages_lem addr size fits =
      let pos = page_pos in
      let a = page_addr_of addr ps in
      let at = page_addr_eq addr (omega arith) in
      let low : a ≤ addr = omega (arith, at, div-mul-le_self addr ps) in
      let high : addr < a + ps =
        omega (arith, at, lt-div-mul-add {a = addr} {b = ps} (omega arith)) in
      let x = addr + size - a + ps - 1 in
      let e : (addr + size + word - a + ps - 1) % word ≡ x =
        mod_unique (addr + size + word - a + ps - 1) word 1 x (omega arith) (omega arith) in
      let q = x / ps in
      let below : q * ps ≤ x = div-mul-le_self x ps in
      let above : x < q * ps + ps = lt-div-mul-add {a = x} {b = ps} (omega arith) in
      (
        ap (λ t. t % ps) at ∙ mul-mod_left (addr / ps) ps,
        low,
        high,
        rw e (omega (arith, above, low)),
        rw e (omega (arith, below, low)),
      )

  -- The number of pages from one page to a later one.
  page_distance : (a b : ℕ) → b ≤ a → a % ps ≡ 0 → b % ps ≡ 0 → (a - b) / ps * ps ≡ a - b
  page_distance a b le ea eb =
      div-mul_cancel ps (dvd-sub ps (dvd_of_mod-eq-zero ps ea) (dvd_of_mod-eq-zero ps eb))

  -- The entry covers `n` pages from `a` on.
  abbrev pub Covers : ℕ → ℕ → RegEntry → Type 0
  Covers a n e = (e.addr ≤ a) × (a + n * ps ≤ e.addr + e.pages * ps)

  quotient-lt :
      (a b n : ℕ) → a < word → n * ps < word → ((a - b) / ps + n) % word ≡ (a - b) / ps + n
  quotient-lt a b n la ln =
      let pos = page_pos in
      let small : (a - b) / ps * ps ≤ a - b = div-mul-le_self (a - b) ps in
      let half : (a - b) / ps * 2 ≤ (a - b) / ps * ps = grind arith in
      let half_n : n * 2 ≤ n * ps = grind arith in
      mod-eq_of_lt {n = (a - b) / ps + n} {m = word} (omega (arith, page_le))

  pub covers_lem :
      (a n : ℕ) (e : RegEntry)
      → a < word
      → n * ps < word
      → e.addr ≤ a
      → a % ps ≡ 0
      → e.addr % ps ≡ 0
      → ((covers ps a n e ≡ true) ↔ Covers a n e)
  unfolding covers
  covers_lem a n e la ln le ea eb =
      let pos = page_pos in
      let q = (a - e.addr) / ps in
      let dist : q * ps ≡ a - e.addr = page_distance a e.addr le ea eb in
      rw (quotient-lt a e.addr n la ln) (
        (λ h.
            let up : (q + n) * ps ≤ e.pages * ps =
              mul_mono (q + n) e.pages ps (leb→le (q + n) e.pages h) in
            let split : (q + n) * ps ≡ q * ps + n * ps = grind arith in (le, omega arith)),
        λ h. elim (dec_lt e.pages (q + n)) [
          | no l ↦ ground arith
          | yes l ↦
              let up : suc e.pages * ps ≤ (q + n) * ps =
                mul_mono (suc e.pages) (q + n) ps (omega arith) in
              let split : (q + n) * ps ≡ q * ps + n * ps = grind arith in
              let one : suc e.pages * ps ≡ ps + e.pages * ps = grind arith in
              absurd (omega (arith, h))
        ],
      )
