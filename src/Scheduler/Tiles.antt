-- ===== src/Scheduler/Tiles.antt =====
-- set_schedule_by_threshold: the stripes are the message, cut in order.
use native.Mathlib.Nat.{mod-lt, mod-eq_of_lt, mod-add-mod, add-mod_right, mul-mod_left, zero-mod}
use native.Mathlib.Decide.{dec_lt}
use aws_ofi_nccl.Base.{
  ℕ, zero, suc, ◌+◌, ◌-◌, ◌*◌, ◌%◌, ◌≤◌, ◌<◌, ◌≡◌, ◌≢◌, refl, sym, ap, ◌∙◌, ◌⊎◌, inl, inr, arith,
  List, [], ◌∷◌, length, get_or, mod_inj,
}
use aws_ofi_nccl.Math.{word, div_ceil, div_ceil_lem, div_ceil-lt, min_of}
use aws_ofi_nccl.Scheduler.{
  Scheduler, XferInfo, stripes, max_stripe_of, get_num_stripes, set_schedule_by_threshold,
}
use aws_ofi_nccl.Scheduler.Stripes.{get_num_stripes_lem}

-- The transfers cover `left` bytes from `offset` on, in order and without a gap.
unfoldable pub Tiles : ℕ → ℕ → List XferInfo → Type 0
Tiles offset left [] = left ≡ 0
Tiles offset left (x ∷ xs) =
    (x.offset ≡ offset) × (x.msg_size ≤ left) × Tiles (offset + x.msg_size) (left - x.msg_size) xs

-- Each transfer has at most `m` bytes and, unless it is empty, starts at a multiple of `m`.
unfoldable pub Even : ℕ → List XferInfo → Type 0
Even m [] = Unit {0}
Even m (x ∷ xs) = (x.msg_size ≤ m) × (0 < x.msg_size → x.offset % m ≡ 0) × Even m xs

min_of-cases : (x y : ℕ) → ((x < y) × (min_of x y ≡ x)) ⊎ ((y ≤ x) × (min_of x y ≡ y))
unfolding min_of
min_of-cases x y = elim (dec_lt x y) [
  | yes p ↦ inl (p, ground arith)
  | no p ↦ inr (omega arith, ground arith)
]

pub stripes-Tiles :
    (n num_rails m rail left offset : ℕ)
    → left ≤ n * m
    → Tiles offset left (stripes n num_rails m rail left offset)
unfolding stripes Tiles
stripes-Tiles zero num_rails m rail left offset h = omega arith
stripes-Tiles (suc n) num_rails m rail left offset h =
    let c = min_of-cases left m in
    let e : suc n * m ≡ m + n * m = grind arith in
    (
      refl,
      omega (arith, c),
      stripes-Tiles n num_rails m ((rail + 1) % num_rails) (left - min_of left m)
          (offset + min_of left m) (omega (arith, c, e)),
    )

pub length-stripes :
    (n num_rails m rail left offset : ℕ) → length (stripes n num_rails m rail left offset) ≡ n
unfolding stripes
length-stripes zero num_rails m rail left offset = refl
length-stripes (suc n) num_rails m rail left offset = ap suc (
    length-stripes n num_rails m ((rail + 1) % num_rails) (left - min_of left m)
      (offset + min_of left m))

even_step :
    (m left offset : ℕ)
    → (left ≡ 0) ⊎ ((0 < m) × (offset % m ≡ 0))
    → (left - min_of left m ≡ 0) ⊎ ((0 < m) × ((offset + min_of left m) % m ≡ 0))
even_step m left offset h = elim (min_of-cases left m) [
  | inl (l, e) ↦ inl (omega arith)
  | inr (l, e) ↦ elim h [
    | inl z ↦ inl (omega arith)
    | inr (pos, z) ↦ inr (pos, ap (λ t. (offset + t) % m) e ∙ add-mod_right offset m ∙ z)
  ]
]

pub stripes-Even :
    (n num_rails m rail left offset : ℕ)
    → (left ≡ 0) ⊎ ((0 < m) × (offset % m ≡ 0))
    → Even m (stripes n num_rails m rail left offset)
unfolding stripes Even
stripes-Even zero num_rails m rail left offset h = tt
stripes-Even (suc n) num_rails m rail left offset h =
    let c = min_of-cases left m in
    (
      omega (arith, c),
      (λ p. omega (arith, c, h)),
      stripes-Even n num_rails m ((rail + 1) % num_rails) (left - min_of left m)
          (offset + min_of left m) (even_step m left offset h),
    )

-- The rail of the transfer at `i`.
abbrev pub rail_at : List XferInfo → ℕ → ℕ
rail_at xs i = (get_or xs i (record { rail_id = 0; offset = 0; msg_size = 0 })).rail_id

pub rail_at-stripes :
    (n num_rails m rail left offset i : ℕ)
    → i < n
    → rail < num_rails
    → rail_at (stripes n num_rails m rail left offset) i ≡ (rail + i) % num_rails
unfolding stripes
rail_at-stripes zero num_rails m rail left offset i l r = absurd (omega arith)
rail_at-stripes (suc n) num_rails m rail left offset zero l r =
    let e : rail + 0 ≡ rail = omega arith in rw e (sym (mod-eq_of_lt r))
rail_at-stripes (suc n) num_rails m rail left offset (suc i) l r =
    let e : rail + 1 + i ≡ rail + suc i = omega arith in
    rail_at-stripes n num_rails m ((rail + 1) % num_rails) (left - min_of left m)
      (offset + min_of left m) i (omega arith) (mod-lt (rail + 1) (omega arith))
    ∙ mod-add-mod (rail + 1) num_rails i
    ∙ ap (λ t. t % num_rails) e

-- A schedule for `size` bytes, of transfers from rail `rr` on: in order they are the whole message;
-- none is longer than a stripe, which is a multiple of `align`, and each that is not empty starts at
-- a multiple of the stripe; each is on a rail of its own, and there is at least one.
pub record Cuts (num_rails align size rr : ℕ) (xs : List XferInfo) : Type 0 where
  pub tiles : Tiles 0 size xs
  pub stripe : ℕ
  pub aligned : stripe % align ≡ 0
  pub even : Even stripe xs
  pub some_stripe : 1 ≤ length xs
  pub rail : (i : ℕ) → i < length xs → rail_at xs i ≡ (rr + i) % num_rails
  pub distinct : (i j : ℕ) → i < j → j < length xs → rail_at xs i ≢ rail_at xs j

module _ (size n align : ℕ) (stripes_pos : 0 < n) (align_pos : 0 < align)
    (fits : size + align ≤ word) where
  abbrev share : ℕ
  share = div_ceil size n

  share-le : share ≤ size
  share-le = let few : size ≤ size * n = grind arith in (div_ceil_lem size n size stripes_pos).0 few

  max_stripe_eq : max_stripe_of size n align ≡ div_ceil share align * align
  unfolding max_stripe_of
  max_stripe_eq =
      mod-eq_of_lt {n = div_ceil share align * align} {m = word}
        (omega (arith, div_ceil-lt share align align_pos, share-le))

  share-le-stripe : share ≤ max_stripe_of size n align
  share-le-stripe =
      rw max_stripe_eq ((div_ceil_lem share align (div_ceil share align) align_pos).1 (omega arith))

  covers : size ≤ n * max_stripe_of size n align
  covers =
      let all : size ≤ share * n = (div_ceil_lem size n share stripes_pos).1 (omega arith) in
      let le = share-le-stripe in
      let up : share * n ≤ n * max_stripe_of size n align = grind arith in omega (arith, all, up)

  max_stripe-aligned : max_stripe_of size n align % align ≡ 0
  max_stripe-aligned = rw max_stripe_eq (mul-mod_left (div_ceil share align) align)

  even_start :
      (size ≡ 0) ⊎ ((0 < max_stripe_of size n align) × (0 % max_stripe_of size n align ≡ 0))
  even_start = elim (dec_lt 0 (max_stripe_of size n align)) [
    | yes p ↦ inr (p, zero-mod (max_stripe_of size n align))
    | no p ↦
        let e : max_stripe_of size n align ≡ 0 = omega arith in
        let z : n * max_stripe_of size n align ≡ 0 = rw e (omega arith) in
        inl (omega (arith, z, covers))
  ]

rails_differ :
    (num_rails rr i j n : ℕ)
    → rr < num_rails
    → n ≤ num_rails
    → i < j
    → j < n
    → (rr + i) % num_rails ≢ (rr + j) % num_rails
rails_differ num_rails rr i j n r le lt l e =
    let same = mod_inj num_rails (rr + i) (rr + j) (omega arith) (omega arith) e in
    omega (arith, same)

-- set_schedule_by_threshold, for at least one rail, a positive alignment, a counter below the
-- number of rails and a size that is the alignment away from the end of `size_t`: the transfers cut
-- the message from the rail of the counter on, the entry keeps its place and holds their number, the
-- counter moves on by as many rails, and nothing else of the scheduler changes.
pub set_schedule_by_threshold_lem :
    (s : Scheduler) (size num_rails align entry : ℕ)
    → 0 < num_rails
    → 0 < align
    → s.rr_counter < num_rails
    → size + align ≤ word
    → let (schedule, s') = set_schedule_by_threshold s size num_rails align entry in
      Cuts num_rails align size s.rr_counter schedule.rail_xfer_infos
      × (schedule.num_xfer_infos ≡ length schedule.rail_xfer_infos)
      × (schedule.num_xfer_infos ≤ num_rails)
      × (s' ≡ record s { rr_counter = (s.rr_counter + schedule.num_xfer_infos) % num_rails })
      × (s'.rr_counter < num_rails)
unfolding set_schedule_by_threshold
set_schedule_by_threshold_lem s size num_rails align entry rails pos rr fits =
    let n = get_num_stripes s size num_rails in
    let (_, lo, hi) = get_num_stripes_lem s size num_rails rails in
    let m = max_stripe_of size n align in
    let len = length-stripes n num_rails m s.rr_counter size 0 in
    let at : (i : ℕ)
        → i < n
        → rail_at (stripes n num_rails m s.rr_counter size 0) i ≡ (s.rr_counter + i) % num_rails =
      λ i l. rail_at-stripes n num_rails m s.rr_counter size 0 i l rr in
    (
      record {
        tiles = stripes-Tiles n num_rails m s.rr_counter size 0 (covers size n align lo pos fits);
        stripe = m;
        aligned = max_stripe-aligned size n align lo pos fits;
        even = stripes-Even n num_rails m s.rr_counter size 0 (even_start size n align lo pos fits);
        some_stripe = omega (arith, len, lo);
        rail = λ i l. at i (omega (arith, len));
        distinct = λ i j lt l e.
            rails_differ num_rails s.rr_counter i j n rr hi lt (omega (arith, len))
              (sym (at i (omega (arith, len))) ∙ e ∙ at j (omega (arith, len)));
      },
      sym len,
      hi,
      refl,
      mod-lt (s.rr_counter + n) rails,
    )
