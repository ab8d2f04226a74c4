-- ===== src/Msgbuff/Window.antt =====
-- The slots of a message buffer read as a window: what a write does to it.
use native.Mathlib.Nat.{mod-lt, mod-add-mod, add-mod_right, add-zero}
use aws_ofi_nccl.Base.{
  ℕ, zero, suc, ◌+◌, ◌-◌, ◌%◌, ◌≤◌, ◌<◌, ◌≡◌, refl, sym, ap, ◌∙◌, ◌≢◌, none, some, List, [], ◌∷◌,
  ◌++◌, arith, length, get_or, set, if◌then◌else◌, get_or-set_self, get_or-set_ne, mod_inj,
}
use aws_ofi_nccl.Msgbuff.{Elem, blank, is_inprogress}
use aws_ofi_nccl.Msgbuff.Spec.{Cell}

-- What a slot says of its message.
abbrev pub view : Elem → Cell
view e = record {
  status = e.stat;
  held = if is_inprogress e.stat then some (e.elem, e.type) else none;
}

module _ (cap : ℕ) where
  -- The `n` cells from sequence number `h` on.
  abbrev pub window : List Elem → ℕ → ℕ → List Cell
  window s h zero = []
  window s h (suc n) = view (get_or s (h % cap) blank) ∷ window s (h + 1) n

  pub length-window : (s : List Elem) (h n : ℕ) → length (window s h n) ≡ n
  length-window s h zero = refl
  length-window s h (suc n) = ap suc (length-window s (h + 1) n)

  pub window_cong : (s : List Elem) (h h' n : ℕ) → h % cap ≡ h' % cap → window s h n ≡ window s h' n
  window_cong s h h' zero e = refl
  window_cong s h h' (suc n) e = cc (
      window_cong s (h + 1) (h' + 1) n
        (sym (mod-add-mod h cap 1) ∙ ap (λ k. (k + 1) % cap) e ∙ mod-add-mod h' cap 1))

  pub window_snoc :
      (s : List Elem) (h n : ℕ)
      → window s h (suc n) ≡ window s h n ++ view (get_or s ((h + n) % cap) blank) ∷ []
  window_snoc s h zero = rw add-zero
  window_snoc s h (suc n) = ap (◌∷◌ (view (get_or s (h % cap) blank))) (
      window_snoc s (h + 1) n
      ∙ ap (λ k. window s (h + 1) n ++ view (get_or s (k % cap) blank) ∷ []) (omega arith))

  pub get_or-window :
      (s : List Elem) (h n k : ℕ) (d : Cell)
      → k < n
      → get_or (window s h n) k d ≡ view (get_or s ((h + k) % cap) blank)
  get_or-window s h zero k d l = absurd (omega arith)
  get_or-window s h (suc n) zero d l = rw add-zero
  get_or-window s h (suc n) (suc k) d l =
      get_or-window s (h + 1) n k d (omega arith)
      ∙ ap (λ j. view (get_or s (j % cap) blank)) (omega arith)

  -- Numbers less than `cap` apart have different slots.
  pub slots_differ : (h k : ℕ) → 0 < k → k < cap → h % cap ≢ (h + k) % cap
  slots_differ h k pos l e = omega (arith, mod_inj cap h (h + k) (omega arith) (omega arith) e)

  -- A write beyond the window does not show in it.
  pub window-set_beyond :
      (s : List Elem) (h n k i : ℕ) (e : Elem)
      → n ≤ k
      → k < cap
      → i ≡ (h + k) % cap
      → window (set s i e) h n ≡ window s h n
  window-set_beyond s h zero k i e l m p = refl
  window-set_beyond s h (suc n) k i e l m p = cc (
    get_or-set_ne s i (h % cap) e blank (λ q. slots_differ h k (omega arith) m (sym q ∙ p)),
    window-set_beyond s (h + 1) n (k - 1) i e (omega arith) (omega arith)
        (p ∙ ap (λ j. j % cap) (omega arith)),
  )

  -- A write inside it sets one cell.
  pub window-set :
      (s : List Elem) (h n k i : ℕ) (e : Elem)
      → cap ≤ length s
      → k < n
      → n ≤ cap
      → i ≡ (h + k) % cap
      → window (set s i e) h n ≡ set (window s h n) k (view e)
  window-set s h zero k i e b l m p = absurd (omega arith)
  window-set s h (suc n) zero i e b l m p =
      let i' : i ≡ h % cap = p ∙ ap (λ j. j % cap) (add-zero h) in
      cc (
        ap (λ j. get_or (set s i e) j blank) i',
        get_or-set_self s i e blank (rw i' (omega (arith, mod-lt h {m = cap} (omega arith)))),
        window-set_beyond s (h + 1) n (cap - 1) i e (omega arith) (omega arith) (i' ∙ around),
      )
    where
      around : h % cap ≡ (h + 1 + (cap - 1)) % cap
      around =
          let e : h + 1 + (cap - 1) ≡ h + cap = omega arith in
          sym (ap (λ j. j % cap) e ∙ add-mod_right h cap)
  window-set s h (suc n) (suc k) i e b l m p = cc (
    get_or-set_ne s i (h % cap) e blank
        (λ q. slots_differ h (suc k) (omega arith) (omega arith) (sym q ∙ p)),
    window-set s (h + 1) n k i e b (omega arith) (omega arith)
        (p ∙ ap (λ j. j % cap) (omega arith)),
  )
