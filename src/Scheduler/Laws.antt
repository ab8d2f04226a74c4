-- ===== src/Scheduler/Laws.antt =====
-- get_threshold_schedule and nccl_net_ofi_release_schedule on the free list of schedules.
use aws_ofi_nccl.Base.{
  ℕ, ◌+◌, ◌%◌, ◌≤◌, ◌<◌, ◌≡◌, refl, ap, ◌∙◌, ◌⊎◌, inl, inr, Option, none, some, List, ◌∷◌, arith,
  [], length,
}
use aws_ofi_nccl.Base.Bag.{count, remove}
use aws_ofi_nccl.Math.{word}
use aws_ofi_nccl.Freelist.{Platform, Freelist, entry_alloc}
use aws_ofi_nccl.Freelist.Carve.{Sound}
use aws_ofi_nccl.Freelist.Grow.{Growable}
use aws_ofi_nccl.Freelist.Run.{
  Taken, entry_alloc-cons, entries-entry_free, entry_alloc_lem, entry_free_lem,
}
use aws_ofi_nccl.Scheduler.{
  Scheduler, Schedule, set_schedule_by_threshold, get_threshold_schedule, release_schedule,
}
use aws_ofi_nccl.Scheduler.Tiles.{Cuts, set_schedule_by_threshold_lem}

pub entries-release_schedule :
    (s : Scheduler) (schedule : Schedule)
    → (release_schedule s schedule).schedule_fl.entries ≡ schedule.entry ∷ s.schedule_fl.entries
unfolding release_schedule
entries-release_schedule s schedule = entries-entry_free s.schedule_fl schedule.entry

-- What a call for a schedule gives.
unfoldable pub Scheduled : ℕ → ℕ → Scheduler → List ℕ → ℕ → ℕ → Option Schedule → Scheduler → Type 0
Scheduled es rz s live size num_rails r s' =
    ((r ≡ none) × (s.schedule_fl.entries ≡ []) × (s' ≡ s))
    ⊎ ((schedule : Schedule) × (r ≡ some schedule)
        × Sound es rz s'.schedule_fl (schedule.entry ∷ live)
        × Cuts num_rails 128 size s.rr_counter schedule.rail_xfer_infos
        × (schedule.num_xfer_infos ≡ length schedule.rail_xfer_infos)
        × (s'.rr_counter ≡ (s.rr_counter + schedule.num_xfer_infos) % num_rails)
        × (s'.rr_counter < num_rails))

module _ (pf : Platform) (k es rz : ℕ) (alloc : ℕ → ℕ × ℕ) (s : Scheduler) (live : List ℕ)
    (size num_rails : ℕ) where
  abbrev after : Freelist
  after = (entry_alloc pf alloc s.schedule_fl).1

  no_entry :
      (entry_alloc pf alloc s.schedule_fl).0 ≡ none
      → get_threshold_schedule pf alloc s size num_rails ≡ (none, record s { schedule_fl = after })
  unfolding get_threshold_schedule
  no_entry e = ground (arith, e)

  with_entry :
      (x : ℕ)
      → (entry_alloc pf alloc s.schedule_fl).0 ≡ some x
      → get_threshold_schedule pf alloc s size num_rails ≡ (
          let (schedule, s') =
            set_schedule_by_threshold (record s { schedule_fl = after }) size num_rails 128 x in
          (some schedule, s'))
  unfolding get_threshold_schedule
  with_entry x e = ground (arith, e)

  -- get_threshold_schedule, on a sound free list of schedules, for at least one rail, a counter below
  -- their number and a message whose size is not close to 2 ^ 64: it returns NULL, where no schedule
  -- is free, and changes nothing; or it returns a schedule that cuts the message and holds the number
  -- of its transfers, in an entry that overlaps no other schedule, and the counter moves on past the
  -- rails it uses.
  pub get_threshold_schedule_lem :
      Sound es rz s.schedule_fl live
      → Growable pf k es alloc s.schedule_fl s.schedule_fl.increase_entry_count
      → 0 < num_rails
      → s.rr_counter < num_rails
      → size + 128 ≤ word
      → let (r, s') = get_threshold_schedule pf alloc s size num_rails in
        Scheduled es rz s live size num_rails r s'
  unfolding Scheduled Taken set_schedule_by_threshold
  get_threshold_schedule_lem sound g rails rr fits =
      elim (entry_alloc_lem pf k es rz alloc s.schedule_fl live sound g) [
        | inl (e, nil, same) ↦ rw (no_entry e, same) (inl (refl, nil, refl))
        | inr (x, e, sound') ↦
            let (cuts, len, _, moved, below) =
              set_schedule_by_threshold_lem (record s { schedule_fl = after }) size num_rails 128 x
                rails (omega arith) rr fits in
            rw (with_entry x e) (inr (_, refl, sound', cuts, len, refl, below))
      ]

  -- nccl_net_ofi_release_schedule of a schedule in the hands of the caller keeps the free list sound,
  -- without that schedule in the hands of the caller.
  pub release_schedule_lem :
      (schedule : Schedule)
      → Sound es rz s.schedule_fl live
      → 0 < count schedule.entry live
      → Sound es rz (release_schedule s schedule).schedule_fl (remove schedule.entry live)
  unfolding release_schedule
  release_schedule_lem schedule sound c =
      entry_free_lem es rz s.schedule_fl live sound schedule.entry c

-- With a free entry, a call takes it from the front.
pub get_threshold_schedule-cons :
    (pf : Platform) (alloc : ℕ → ℕ × ℕ) (s : Scheduler) (size num_rails a : ℕ) (es : List ℕ)
    → s.schedule_fl.entries ≡ a ∷ es
    → let r = get_threshold_schedule pf alloc s size num_rails in
      (schedule : Schedule) × (r.0 ≡ some schedule)
      × (schedule.entry ≡ a)
      × (r.1.schedule_fl ≡ record s.schedule_fl { entries = es })
unfolding set_schedule_by_threshold
get_threshold_schedule-cons pf alloc s size num_rails a es e =
    let q = entry_alloc-cons pf alloc s.schedule_fl a es e in
    let w = with_entry pf 0 0 0 alloc s [] size num_rails a (ap (λ r. r.0) q) in
    (_, ap (λ r. r.0) w, refl, ap (λ r. r.1.schedule_fl) w ∙ ap (λ r. r.1) q)
