-- ===== src/Msgbuff/Fresh.antt =====
-- nccl_ofi_msgbuff_insert and nccl_ofi_msgbuff_complete by the status of the index.
use native.Mathlib.Decide.{dec_lt}
use aws_ofi_nccl.Base.{ℕ, ◌≡◌, ◌<◌, refl, sym, ap, ◌∙◌, arith, Option, none, some, true}
use aws_ofi_nccl.Msgbuff.{
  Msgbuff, ElemType, req, Status, Outcome, success, invalid_idx, get_idx_status, insert, retrieve,
  is_notstarted, is_inprogress, complete, distance, num_inflight,
}
use aws_ofi_nccl.Msgbuff.Spec
use aws_ofi_nccl.Msgbuff.Inv.{IsValid, abs}
use aws_ofi_nccl.Msgbuff.Refine.{complete_refines, insert_refines, get_idx_status_refines}
use aws_ofi_nccl.Msgbuff.Laws.{insert_only}
use aws_ofi_nccl.Msgbuff.Settle.{complete_only}

-- A message in progress refuses a second element.
pub insert-inprogress :
    (m : Msgbuff) (idx : ℕ) (elem : Option ℕ) (type : ElemType)
    → get_idx_status m idx ≡ Status.inprogress
    → insert m idx elem type ≡ some (invalid_idx, Status.inprogress, m)
unfolding insert
insert-inprogress m idx elem type e = rw (insert, e) refl

-- A message that has not started takes an element, and is then in progress with it.
pub insert-notstarted :
    {m : Msgbuff} (v : IsValid m) (idx : ℕ) (hi : idx < m.field_size) (elem : Option ℕ)
    (type : ElemType)
    → get_idx_status m idx ≡ Status.notstarted
    → (m' : Msgbuff) × (insert m idx elem type ≡ some (success, Status.notstarted, m'))
      × IsValid m'
      × (get_idx_status m' idx ≡ Status.inprogress)
      × (retrieve m' idx true ≡ (success, some Status.inprogress, some (elem, type)))
insert-notstarted {m} v idx hi elem type fresh =
    let st = sym (get_idx_status_refines v idx hi) ∙ fresh in
    let e =
      Spec.insert_fresh m.max_inprogress m.field_size (abs m) idx elem type (ap is_notstarted st) in
    let (m', runs, holds) = insert_refines v idx hi elem type in
    let runs' : insert m idx elem type ≡ some (success, Status.notstarted, m') =
      runs
      ∙ ap (λ (r : Outcome × Status × Spec.State). some (r.0, r.1, m')) e
      ∙ ap (λ s. some (success, s, m')) st in
    let (valid, read, status) = insert_only v idx idx hi hi elem type runs' in
    (m', runs', valid, status ∙ ground arith, read ∙ ground arith)

-- A message in progress lies in the window.
inprogress-inside :
    (m : Msgbuff) (idx : ℕ)
    → get_idx_status m idx ≡ Status.inprogress
    → distance m idx m.msg_last_incomplete < num_inflight m
unfolding get_idx_status num_inflight
inprogress-inside m idx e =
    elim (dec_lt (distance m idx m.msg_last_incomplete)
      (distance m m.msg_next m.msg_last_incomplete)) [
        | yes p ↦ p
        | no p ↦ absurd (ground (arith, e))
      ]

-- A message in progress can be completed, and is then complete.
pub complete-inprogress :
    {m : Msgbuff} (v : IsValid m) (idx : ℕ) (hi : idx < m.field_size)
    → get_idx_status m idx ≡ Status.inprogress
    → (m' : Msgbuff) × (complete m idx ≡ some (success, Status.inprogress, m'))
      × IsValid m'
      × (get_idx_status m' idx ≡ Status.completed)
complete-inprogress {m} v idx hi busy =
    let st = sym (get_idx_status_refines v idx hi) ∙ busy in
    let e =
      Spec.complete-done m.max_inprogress m.field_size (abs m) idx none req (ap is_inprogress st) in
    let (m', runs, holds) = complete_refines v idx hi in
    let runs' : complete m idx ≡ some (success, Status.inprogress, m') =
      runs
      ∙ ap (λ (r : Outcome × Status × Spec.State). some (r.0, r.1, m')) e
      ∙ ap (λ s. some (success, s, m')) st in
    let (valid, _, status) = complete_only v idx idx hi hi runs' (inprogress-inside m idx busy) in
    (m', runs', valid, status ∙ ground arith)
