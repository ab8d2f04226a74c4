-- ===== src/Deque/Tests.antt =====
-- A deque with its head at 100: elements come in at both ends, and go from the front and the middle.
use aws_ofi_nccl.Base.{
  ℕ, ◌≡◌, refl, none, some, List, [], ◌∷◌, arith, ◌==◌, ◌≢◌, All, ok, err, enomem,
}
use aws_ofi_nccl.Base.Bag.{count}
use aws_ofi_nccl.Base.Bag
use aws_ofi_nccl.Deque.{
  Deque, init, insert_back, isempty, remove_front, remove, insert_front, get_next, get_front, write,
  foreach,
}
use aws_ofi_nccl.Deque.Links.{Holds}
use aws_ofi_nccl.Deque.Refine.{
  Op, back, front, unlink, after, pop, first, calls, call, on_lists, on_list, AreAllowed,
  calls_refine,
}
use aws_ofi_nccl.Deque.Foreach.{removing, foreach_lem}

abbrev memory : Deque
memory = record { head = 100; next = λ p. 0; prev = λ p. 0 }

abbrev empty : Deque
empty = record { head = 100; next = write (λ p. 0) 100 100; prev = write (λ p. 0) 100 100 }

init_gives : init (some memory) 0 ≡ ok empty
unfolding init
init_gives = refl

init_fails : init none 0 ≡ err enomem
unfolding init
init_fails = refl

empty-Holds : Holds empty []
empty-Holds = record { chain = (refl, refl); distinct = (((λ e. omega arith), tt), (tt, tt)) }

abbrev ops : List Op
ops = back 1 ∷ back 2 ∷ front 3 ∷ after 1 ∷ unlink 1 ∷ pop memory ∷ first ∷ []

outputs : (on_lists ops []).0 ≡ none ∷ none ∷ none ∷ some 2 ∷ none ∷ some 3 ∷ some 2 ∷ []
unfolding on_lists on_list isempty Bag.remove
outputs = refl

same_outputs : (calls ops empty).0 ≡ none ∷ none ∷ none ∷ some 2 ∷ none ∷ some 3 ∷ some 2 ∷ []
unfolding calls call get_next remove_front get_front insert_front remove insert_back
same_outputs = refl

ops_allowed : AreAllowed ops 100 []
unfolding on_list count
ops_allowed = (off_one, (off_two, (off_three, (omega arith, (omega arith, (tt, (tt, tt)))))))
  where
    off_one : All {A = ℕ} (λ x. 1 ≢ x) (0 ∷ 100 ∷ [])
    off_one = ((λ e. omega arith), ((λ e. omega arith), tt))

    off_two : All {A = ℕ} (λ x. 2 ≢ x) (0 ∷ 100 ∷ 1 ∷ [])
    off_two = ((λ e. omega arith), ((λ e. omega arith), ((λ e. omega arith), tt)))

    off_three : All {A = ℕ} (λ x. 3 ≢ x) (0 ∷ 100 ∷ 1 ∷ 2 ∷ [])
    off_three =
        ((λ e. omega arith), ((λ e. omega arith), ((λ e. omega arith), ((λ e. omega arith), tt))))

calls_refine_example :
    ((calls ops empty).0 ≡ (on_lists ops []).0) × Holds (calls ops empty).1 (on_lists ops []).1
calls_refine_example = calls_refine ops empty [] ops_allowed empty-Holds

abbrev two : Deque
two = (calls (back 1 ∷ back 2 ∷ []) empty).1

two_allowed : AreAllowed (back 1 ∷ back 2 ∷ []) 100 []
unfolding on_list
two_allowed = (
  ((λ e. omega arith), ((λ e. omega arith), tt)),
  (((λ e. omega arith), ((λ e. omega arith), ((λ e. omega arith), tt))), tt),
)

two-Holds : Holds two (1 ∷ 2 ∷ [])
unfolding on_lists on_list
two-Holds = (calls_refine (back 1 ∷ back 2 ∷ []) empty [] two_allowed empty-Holds).1

foreach_lem_example :
    (d' : Deque) × (foreach 3 (removing (λ e. e == 2)) two ≡ some (1 ∷ 2 ∷ [], d'))
    × Holds d' (2 ∷ [])
foreach_lem_example = foreach_lem (λ e. e == 2) 3 two (1 ∷ 2 ∷ []) (omega arith) two-Holds
