-- ===== src/Queue/Tests.antt =====
-- The theorems about the queue macros at a queue of two elements.
use libuv_analyse.Base.{arith, [], ◌∷◌}
use libuv_analyse.Queue.{
  Store, queue_add, queue_init, queue_insert_tail, queue_insert_head, queue_remove, queue_move,
  queue_split,
}
use libuv_analyse.Queue.Ring.{Ring}
use libuv_analyse.Queue.Insert.{queue_init-Ring, queue_insert_tail-Ring, queue_insert_head-Ring}
use libuv_analyse.Queue.Unlink.{queue_remove-Ring}
use libuv_analyse.Queue.Append.{queue_add-Ring}
use libuv_analyse.Queue.Splice.{queue_split-Ring, queue_move-Ring}

-- Pointers that nobody has set.
abbrev garbage : Store
garbage = record { next = λ _. 0; prev = λ _. 0 }

abbrev one : Store
one = queue_insert_tail 1 2 (queue_init 1 garbage)

abbrev two : Store
two = queue_insert_tail 1 3 one

one-Ring : Ring one 1 (2 ∷ [])
one-Ring =
    queue_insert_tail-Ring (queue_init 1 garbage) 1 2 [] (queue_init-Ring garbage 1) (omega arith)

queue_init-Ring_example : Ring (queue_init 1 garbage) 1 []
queue_init-Ring_example = queue_init-Ring garbage 1

two-Ring : Ring two 1 (2 ∷ 3 ∷ [])
two-Ring = queue_insert_tail-Ring one 1 3 (2 ∷ []) one-Ring (omega arith)

queue_insert_tail-Ring_example : Ring (queue_insert_tail 1 4 two) 1 (2 ∷ 3 ∷ 4 ∷ [])
queue_insert_tail-Ring_example = queue_insert_tail-Ring two 1 4 (2 ∷ 3 ∷ []) two-Ring (omega arith)

queue_insert_head-Ring_example : Ring (queue_insert_head 1 4 two) 1 (4 ∷ 2 ∷ 3 ∷ [])
queue_insert_head-Ring_example = queue_insert_head-Ring two 1 4 (2 ∷ 3 ∷ []) two-Ring (omega arith)

queue_remove-Ring_example : Ring (queue_remove 2 two) 1 (3 ∷ [])
queue_remove-Ring_example = queue_remove-Ring two 1 2 [] (3 ∷ []) two-Ring

queue_split-Ring_example :
    Ring (queue_split 1 3 5 two) 1 (2 ∷ []) × Ring (queue_split 1 3 5 two) 5 (3 ∷ [])
queue_split-Ring_example = queue_split-Ring two 1 3 5 (2 ∷ []) [] two-Ring (omega arith)

queue_move-Ring_example : Ring (queue_move 1 5 two) 1 [] × Ring (queue_move 1 5 two) 5 (2 ∷ 3 ∷ [])
queue_move-Ring_example = queue_move-Ring two 1 5 (2 ∷ 3 ∷ []) two-Ring (omega arith)

abbrev both : Store
both = queue_insert_tail 5 6 (queue_init 5 two)

both-first : Ring both 1 (2 ∷ 3 ∷ [])
unfolding queue_init queue_insert_tail
both-first = record { chain = ground arith; distinct = omega arith }

both-second : Ring both 5 (6 ∷ [])
both-second = queue_insert_tail-Ring (queue_init 5 two) 5 6 [] (queue_init-Ring two 5) (omega arith)

queue_add-Ring_example : Ring (queue_add 1 5 both) 1 (2 ∷ 3 ∷ 6 ∷ [])
queue_add-Ring_example =
    queue_add-Ring both 1 5 (2 ∷ 3 ∷ []) (6 ∷ []) both-first both-second (λ a i. ground arith)
