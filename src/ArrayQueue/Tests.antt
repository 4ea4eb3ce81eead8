-- ===== src/ArrayQueue/Tests.antt =====
-- The queue in an array on small inputs.
use public_conc_exp.Common.{ℕ, ◌+◌, ◌≡◌, refl, List, [], ◌∷◌, ℤ, pos, false, true, ok, fault}
use public_conc_exp.ArrayQueue.{QueueArray, enqueue, dequeue, new_queue, full, grow, enqueue_cell}
use public_conc_exp.ArrayQueue.Laws.{IsRow, dequeue-IsRow, dequeue_last_faults}

abbrev zeros : List ℤ
zeros = pos 0 ∷ pos 0 ∷ pos 0 ∷ pos 0 ∷ pos 0 ∷ []

-- Eight cells of which the first ones, to the index `last`, are in use.
abbrev row_of : ℕ → List ℤ → QueueArray
row_of last cells = record {
  front_index = pos 0;
  back_index = pos last;
  arr = cells;
  capacity_var = 8;
  count = 5 + last;
  array_lock = false;
}

abbrev one_value : QueueArray
one_value = row_of 0 (pos 3 ∷ pos 0 ∷ pos 0 ∷ zeros)

abbrev two_values : QueueArray
two_values = row_of 1 (pos 3 ∷ pos 4 ∷ pos 0 ∷ zeros)

one-IsRow : IsRow one_value [] (pos 3) [] (pos 0 ∷ pos 0 ∷ zeros)
one-IsRow = record { cells = refl; front = refl; back = refl; capacity = refl; free = refl }

two-IsRow : IsRow two_values [] (pos 3) (pos 4 ∷ []) (pos 0 ∷ zeros)
two-IsRow = record { cells = refl; front = refl; back = refl; capacity = refl; free = refl }

dequeue-IsRow_example :
    (t : QueueArray) × (dequeue two_values ≡ ok (t, pos 4))
    × IsRow t (pos 3 ∷ []) (pos 4) [] (pos 0 ∷ zeros)
dequeue-IsRow_example = dequeue-IsRow two_values [] (pos 3) (pos 4) [] (pos 0 ∷ zeros) two-IsRow

dequeue-one_value : dequeue one_value ≡ fault
dequeue-one_value = dequeue_last_faults one_value [] (pos 3) (pos 0 ∷ pos 0 ∷ zeros) one-IsRow

-- The first `enqueue` on a new queue doubles its array.
first_enqueue : enqueue (λ _. pos 0) (pos 3) (new_queue (λ _. pos 0)) ≡ ok (one_value, true)
unfolding enqueue full grow enqueue_cell
first_enqueue = refl
