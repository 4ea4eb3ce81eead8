-- ===== src/Spec/SetCalls.antt =====
-- The calls of a set of integers, and what they do to it: `insert` tells whether the value was new,
-- `remove` returns the value or -1, and `remove_first` takes the least value, or returns -1.
use public_conc_exp.Common.{not, none, some, List, [], ◌∷◌, ℤ, minus_one, if◌then◌else◌}
use public_conc_exp.Spec.Requests.{Reply, done, got}
use public_conc_exp.Spec.SortedSet.{has, put, drop_value}
use public_conc_exp.Spec.Calls.{Object}

pub data SetRequest : Type 0 where
  insert : ℤ → SetRequest
  remove : ℤ → SetRequest
  remove_first : SetRequest

unfoldable pub set_step : SetRequest → List ℤ → List ℤ × Reply
set_step (insert v) xs = (put v xs, done (not (has v xs)))
set_step (remove v) xs = (drop_value v xs, got (if has v xs then v else minus_one))
set_step remove_first [] = ([], got minus_one)
set_step remove_first (x ∷ xs) = (xs, got x)

abbrev pub set : Object SetRequest (List ℤ)
set = record { step = λ q xs. some (set_step q xs); peek = λ q xs. none }
