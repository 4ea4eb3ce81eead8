-- ===== src/Spec/SortedSet.antt =====
-- A set of integers as a strictly ascending list: the contract of the ordered lists.
use public_conc_exp.Common.{
  ◌≡◌, refl, Bool, true, false, ◌&&◌, ◌||◌, not, List, [], ◌∷◌, arith, ℤ, ◌<ℤ◌, ltb_ℤ, ◌==ℤ◌,
  ==ℤ_iff, if◌then◌else◌,
}

-- Is `v` among the values?
unfoldable pub has : ℤ → List ℤ → Bool
has v [] = false
has v (x ∷ xs) = (v ==ℤ x) || has v xs

-- `x` is less than every value.
abbrev pub IsBelow : ℤ → List ℤ → Type 0
IsBelow x [] = Unit
IsBelow x (y ∷ ys) = (x <ℤ y) × IsBelow x ys

abbrev pub IsAscending : List ℤ → Type 0
IsAscending [] = Unit
IsAscending (x ∷ xs) = IsBelow x xs × IsAscending xs

unfoldable pub put : ℤ → List ℤ → List ℤ
put v [] = v ∷ []
put v (x ∷ xs) = if ltb_ℤ x v then x ∷ put v xs else if x ==ℤ v then x ∷ xs else v ∷ x ∷ xs

unfoldable pub drop_value : ℤ → List ℤ → List ℤ
drop_value v [] = []
drop_value v (x ∷ xs) = if ltb_ℤ x v then x ∷ drop_value v xs else if x ==ℤ v then xs else x ∷ xs

IsBelow-trans : (x y : ℤ) (xs : List ℤ) → x <ℤ y → IsBelow y xs → IsBelow x xs
IsBelow-trans x y [] h b = tt
IsBelow-trans x y (z ∷ xs) h b = (omega arith, IsBelow-trans x y xs h b.1)

-- A value below an ascending list is not in it.
pub has_below : (v : ℤ) (xs : List ℤ) → IsBelow v xs → has v xs ≡ false
unfolding has
has_below v [] b = refl
has_below v (x ∷ xs) b = ground (arith, has_below v xs b.1)

-- A value below the head of an ascending list is not behind the head.
pub has_before : (v x : ℤ) (xs : List ℤ) → v <ℤ x → IsBelow x xs → has v xs ≡ false
has_before v x xs h b = has_below v xs (IsBelow-trans v x xs h b)

put-IsBelow : (x v : ℤ) (xs : List ℤ) → x <ℤ v → IsBelow x xs → IsBelow x (put v xs)
unfolding put
put-IsBelow x v [] h b = (h, tt)
put-IsBelow x v (y ∷ xs) h b = ground (arith, put-IsBelow x v xs h b.1)

-- `put` keeps the list strictly ascending.
pub put-IsAscending : (v : ℤ) (xs : List ℤ) → IsAscending xs → IsAscending (put v xs)
unfolding put
put-IsAscending v [] s = (tt, tt)
put-IsAscending v (x ∷ xs) s =
    ground (arith, put-IsAscending v xs s.1, put-IsBelow x v xs, IsBelow-trans v x xs)

drop_value-IsBelow : (x v : ℤ) (xs : List ℤ) → IsBelow x xs → IsBelow x (drop_value v xs)
unfolding drop_value
drop_value-IsBelow x v [] b = tt
drop_value-IsBelow x v (y ∷ xs) b = ground (arith, drop_value-IsBelow x v xs b.1)

pub drop_value-IsAscending : (v : ℤ) (xs : List ℤ) → IsAscending xs → IsAscending (drop_value v xs)
unfolding drop_value
drop_value-IsAscending v [] s = tt
drop_value-IsAscending v (x ∷ xs) s =
    ground (arith, drop_value-IsAscending v xs s.1, drop_value-IsBelow x v xs)

-- A value that is not there is not taken out, and one that is there is not added.
pub drop_value_before : (v x : ℤ) (xs : List ℤ) → v <ℤ x → IsBelow x xs → drop_value v xs ≡ xs
unfolding drop_value
drop_value_before v x [] h b = refl
drop_value_before v x (y ∷ xs) h b = ground arith

pub drop_value_missing : (v : ℤ) (xs : List ℤ) → has v xs ≡ false → drop_value v xs ≡ xs
unfolding drop_value has
drop_value_missing v [] h = refl
drop_value_missing v (x ∷ xs) h = ground (arith, drop_value_missing v xs, ==ℤ_iff x v, ==ℤ_iff v x)

pub put_again : (v : ℤ) (xs : List ℤ) → IsAscending xs → has v xs ≡ true → put v xs ≡ xs
unfolding put has
put_again v [] s h = cc
put_again v (x ∷ xs) s h =
    ground
      (arith, put_again v xs s.1, ==ℤ_iff x v, ==ℤ_iff v x, has_before v x xs, has_below x xs s.0)

-- `put` adds exactly the value.
pub has-put : (w v : ℤ) (xs : List ℤ) → has w (put v xs) ≡ ((w ==ℤ v) || has w xs)
unfolding has put
has-put w v [] = refl
has-put w v (x ∷ xs) = ground (arith, has-put w v xs, ==ℤ_iff x v)

-- `drop_value` takes out exactly the value.
pub has-drop_value :
    (w v : ℤ) (xs : List ℤ) → IsAscending xs → has w (drop_value v xs) ≡ (not (w ==ℤ v) && has w xs)
unfolding has drop_value
has-drop_value w v [] s = ground arith
has-drop_value w v (x ∷ xs) s = ground (
  arith,
  has-drop_value w v xs s.1,
  ==ℤ_iff x v,
  ==ℤ_iff w v,
  has_below x xs s.0,
  has_below v xs,
  IsBelow-trans v x xs,
)
