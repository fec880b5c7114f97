-- ===== src/Prelude/Dict.antt =====
-- A persistent map keyed by numbers (the contract's `LookupMap` collections), as an association
-- list: `get`, `insert` and `remove`, with the laws by which its clients reason.
use Prim.Native.Nat.{ℕ, ◌+◌}
use mathlib.Core.Path.{◌≡◌, refl}
use mathlib.Core.Option.{Option, none, some}
use mathlib.Core.List.{List, [], ◌∷◌}
use native.Mathlib.Omega.{arith}
use oysterpack_near_stake_to.Prelude.Tests.{◌==◌, if◌then◌else◌}

abbrev pub Dict {ℓ} : Type ℓ → Type ℓ
Dict A = List (ℕ × A)

module _ {ℓ} {A : Type ℓ} where
  unfoldable pub get : ℕ → Dict A → Option A
  get k [] = none
  get k ((j, v) ∷ d) = if j == k then some v else get k d

  unfoldable pub insert : ℕ → A → Dict A → Dict A
  insert k v [] = (k, v) ∷ []
  insert k v ((j, w) ∷ d) = if j == k then (k, v) ∷ d else (j, w) ∷ insert k v d

  unfoldable pub remove : ℕ → Dict A → Dict A
  remove k [] = []
  remove k ((j, w) ∷ d) = let rest = remove k d in if j == k then rest else (j, w) ∷ rest

  pub get-insert :
      (j k : ℕ) (v : A) (d : Dict A) → get j (insert k v d) ≡ (if k == j then some v else get j d)
  unfolding get insert
  get-insert j k v [] = refl
  get-insert j k v ((i, w) ∷ d) = ground (arith, get-insert j k v d)

  -- Writing what is stored already changes nothing.
  pub insert-get : (k : ℕ) (v : A) (d : Dict A) → get k d ≡ some v → insert k v d ≡ d
  unfolding get insert
  insert-get k v [] e = ground arith
  insert-get k v ((i, w) ∷ d) e = ground (arith, insert-get k v d)

  -- Of two writes under a key the last one counts.
  pub insert-insert : (k : ℕ) (v w : A) (d : Dict A) → insert k v (insert k w d) ≡ insert k v d
  unfolding insert
  insert-insert k v w [] = ground arith
  insert-insert k v w ((i, u) ∷ d) = ground (arith, insert-insert k v w d)

  pub get-remove : (j k : ℕ) (d : Dict A) → get j (remove k d) ≡ (if k == j then none else get j d)
  unfolding get remove
  get-remove j k [] = ground arith
  get-remove j k ((i, w) ∷ d) = ground (arith, get-remove j k d)

  -- Writing under one key, or dropping it, leaves the others.
  pub get-insert_ne : (j k : ℕ) (v : A) (d : Dict A) → ¬ (k ≡ j) → get j (insert k v d) ≡ get j d
  get-insert_ne j k v d ne = ground (arith, get-insert j k v d)

  pub get-remove_ne : (j k : ℕ) (d : Dict A) → ¬ (k ≡ j) → get j (remove k d) ≡ get j d
  get-remove_ne j k d ne = ground (arith, get-remove j k d)

  -- No key is listed twice.
  abbrev pub IsKeyed : Dict A → Type ℓ
  IsKeyed [] = Unit
  IsKeyed ((k, v) ∷ d) = (get k d ≡ none) × IsKeyed d

  pub insert-IsKeyed : (k : ℕ) (v : A) (d : Dict A) → IsKeyed d → IsKeyed (insert k v d)
  unfolding insert get
  insert-IsKeyed k v [] h = ground arith
  insert-IsKeyed k v ((j, w) ∷ d) h = ground (arith, insert-IsKeyed k v d h.1, get-insert j k v d)

  pub remove-IsKeyed : (k : ℕ) (d : Dict A) → IsKeyed d → IsKeyed (remove k d)
  unfolding remove
  remove-IsKeyed k [] h = tt
  remove-IsKeyed k ((j, w) ∷ d) h = ground (arith, remove-IsKeyed k d h.1, get-remove j k d)

-- The total of a measure over the entries.
module _ {ℓ} {A : Type ℓ} (f : A → ℕ) where
  unfoldable pub total : Dict A → ℕ
  total [] = 0
  total ((k, v) ∷ d) = f v + total d

  pub total-insert :
      (k : ℕ) (v w : A) (d : Dict A) → get k d ≡ some w → total (insert k v d) + f w ≡ total d + f v
  unfolding get insert total
  total-insert k v w [] e = ground arith
  total-insert k v w ((j, u) ∷ d) e = ground (arith, total-insert k v w d)

  pub total-insert_new :
      (k : ℕ) (v : A) (d : Dict A) → get k d ≡ none → total (insert k v d) ≡ total d + f v
  unfolding get insert total
  total-insert_new k v [] e = ground arith
  total-insert_new k v ((j, u) ∷ d) e = ground (arith, total-insert_new k v d)
