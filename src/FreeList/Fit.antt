-- ===== src/FreeList/Fit.antt =====
-- The loop of `alloc_first_fit`, src/util/freelist.rs.
use mmtk_core.Base.{
  ℕ, zero, suc, ◌≤◌, ◌<◌, ◌≡◌, ◌⊎◌, inl, inr, refl, ap, Option, some, List, [], ◌∷◌, ◌++◌, arith,
  length, dec_lt,
}
use mmtk_core.FreeList.{IntArrayFreeList, get_size, get_next, get_prev, first_fit}
use mmtk_core.FreeList.Entries.{IsHeaded}
use mmtk_core.FreeList.Ring.{IsLinked, All}
use mmtk_core.FreeList.Moves.{IsUnit, unit_ne_head}

-- The units of a list before the first that is large enough.
pub record IsFirst (f : IntArrayFreeList) (size : ℕ) (us : List ℕ) (u : ℕ) : Type 0 where
  pub before : List ℕ
  pub after : List ℕ
  pub split : us ≡ before ++ u ∷ after
  pub small : All (λ v. get_size f v < size) before
  pub large : size ≤ get_size f u

-- Where the loop stops.
abbrev pub IsSearched : IntArrayFreeList → ℕ → List ℕ → Option (ℕ × ℕ) → Type 0
IsSearched f size us found =
    (All (λ v. get_size f v < size) us × ((s : ℕ) × (found ≡ some (f.head, s))))
    ⊎ ((u : ℕ) × (found ≡ some (u, get_size f u)) × IsFirst f size us u)

pub first_fit-IsSearched :
    (fuel : ℕ) (f : IntArrayFreeList) (size a s : ℕ) (us : List ℕ)
    → length us < fuel
    → IsHeaded f
    → All IsUnit us
    → IsLinked (get_next f) (get_prev f) a us f.head
    → IsSearched f size us (first_fit fuel f size a s)
unfolding first_fit
first_fit-IsSearched zero f size a s us lt h units k = absurd (omega arith)
first_fit-IsSearched (suc fuel) f size a s [] lt h units (e, p) = inl (tt, (s, ground arith))
first_fit-IsSearched (suc fuel) f size a s (v ∷ vs) lt h (unit, units) (e, p, t) =
    let away = unit_ne_head f v h unit in
    elim (dec_lt (get_size f v) size) [
      | yes small ↦
          let rest = first_fit-IsSearched fuel f size v (get_size f v) vs (omega arith) h units t in
          let step : first_fit (suc fuel) f size a s ≡ first_fit fuel f size v (get_size f v) =
            ground arith in
          rw step (later f size v vs small _ rest)
      | no large ↦ inr (
        v,
        ground arith,
        record { before = []; after = vs; split = refl; small = tt; large = omega arith },
      )
    ]
  where
    later :
        (f : IntArrayFreeList) (size v : ℕ) (vs : List ℕ)
        → get_size f v < size
        → (found : Option (ℕ × ℕ)) → IsSearched f size vs found
        → IsSearched f size (v ∷ vs) found
    later f size v vs small found (inl (all, rest)) = inl ((small, all), rest)
    later f size v vs small found (inr (u, e, first)) = inr (
      u,
      e,
      record {
        before = v ∷ first.before;
        after = first.after;
        split = ap (λ us. v ∷ us) first.split;
        small = (small, first.small);
        large = first.large;
      },
    )
