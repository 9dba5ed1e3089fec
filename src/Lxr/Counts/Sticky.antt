-- ===== src/Lxr/Counts/Sticky.antt =====
-- Counts as numbers of references.
use mmtk_core.Base.{
  ℕ, zero, suc, ◌+◌, ◌-◌, ◌^◌, ◌≤◌, ◌<◌, ◌≡◌, refl, ap, ◌∙◌, ◌⊎◌, ◌==◌, inl, inr, if◌then◌else◌,
  Bool, true, false, ◌||◌, Option, none, some, List, [], ◌∷◌, Bool-cases, Option-cases, ==_iff,
  arith,
}
use mmtk_core.Metadata.Spec.{
  SideMetadataSpec, IsRegular, region, address_to_meta_address, address_to_contiguous_meta_address,
  meta_byte_lshift,
}
use native.Mathlib.Nat.{pow-suc}
use mmtk_core.Metadata.Spec.Translate.{one_le_two_pow}
use mmtk_core.Metadata.Access.{Memory, load, values, fetch_update_atomic}
use mmtk_core.Metadata.Access.Words.{IsBytes}
use mmtk_core.Metadata.Access.Region.{load-store}
use mmtk_core.Metadata.Access.Applied.{
  fetch_update_atomic-store, fetch_update_atomic-refused, load-below_values, store-IsBytes,
}
use mmtk_core.Lxr.Counts.{RefCountHelper, rc_table, max_ref_count, count, inc, dec, stick, is_dead}
use mmtk_core.Lxr.Counts.Changes.{
  Change, inc_of, dec_of, stick_of, apply, apply_all, same_object, references, IsBalanced,
}

load-region :
    (spec : SideMetadataSpec) (mem : Memory) (d e : ℕ)
    → region spec d ≡ region spec e
    → load spec mem d ≡ load spec mem e
unfolding load address_to_meta_address address_to_contiguous_meta_address meta_byte_lshift
load-region spec mem d e h = rw h

one_lt_power : (n : ℕ) → 1 ≤ n → 1 < 2 ^ n
one_lt_power zero h = absurd (omega arith)
one_lt_power (suc n) h = omega (arith, pow-suc 2 n, one_le_two_pow n)

-- The value after an update.
abbrev result_of : ℕ → Option ℕ → ℕ
result_of old none = old
result_of old (some new) = new

abbrev updated_to : (ℕ → Option ℕ) → ℕ → ℕ
updated_to f old = result_of old (f old)

module _ (spec : SideMetadataSpec) (regular : IsRegular spec) (mem : Memory)
    (bytes : IsBytes mem) where
  load-update :
      (d e : ℕ) (f : ℕ → Option ℕ)
      → d < 2 ^ 64
      → e < 2 ^ 64
      → updated_to f (load spec mem d) < values spec
      → load spec (fetch_update_atomic spec mem d f).1 e ≡ (
          if region spec d == region spec e
          then updated_to f (load spec mem d)
          else load spec mem e)
  load-update d e f hd he h = elim (Option-cases (f (load spec mem d))) [
    | inl refused ↦
        rw (refused, fetch_update_atomic-refused spec mem d f refused)
          (elim (Bool-cases (region spec d == region spec e)) [
            | inl same ↦ rw same (load-region spec mem e d (ground arith))
            | inr other ↦ rw other
          ])
    | inr (new, accepted) ↦
        let fits : new < values spec = rw accepted at h in
        rw (accepted, fetch_update_atomic-store spec mem d f new bytes accepted fits)
          (load-store spec mem d e new regular bytes hd he fits)
  ]

  update-IsBytes :
      (d : ℕ) (f : ℕ → Option ℕ)
      → updated_to f (load spec mem d) < values spec
      → IsBytes (fetch_update_atomic spec mem d f).1
  update-IsBytes d f h = elim (Option-cases (f (load spec mem d))) [
    | inl refused ↦ rw (fetch_update_atomic-refused spec mem d f refused) bytes
    | inr (new, accepted) ↦
        let fits : new < values spec = rw accepted at h in
        rw (fetch_update_atomic-store spec mem d f new bytes accepted fits)
          (store-IsBytes spec mem d new bytes fits)
  ]

-- The number of references, or stuck.
abbrev IsCounted : RefCountHelper → (n refs : ℕ) → Type 0
IsCounted rc n refs = (n ≤ max_ref_count rc) × ((n ≡ refs) ⊎ (n ≡ max_ref_count rc))

-- What a change makes of the count of its object.
abbrev changed : RefCountHelper → Change → ℕ → ℕ
changed rc (inc_of p) x = if x == max_ref_count rc then x else x + 1
changed rc (dec_of p) x = if x == 0 || x == max_ref_count rc then x else x - 1
changed rc (stick_of p) x = max_ref_count rc

abbrev object_of : Change → ℕ
object_of (inc_of p) = p
object_of (dec_of p) = p
object_of (stick_of p) = p

changed-le :
    (rc : RefCountHelper) (c : Change) (x : ℕ)
    → x ≤ max_ref_count rc
    → changed rc c x ≤ max_ref_count rc
changed-le rc (inc_of p) x h = ground arith
changed-le rc (dec_of p) x h = ground arith
changed-le rc (stick_of p) x h = omega arith

module _ (rc : RefCountHelper) (width : rc.log_ref_count_bits ≤ 3) where
  regular : IsRegular (rc_table rc)
  regular = record { at_most_word = omega arith; at_most_region = omega arith }

  below_max : (mem : Memory) (o : ℕ) → IsBytes mem → load (rc_table rc) mem o ≤ max_ref_count rc
  unfolding max_ref_count
  below_max mem o bytes = omega (arith, load-below_values (rc_table rc) mem o (omega arith) bytes)

  fits : (x : ℕ) → x ≤ max_ref_count rc → x < values (rc_table rc)
  unfolding max_ref_count
  fits x h = omega (arith, one_le_two_pow (2 ^ rc.log_ref_count_bits))

  -- A change is an update whose result is the changed count.
  IsUpdate : Memory → Change → Type 0
  IsUpdate mem c =
      (f : ℕ → Option ℕ) × (apply rc mem c
        ≡ (fetch_update_atomic (rc_table rc) mem (object_of c) f).1)
      × (updated_to f (load (rc_table rc) mem (object_of c))
          ≡ changed rc c (load (rc_table rc) mem (object_of c)))

  apply-IsUpdate : (mem : Memory) (c : Change) → IsUpdate mem c
  unfolding IsUpdate apply inc dec stick
  apply-IsUpdate mem (inc_of p) = (_, refl, ground arith)
  apply-IsUpdate mem (dec_of p) = (_, refl, ground arith)
  apply-IsUpdate mem (stick_of p) = (_, refl, ground arith)

  apply-IsBytes : (mem : Memory) (c : Change) → IsBytes mem → IsBytes (apply rc mem c)
  unfolding IsUpdate
  apply-IsBytes mem c bytes =
      let (f, is_update, result) = apply-IsUpdate mem c in
      let ok_size = fits _ (changed-le rc c _ (below_max mem (object_of c) bytes)) in
      rw is_update
        (update-IsBytes (rc_table rc) regular mem bytes (object_of c) f (rw result ok_size))

  count-apply :
      (mem : Memory) (c : Change) (o : ℕ)
      → IsBytes mem
      → object_of c < 2 ^ 64
      → o < 2 ^ 64
      → count rc (apply rc mem c) o
        ≡ (if same_object rc (object_of c) o then changed rc c (count rc mem o) else count rc mem o)
  unfolding IsUpdate count
  count-apply mem c o bytes hc ho =
      let (f, is_update, result) = apply-IsUpdate mem c in
      let ok_size = fits _ (changed-le rc c _ (below_max mem (object_of c) bytes)) in
      let loaded =
        load-update (rc_table rc) regular mem bytes (object_of c) o f hc ho (rw result ok_size) in
      rw is_update (
        loaded ∙ elim (Bool-cases (same_object rc (object_of c) o)) [
          | inl same ↦ rw same (
              result
              ∙ ap (changed rc c)
                  (load-region (rc_table rc) mem (object_of c) o (ground (arith, same))))
          | inr other ↦ rw other
        ])

  -- One change keeps a count that is the number of references, or stuck.
  IsCounted-inc :
      (same : Bool) (n refs : ℕ)
      → IsCounted rc n refs
      → IsCounted rc
          (if same then (if n == max_ref_count rc then n else n + 1) else n)
          (if same then refs + 1 else refs)
  IsCounted-inc same n refs h = ground arith

  IsCounted-dec :
      (same : Bool) (n refs : ℕ)
      → IsCounted rc n refs
      → (same ≡ true → 0 < refs)
      → IsCounted rc
          (if same then (if n == 0 || n == max_ref_count rc then n else n - 1) else n)
          (if same then refs - 1 else refs)
  IsCounted-dec true n refs h some_refs = let more : 0 < refs = some_refs refl in ground arith
  IsCounted-dec false n refs h some_refs = h

  IsCounted-stick :
      (same : Bool) (n refs : ℕ)
      → IsCounted rc n refs
      → IsCounted rc (if same then max_ref_count rc else n) refs
  IsCounted-stick same n refs h = ground arith

  apply_all-IsCounted :
      (mem : Memory) (cs : List Change) (o refs : ℕ)
      → IsBytes mem
      → o < 2 ^ 64
      → IsBalanced rc o refs cs
      → IsCounted rc (count rc mem o) refs
      → IsCounted rc (count rc (apply_all rc mem cs) o) (references rc o refs cs)
  unfolding apply_all
  apply_all-IsCounted mem [] o refs bytes ho balanced h = h
  apply_all-IsCounted mem (inc_of p ∷ cs) o refs bytes ho balanced h =
      apply_all-IsCounted (apply rc mem (inc_of p)) cs o _ (apply-IsBytes mem (inc_of p) bytes) ho
        balanced.1
        (rw (count-apply mem (inc_of p) o bytes balanced.0 ho) (IsCounted-inc _ _ refs h))
  apply_all-IsCounted mem (dec_of p ∷ cs) o refs bytes ho balanced h =
      apply_all-IsCounted (apply rc mem (dec_of p)) cs o _ (apply-IsBytes mem (dec_of p) bytes) ho
        balanced.2
        (rw (count-apply mem (dec_of p) o bytes balanced.0 ho)
          (IsCounted-dec _ _ refs h balanced.1))
  apply_all-IsCounted mem (stick_of p ∷ cs) o refs bytes ho balanced h =
      apply_all-IsCounted (apply rc mem (stick_of p)) cs o refs
        (apply-IsBytes mem (stick_of p) bytes) ho balanced.1
        (rw (count-apply mem (stick_of p) o bytes balanced.0 ho) (IsCounted-stick _ _ refs h))

none_left :
    (rc : RefCountHelper) (n refs : ℕ) → (n ≡ refs) ⊎ (n ≡ max_ref_count rc) → n ≡ 0 → refs ≡ 0
unfolding max_ref_count
none_left rc n refs h e =
    omega (arith, one_lt_power (2 ^ rc.log_ref_count_bits) (one_le_two_pow rc.log_ref_count_bits))

-- For counts of at most eight bits, bytes in memory and an object whose count is the number of its
-- references, or stuck: after any increments, decrements and stickings of counts of any objects, in
-- which no reference to the object is taken away that is not there, its count is the number of its
-- references, or stuck; and if `is_dead` holds for it, then it has no references.
pub is_dead-references :
    (rc : RefCountHelper) (mem : Memory) (cs : List Change) (o refs : ℕ)
    → rc.log_ref_count_bits ≤ 3
    → IsBytes mem
    → o < 2 ^ 64
    → IsBalanced rc o refs cs
    → (count rc mem o ≡ refs) ⊎ (count rc mem o ≡ max_ref_count rc)
    → let mem' = apply_all rc mem cs in
      let refs' = references rc o refs cs in
      ((count rc mem' o ≡ refs') ⊎ (count rc mem' o ≡ max_ref_count rc))
      × (is_dead rc mem' o ≡ true → refs' ≡ 0)
unfolding is_dead count
is_dead-references rc mem cs o refs width bytes ho balanced h =
    let counted =
      apply_all-IsCounted rc width mem cs o refs bytes ho balanced
        (below_max rc width mem o bytes, h) in
    (counted.1, λ dead. none_left rc _ _ counted.1 ((==_iff _ _).0 dead))
