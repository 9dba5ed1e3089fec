-- ===== src/FreeList/Ring.antt =====
-- Rings of units, linked in both directions from a head and back to it, for src/util/freelist.rs.
use mmtk_core.Base.{NotIn, Distinct, ℕ, ◌≡◌, ◌≢◌, sym, ◌∙◌, ap, List, [], ◌∷◌, ◌++◌}

-- From `a` over the units of a list to `b`.
abbrev pub IsLinked : (ℕ → ℕ) → (ℕ → ℕ) → ℕ → List ℕ → ℕ → Type 0
IsLinked nx pv a [] b = (nx a ≡ b) × (pv b ≡ a)
IsLinked nx pv a (v ∷ vs) b = (nx a ≡ v) × (pv v ≡ a) × IsLinked nx pv v vs b

abbrev pub All : (ℕ → Type 0) → List ℕ → Type 0
All P [] = Unit {0}
All P (x ∷ xs) = P x × All P xs

pub All-split : (P : ℕ → Type 0) (xs ys : List ℕ) → All P (xs ++ ys) → All P xs × All P ys
All-split P [] ys h = (tt, h)
All-split P (x ∷ xs) ys (h, t) = let rest = All-split P xs ys t in ((h, rest.0), rest.1)

pub All-append : (P : ℕ → Type 0) (xs ys : List ℕ) → All P xs → All P ys → All P (xs ++ ys)
All-append P [] ys h k = k
All-append P (x ∷ xs) ys (h, t) k = (h, All-append P xs ys t k)

pub IsLinked-split :
    (nx pv : ℕ → ℕ) (a : ℕ) (xs : List ℕ) (v : ℕ) (ys : List ℕ) (b : ℕ)
    → IsLinked nx pv a (xs ++ v ∷ ys) b
    → IsLinked nx pv a xs v × IsLinked nx pv v ys b
IsLinked-split nx pv a [] v ys b (e, p, t) = ((e, p), t)
IsLinked-split nx pv a (x ∷ xs) v ys b (e, p, t) =
    let rest = IsLinked-split nx pv x xs v ys b t in ((e, p, rest.0), rest.1)

module _ (nx pv nx' pv' : ℕ → ℕ) (N : ℕ → Type 0) (u : ℕ) where
  -- Links that do not lead to `u` are kept.
  IsKept : Type 0
  IsKept = ((x : ℕ) → N x → nx x ≢ u → nx' x ≡ nx x) × ((x : ℕ) → N x → pv x ≢ u → pv' x ≡ pv x)

  IsLinked-kept :
      (a : ℕ) (us : List ℕ) (b : ℕ)
      → IsKept
      → N a
      → All N us
      → N b
      → u ≢ a
      → NotIn u us
      → u ≢ b
      → IsLinked nx pv a us b
      → IsLinked nx' pv' a us b
  unfolding IsKept
  IsLinked-kept a [] b (kn, kp) na ns nb da ds db (e, p) =
      (kn a na (λ q. db (sym q ∙ e)) ∙ e, kp b nb (λ q. da (sym q ∙ p)) ∙ p)
  IsLinked-kept a (v ∷ vs) b (kn, kp) na ns nb da ds db (e, p, t) = (
    kn a na (λ q. ds.0 (sym q ∙ e)) ∙ e,
    kp v ns.0 (λ q. da (sym q ∙ p)) ∙ p,
    IsLinked-kept v vs b (kn, kp) ns.0 ns.1 nb ds.0 ds.1 db t,
  )

  -- The neighbours of `u` have been linked to each other.
  pub IsLinked-without :
      (a : ℕ) (xs ys : List ℕ) (b : ℕ)
      → ((x : ℕ) → N x → nx x ≢ u → nx' x ≡ nx x)
      → ((x : ℕ) → N x → pv x ≢ u → pv' x ≡ pv x)
      → nx' (pv u) ≡ nx u
      → pv' (nx u) ≡ pv u
      → N a
      → All N xs
      → All N ys
      → N b
      → u ≢ a
      → NotIn u xs
      → NotIn u ys
      → u ≢ b
      → IsLinked nx pv a (xs ++ u ∷ ys) b
      → IsLinked nx' pv' a (xs ++ ys) b
  unfolding IsKept
  IsLinked-without a [] [] b kn kp jn jp na nxs nys nb da dx dy db (e, p, t) =
      (ap nx' (sym p) ∙ jn ∙ t.0, ap pv' (sym t.0) ∙ jp ∙ p)
  IsLinked-without a [] (y ∷ ys) b kn kp jn jp na nxs nys nb da dx dy db (e, p, t) = (
    ap nx' (sym p) ∙ jn ∙ t.0,
    ap pv' (sym t.0) ∙ jp ∙ p,
    IsLinked-kept y ys b (kn, kp) nys.0 nys.1 nb dy.0 dy.1 db t.2,
  )
  IsLinked-without a (x ∷ xs) ys b kn kp jn jp na nxs nys nb da dx dy db (e, p, t) = (
    kn a na (λ q. dx.0 (sym q ∙ e)) ∙ e,
    kp x nxs.0 (λ q. da (sym q ∙ p)) ∙ p,
    IsLinked-without x xs ys b kn kp jn jp nxs.0 nxs.1 nys nb dx.0 dx.1 dy db t,
  )

-- Units other than the ends of a run keep their links.
IsLinked-frame :
    (nx pv nx' pv' : ℕ → ℕ) (N : ℕ → Type 0) (h y a : ℕ) (us : List ℕ) (b : ℕ)
    → ((x : ℕ) → N x → x ≢ h → nx' x ≡ nx x)
    → ((x : ℕ) → N x → x ≢ y → pv' x ≡ pv x)
    → N a
    → All N us
    → N b
    → h ≢ a
    → NotIn h us
    → NotIn y us
    → y ≢ b
    → IsLinked nx pv a us b
    → IsLinked nx' pv' a us b
IsLinked-frame nx pv nx' pv' N h y a [] b kn kp na ns nb da dh dy db (e, p) =
    (kn a na (λ q. da (sym q)) ∙ e, kp b nb (λ q. db (sym q)) ∙ p)
IsLinked-frame nx pv nx' pv' N h y a (v ∷ vs) b kn kp na ns nb da dh dy db (e, p, t) = (
  kn a na (λ q. da (sym q)) ∙ e,
  kp v ns.0 (λ q. dy.0 (sym q)) ∙ p,
  IsLinked-frame nx pv nx' pv' N h y v vs b kn kp ns.0 ns.1 nb dh.0 dh.1 dy.1 db t,
)

-- A unit has been linked in between the head and its successor.
pub IsLinked-push :
    (nx pv nx' pv' : ℕ → ℕ) (N : ℕ → Type 0) (h u : ℕ) (us : List ℕ)
    → ((x : ℕ) → N x → x ≢ h → nx' x ≡ nx x)
    → ((x : ℕ) → N x → x ≢ nx h → pv' x ≡ pv x)
    → nx' h ≡ u
    → pv' u ≡ h
    → nx' u ≡ nx h
    → pv' (nx h) ≡ u
    → N h
    → All N us
    → NotIn h us
    → Distinct us
    → IsLinked nx pv h us h
    → IsLinked nx' pv' h (u ∷ us) h
IsLinked-push nx pv nx' pv' N h u [] kn kp e₁ e₂ e₃ e₄ nh ns dh d (e, p) =
    (e₁, e₂, (e₃ ∙ e, ap pv' (sym e) ∙ e₄))
IsLinked-push nx pv nx' pv' N h u (v ∷ vs) kn kp e₁ e₂ e₃ e₄ nh ns dh d (e, p, t) = (
  e₁,
  e₂,
  (
    e₃ ∙ e,
    ap pv' (sym e) ∙ e₄,
    IsLinked-frame nx pv nx' pv' N h v v vs h kn (λ x n q. kp x n (λ r. q (r ∙ e))) ns.0 ns.1 nh
        dh.0 dh.1 d.0 (λ r. dh.0 (sym r)) t,
  ),
)

-- Links that are the same at all units of a run.
pub IsLinked-same :
    (nx pv nx' pv' : ℕ → ℕ) (N : ℕ → Type 0) (a : ℕ) (us : List ℕ) (b : ℕ)
    → ((x : ℕ) → N x → nx' x ≡ nx x)
    → ((x : ℕ) → N x → pv' x ≡ pv x)
    → N a
    → All N us
    → N b
    → IsLinked nx pv a us b
    → IsLinked nx' pv' a us b
IsLinked-same nx pv nx' pv' N a [] b kn kp na ns nb (e, p) = (kn a na ∙ e, kp b nb ∙ p)
IsLinked-same nx pv nx' pv' N a (v ∷ vs) b kn kp na ns nb (e, p, t) =
    (kn a na ∙ e, kp v ns.0 ∙ p, IsLinked-same nx pv nx' pv' N v vs b kn kp ns.0 ns.1 nb t)

pub IsLinked-start :
    (nx pv : ℕ → ℕ) (h u : ℕ) (us : List ℕ) → IsLinked nx pv h us h → u ≢ h → NotIn u us → nx h ≢ u
IsLinked-start nx pv h u [] (e, p) d ds q = d (sym q ∙ e)
IsLinked-start nx pv h u (v ∷ vs) (e, p, t) d ds q = ds.0 (sym q ∙ e)
