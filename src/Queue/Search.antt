-- ===== src/Queue/Search.antt =====
-- What `indexOfDroppable` finds.
use logcenter_sdk_go.Base.{
  ℕ, zero, suc, ◌+◌, ◌≡◌, refl, String, List, [], ◌∷◌, true, false, none, some, arith, get_elem?,
  set, All, Bool-cases, inl, inr,
}
use mathlib.Core.List.{Perm}
use mathlib.Core.List.Perm
use logcenter_sdk_go.Types.{Event}
use logcenter_sdk_go.Queue.Defs.{is_log_at, index_of_droppable_from}

-- The event at the index that is found passes the test.
pub index_of_droppable_from-some :
    (i : ℕ) (level : String) (events : List Event) (k : ℕ)
    → index_of_droppable_from i level events ≡ some k
    → (j : ℕ) × (e : Event) × (k ≡ i + j)
      × (get_elem? events j ≡ some e)
      × (is_log_at level e ≡ true)
unfolding index_of_droppable_from
index_of_droppable_from-some i level [] k h = cc
index_of_droppable_from-some i level (x ∷ xs) k h = elim (Bool-cases (is_log_at level x)) [
  | inl hit ↦ (0, x, ground arith, refl, hit)
  | inr miss ↦
      let (j, e, p, q, r) =
        index_of_droppable_from-some (suc i) level xs k (rw (miss, index_of_droppable_from) at h) in
      (suc j, e, omega arith, q, r)
]

pub index_of_droppable_from-none :
    (i : ℕ) (level : String) (events : List Event)
    → index_of_droppable_from i level events ≡ none
    → All (λ e. is_log_at level e ≡ false) events
unfolding index_of_droppable_from
index_of_droppable_from-none i level [] h = tt
index_of_droppable_from-none i level (x ∷ xs) h = elim (Bool-cases (is_log_at level x)) [
  | inl hit ↦ absurd (ground arith)
  | inr miss ↦ (
    miss,
    index_of_droppable_from-none (suc i) level xs (rw (miss, index_of_droppable_from) at h),
  )
]

-- What is written over an entry takes its place, as a multiset.
pub set-perm {ℓ} :
    {A : Type ℓ} (xs : List A) (i : ℕ) (v : A) {x : A}
    → get_elem? xs i ≡ some x
    → Perm (v ∷ xs) (x ∷ set xs i v)
set-perm [] i v h = cc
set-perm (y ∷ ys) zero v {x} h = let e : y ≡ x = cc in rw e (Perm.swap x v ys)
set-perm (y ∷ ys) (suc i) v {x} h =
    Perm.trans (Perm.swap y v ys)
      (Perm.trans (Perm.cons y (set-perm ys i v h)) (Perm.swap x y (set ys i v)))
