-- ===== src/Util/Locks/Exclusion.antt =====
-- ObjLocks under any order of calls: a name is held by one operation at a time.
use dfs_csi.Prelude.{
  ℕ, ◌≡◌, ◌↔◌, refl, String, Bool, true, false, not, ◌&&◌, List, [], ◌∷◌, any, keep, ◌==◌, eq_iff,
  arith, if◌then◌else◌, eqb,
}
use dfs_csi.Util.Locks.{ObjLocks, has, try_acquire, release, new_obj_locks}

-- After a release a name is held if it was held and is another one.
pub has-release :
    (id j : String) (locks : ObjLocks)
    → has (release id locks) j ≡ (if id == j then false else has locks j)
unfolding release
has-release id j [] = ground arith
has-release id j (held ∷ locks) =
    ground (arith, has-release id j locks, eq_iff held id, eq_iff held j, eq_iff id j)

-- The operations under way: a number for each, and the name that it holds.
abbrev pub Holders : Type 0
Holders = List (ℕ × String)

abbrev pub holds_name : Holders → String → Bool
holds_name hs id = any (λ (n, j). j == id) hs

abbrev pub is_holder : Holders → ℕ → String → Bool
is_holder hs n id = any (λ (m, j). eqb m n && j == id) hs

abbrev pub drop_holder : ℕ → String → Holders → Holders
drop_holder n id hs = keep (λ (m, j). not (eqb m n && j == id)) hs

pub record State : Type 0 where
  pub locks : ObjLocks
  pub holders : Holders

abbrev pub initial : State
initial = record { locks = new_obj_locks; holders = [] }

-- An operation calls TryAcquire and goes on if it is told so; at its end it releases its name.
pub data Step : State → State → Type 0 where
  acquired :
      (s : State) (n : ℕ) (id : String)
      → (try_acquire id s.locks).0 ≡ true
      → Step s (record { locks = (try_acquire id s.locks).1; holders = (n, id) ∷ s.holders })
  refused :
      (s : State) (id : String)
      → (try_acquire id s.locks).0 ≡ false
      → Step s (record s { locks = (try_acquire id s.locks).1 })
  released :
      (s : State) (n : ℕ) (id : String)
      → is_holder s.holders n id ≡ true
      → Step s (record { locks = release id s.locks; holders = drop_holder n id s.holders })

pub data Reach : State → Type 0 where
  start : Reach initial
  next : {s t : State} → Reach s → Step s t → Reach t

-- No name has two holders.
abbrev pub Distinct : Holders → Type 0
Distinct [] = Unit
Distinct ((n, id) ∷ hs) = (holds_name hs id ≡ false) × Distinct hs

drop_absent :
    (n : ℕ) (id j : String) (hs : Holders)
    → holds_name hs id ≡ false
    → holds_name (drop_holder n id hs) j ≡ holds_name hs j
drop_absent n id j [] h = refl
drop_absent n id j ((m, k) ∷ hs) h = ground (arith, drop_absent n id j hs)

holds_name-drop :
    (n : ℕ) (id j : String) (hs : Holders)
    → Distinct hs
    → is_holder hs n id ≡ true
    → holds_name (drop_holder n id hs) j ≡ (if id == j then false else holds_name hs j)
holds_name-drop n id j [] d h = absurd (cc)
holds_name-drop n id j ((m, k) ∷ hs) (fresh, d) h = ground (
  arith,
  holds_name-drop n id j hs d,
  drop_absent n id j hs,
  eq_iff k id,
  eq_iff k j,
  eq_iff id j,
  is_holder-holds n id hs,
)
  where
    is_holder-holds :
        (n : ℕ) (id : String) (hs : Holders) → is_holder hs n id ≡ true → holds_name hs id ≡ true
    is_holder-holds n id [] h = absurd (cc)
    is_holder-holds n id ((m, k) ∷ hs) h = ground (arith, is_holder-holds n id hs)

drop_holder-Distinct :
    (n : ℕ) (id : String) (hs : Holders) → Distinct hs → Distinct (drop_holder n id hs)
drop_holder-Distinct n id [] d = d
drop_holder-Distinct n id ((m, k) ∷ hs) (fresh, d) =
    ground (arith, drop_holder-Distinct n id hs d, drop_none n id k hs)
  where
    drop_none :
        (n : ℕ) (id j : String) (hs : Holders)
        → holds_name hs j ≡ false
        → holds_name (drop_holder n id hs) j ≡ false
    drop_none n id j [] h = h
    drop_none n id j ((m, k) ∷ hs) h = ground (arith, drop_none n id j hs)

-- The set of locks holds the names of the holders, each of which has one.
pub record IsExclusive (s : State) : Type 0 where
  pub distinct : Distinct s.holders
  pub agree : (id : String) → has s.locks id ≡ holds_name s.holders id

Step-IsExclusive : {s t : State} → Step s t → IsExclusive s → IsExclusive t
unfolding try_acquire
Step-IsExclusive (acquired s n id e) h = record {
  distinct = ground (arith, h.distinct, h.agree id);
  agree = λ j. ground (arith, h.agree id, h.agree j);
}
Step-IsExclusive (refused s id e) h = record {
  distinct = h.distinct;
  agree = λ j. ground (arith, h.agree id, h.agree j);
}
Step-IsExclusive (released s n id e) h = record {
  distinct = drop_holder-Distinct n id s.holders h.distinct;
  agree = λ j.
      ground
        (arith, has-release id j s.locks, holds_name-drop n id j s.holders h.distinct e, h.agree j);
}

-- Whatever the order in which operations acquire, are refused and release, no name has two holders
-- and the locks are the names of the holders.
pub Reach-IsExclusive : {s : State} → Reach s → IsExclusive s
Reach-IsExclusive start = record { distinct = tt; agree = λ id. refl }
Reach-IsExclusive (next r st) = Step-IsExclusive st (Reach-IsExclusive r)

-- In a state that can be reached, TryAcquire says true exactly when the name has no holder.
pub try_acquire_iff :
    {s : State}
    → Reach s
    → (id : String) → ((try_acquire id s.locks).0 ≡ true) ↔ (holds_name s.holders id ≡ false)
unfolding try_acquire
try_acquire_iff {s} r id = ground (arith, (Reach-IsExclusive r).agree id)
