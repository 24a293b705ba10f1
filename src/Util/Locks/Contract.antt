-- ===== src/Util/Locks/Contract.antt =====
-- What ObjLocks promises to its callers: it behaves as a set of names.
use dfs_csi.Prelude.{
  ◌≡◌, refl, ap, ◌∙◌, String, Bool, true, false, not, List, [], ◌∷◌, ◌==◌, eq_iff, arith,
  if◌then◌else◌,
}
use dfs_csi.Util.Locks.{ObjLocks, has, try_acquire, release, new_obj_locks}
use dfs_csi.Util.Locks.Exclusion.{has-release}

-- The calls of one lock table.
pub data Call : Type 0 where
  acquiring releasing : String → Call

-- What TryAcquire answers in a sequence of calls.
abbrev pub answers : List Call → ObjLocks → List Bool
answers [] locks = []
answers (Call.acquiring id ∷ calls) locks =
    (try_acquire id locks).0 ∷ answers calls (try_acquire id locks).1
answers (Call.releasing id ∷ calls) locks = answers calls (release id locks)

-- A set of names, and the set with a name put in or taken out.
abbrev pub Names : Type 0
Names = String → Bool

abbrev pub put : String → Bool → Names → Names
put id b names j = if id == j then b else names j

-- What the contract answers: whether the name was free, which it is not afterwards.
abbrev pub contract : List Call → Names → List Bool
contract [] names = []
contract (Call.acquiring id ∷ calls) names = not (names id) ∷ contract calls (put id true names)
contract (Call.releasing id ∷ calls) names = contract calls (put id false names)

has-try_acquire :
    (id j : String) (locks : ObjLocks)
    → has (try_acquire id locks).1 j ≡ (if id == j then true else has locks j)
unfolding try_acquire
has-try_acquire id j locks = ground (arith, eq_iff id j)

answer-try_acquire :
    (id : String) (locks : ObjLocks) → (try_acquire id locks).0 ≡ not (has locks id)
unfolding try_acquire
answer-try_acquire id locks = ground arith

simulates :
    (calls : List Call) (locks : ObjLocks) (names : Names)
    → ((j : String) → has locks j ≡ names j)
    → answers calls locks ≡ contract calls names
simulates [] locks names same = refl
simulates (Call.acquiring id ∷ calls) locks names same =
    ap (λ b. b ∷ answers calls (try_acquire id locks).1)
      (answer-try_acquire id locks ∙ ap not (same id))
    ∙ ap (λ bs. not (names id) ∷ bs)
        (simulates calls (try_acquire id locks).1 (put id true names)
          (λ j. has-try_acquire id j locks ∙ ap (λ b. if id == j then true else b) (same j)))
simulates (Call.releasing id ∷ calls) locks names same =
    simulates calls (release id locks) (put id false names)
      (λ j. has-release id j locks ∙ ap (λ b. if id == j then false else b) (same j))

-- In any sequence of calls of a new table, TryAcquire answers as a set of names does that is empty at
-- first: it grants a name exactly if no call put it in that Release has not taken out since.
pub answers-contract :
    (calls : List Call) → answers calls new_obj_locks ≡ contract calls (λ j. false)
answers-contract calls = simulates calls new_obj_locks (λ j. false) (λ j. refl)
