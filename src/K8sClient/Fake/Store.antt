-- ===== src/K8sClient/Fake/Store.antt =====
-- What the fake client promises to the tests: a pod per name.
use dfs_csi.Prelude.{
  ◌≡◌, refl, ap, ◌∙◌, String, Option, none, some, List, [], ◌∷◌, ◌==◌, arith, if◌then◌else◌,
}
use dfs_csi.Prelude.Dict.{lookup, lookup-insert, lookup-erase}
use dfs_csi.Kube.{Pod}
use dfs_csi.System.{Failure, Result, ok, err}
use dfs_csi.K8sClient.Fake.{
  FakeK8sClient, running, fake_create_pod, fake_get_pod, fake_update_pod, fake_delete_pod,
}

-- The calls that read or change the pods.
pub data FakeCall : Type 0 where
  creates updates deletes : Pod → FakeCall
  gets : String → String → FakeCall

abbrev no_pod : Result (Unit {0}) → Result (Option Pod)
no_pod (ok _) = ok none
no_pod (err e) = err e

abbrev a_pod : Result Pod → Result (Option Pod)
a_pod (ok pod) = ok (some pod)
a_pod (err e) = err e

-- The state behind a call, and its answer.
abbrev fake_step : FakeCall → FakeK8sClient → FakeK8sClient × Result (Option Pod)
fake_step (FakeCall.creates pod) f =
    ((fake_create_pod f pod).0, ok (some (fake_create_pod f pod).1))
fake_step (FakeCall.updates pod) f = ((fake_update_pod f pod).0, no_pod (fake_update_pod f pod).1)
fake_step (FakeCall.deletes pod) f = ((fake_delete_pod f pod).0, no_pod (fake_delete_pod f pod).1)
fake_step (FakeCall.gets name namespace) f = (f, a_pod (fake_get_pod f name namespace))

abbrev pub fake_answers : List FakeCall → FakeK8sClient → List (Result (Option Pod))
fake_answers [] f = []
fake_answers (call ∷ calls) f = (fake_step call f).1 ∷ fake_answers calls (fake_step call f).0

-- A pod, or none, for each name.
abbrev pub Store : Type 0
Store = String → Option Pod

abbrev set : String → Option Pod → Store → Store
set name o store j = if name == j then o else store j

-- The same calls of a store: only CreatePod puts in a name that is not there, and an update or a deletion
-- of one fails.
abbrev store_step : FakeCall → Store → Store × Result (Option Pod)
store_step (FakeCall.creates pod) store =
    (set pod.name (some (running pod)) store, ok (some (running pod)))
store_step (FakeCall.updates pod) store = elim (store pod.name) [
  | none ↦ (store, err Failure.not_found)
  | some _ ↦ (set pod.name (some pod) store, ok none)
]
store_step (FakeCall.deletes pod) store = elim (store pod.name) [
  | none ↦ (store, err Failure.not_found)
  | some _ ↦ (set pod.name none store, ok none)
]
store_step (FakeCall.gets name namespace) store = elim (store name) [
  | none ↦ (store, err Failure.not_found)
  | some pod ↦ (store, ok (some pod))
]

abbrev pub store_answers : List FakeCall → Store → List (Result (Option Pod))
store_answers [] store = []
store_answers (call ∷ calls) store =
    (store_step call store).1 ∷ store_answers calls (store_step call store).0

IsSame : FakeK8sClient → Store → Type 0
IsSame f store = (j : String) → lookup j f ≡ store j

step-IsSame :
    (call : FakeCall) (f : FakeK8sClient) (store : Store)
    → IsSame f store
    → ((fake_step call f).1 ≡ (store_step call store).1)
      × IsSame (fake_step call f).0 (store_step call store).0
unfolding IsSame fake_create_pod fake_get_pod fake_update_pod fake_delete_pod
step-IsSame (FakeCall.creates pod) f store same =
    (refl, λ j. ground (arith, lookup-insert pod.name j (running pod) f, same j))
step-IsSame (FakeCall.updates pod) f store same = (
  ground (arith, same pod.name),
  λ j. ground (arith, same pod.name, lookup-insert pod.name j pod f, same j),
)
step-IsSame (FakeCall.deletes pod) f store same = (
  ground (arith, same pod.name),
  λ j. ground (arith, same pod.name, lookup-erase pod.name j f, same j),
)
step-IsSame (FakeCall.gets name namespace) f store same =
    (ground (arith, same name), λ j. ground (arith, same name, same j))

simulates :
    (calls : List FakeCall) (f : FakeK8sClient) (store : Store)
    → IsSame f store
    → fake_answers calls f ≡ store_answers calls store
simulates [] f store same = refl
simulates (call ∷ calls) f store same =
    ap (λ r. r ∷ fake_answers calls (fake_step call f).0) (step-IsSame call f store same).0
    ∙ ap (λ rs. (store_step call store).1 ∷ rs)
        (simulates calls (fake_step call f).0 (store_step call store).0
          (step-IsSame call f store same).1)

-- Any sequence of CreatePod, UpdatePod, DeletePod and GetPod of the fake client without pods answers
-- as a store does that has at most one pod for each name and none at first.
pub fake_answers-store :
    (calls : List FakeCall) → fake_answers calls [] ≡ store_answers calls (λ j. none)
unfolding IsSame lookup
fake_answers-store calls = simulates calls [] (λ j. none) (λ j. refl)
