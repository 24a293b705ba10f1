-- ===== src/References/Holders.antt =====
-- The targets that hold a mount pod, as a set of their reference keys, and the annotations that stand for
-- such a set.
use dfs_csi.Prelude.{
  ◌≡◌, refl, String, Bool, true, false, not, Option, none, some, List, [], ◌∷◌, ◌==◌, ◌||◌, any,
  all, keep, is_empty, starts_with, if◌then◌else◌, eq_iff, eq_refl, arith, Bool-cases, Option-cases,
  inl, inr,
}
use dfs_csi.Prelude.Dict.{Dict, lookup, erase, lookup-erase}
use dfs_csi.Config.{delete_delay_at_key}
use dfs_csi.Kube.{Pod}
use dfs_csi.Mount.Builder.{has_ref}
use dfs_csi.Mount.Refs.Safety.{any-mosfs}
use dfs_csi.Mount.Refs.Annotations.{with_ref, with_ref-lookup}

abbrev pub is_in : String → List String → Bool
is_in key keys = any (λ k. k == key) keys

unfoldable pub hold : String → List String → List String
hold key keys = if is_in key keys then keys else key ∷ keys

unfoldable pub let_go : String → List String → List String
let_go key keys = keep (λ k. not (k == key)) keys

abbrev pub has : String → Dict String → Bool
has key d = elim (lookup key d) [ none ↦ false | some v ↦ true ]

-- The annotations with the prefix of references are those of the set, and the time of deletion is not
-- one of them.
pub record IsHolding (keys : List String) (d : Dict String) : Type 0 where
  pub same : (key : String) → starts_with key "mosfs-" ≡ true → has key d ≡ is_in key keys
  pub prefixed : all (λ k. starts_with k "mosfs-") keys ≡ true
  pub timeless : is_in delete_delay_at_key keys ≡ false

-- A pod is there exactly while the set is not empty.
abbrev pub Represents : List String → Option (Dict String) → Type 0
Represents keys none = is_empty keys ≡ true
Represents keys (some d) = (is_empty keys ≡ false) × IsHolding keys d

is_in-let_go :
    (key j : String) (keys : List String)
    → is_in j (let_go key keys) ≡ (if key == j then false else is_in j keys)
unfolding let_go
is_in-let_go key j [] = ground arith
is_in-let_go key j (k ∷ keys) =
    ground (arith, is_in-let_go key j keys, eq_iff k j, eq_iff k key, eq_iff key j)

all-let_go :
    (p : String → Bool) (key : String) (keys : List String)
    → all p keys ≡ true
    → all p (let_go key keys) ≡ true
unfolding let_go
all-let_go p key [] h = refl
all-let_go p key (k ∷ keys) h = ground (arith, all-let_go p key keys)

is_in-hold :
    (key j : String) (keys : List String) → is_in j (hold key keys) ≡ (key == j || is_in j keys)
unfolding hold
is_in-hold key j keys = ground (arith, eq_iff key j)

all-hold :
    (p : String → Bool) (key : String) (keys : List String)
    → p key ≡ true
    → all p keys ≡ true
    → all p (hold key keys) ≡ true
unfolding hold
all-hold p key keys own h = ground arith

pub hold-filled : (key : String) (keys : List String) → is_empty (hold key keys) ≡ false
unfolding hold
hold-filled key [] = refl
hold-filled key (k ∷ keys) = ground arith

-- AddRefOfMount's annotations stand for the set with the key.
pub with_ref-IsHolding :
    (key target : String) (keys : List String) (d : Dict String)
    → starts_with key "mosfs-" ≡ true
    → (key == delete_delay_at_key) ≡ false
    → IsHolding keys d
    → IsHolding (hold key keys) (with_ref key target d)
with_ref-IsHolding key target keys d own apart h = record {
  same = λ j prefix. ground (
    arith,
    with_ref-lookup key target j d,
    is_in-hold key j keys,
    h.same j prefix,
    h.timeless,
    eq_iff key j,
    eq_iff j key,
    eq_iff j delete_delay_at_key,
  );
  prefixed = all-hold _ key keys own h.prefixed;
  timeless = ground (arith, is_in-hold key delete_delay_at_key keys, h.timeless);
}

-- A key that is there may be held again.
pub hold-IsHolding :
    (key : String) (keys : List String) (d : Dict String)
    → starts_with key "mosfs-" ≡ true
    → has key d ≡ true
    → IsHolding keys d
    → IsHolding (hold key keys) d
unfolding hold
hold-IsHolding key keys d own there h = ground (arith, h, h.same key own)

pub erase-IsHolding :
    (key : String) (keys : List String) (d : Dict String)
    → IsHolding keys d
    → IsHolding (let_go key keys) (erase key d)
erase-IsHolding key keys d h = record {
  same = λ j prefix. ground (arith, lookup-erase key j d, is_in-let_go key j keys, h.same j prefix);
  prefixed = all-let_go _ key keys h.prefixed;
  timeless = ground (arith, is_in-let_go key delete_delay_at_key keys, h.timeless);
}

-- A key that is not there may be let go.
pub let_go-IsHolding :
    (key : String) (keys : List String) (d : Dict String)
    → starts_with key "mosfs-" ≡ true
    → has key d ≡ false
    → IsHolding keys d
    → IsHolding (let_go key keys) d
let_go-IsHolding key keys d own gone h = record {
  same = λ j prefix.
      ground (arith, is_in-let_go key j keys, h.same j prefix, h.same key own, eq_iff key j);
  prefixed = all-let_go _ key keys h.prefixed;
  timeless = ground (arith, is_in-let_go key delete_delay_at_key keys, h.timeless);
}

some_reference :
    (d : Dict String)
    → any (λ (k, v). starts_with k "mosfs-") d ≡ true
    → (key : String) × (starts_with key "mosfs-" ≡ true) × (has key d ≡ true)
unfolding lookup
some_reference [] h = absurd (cc)
some_reference ((k, v) ∷ d) h = elim (Bool-cases (starts_with k "mosfs-")) [
  | inl begins ↦ (k, begins, ground (arith, eq_refl k))
  | inr other ↦
      let (key, prefix, there) = some_reference d (ground arith) in
      (key, prefix, ground (arith, eq_iff k key))
]

none_in : (keys : List String) (key : String) → is_empty keys ≡ true → is_in key keys ≡ false
none_in [] key e = refl
none_in (k ∷ keys) key e = absurd (cc)

-- hasRef tells whether the set is not empty.
pub has_ref-IsHolding :
    (keys : List String) (po : Pod)
    → IsHolding keys po.annotations
    → has_ref po ≡ not (is_empty keys)
unfolding has_ref
has_ref-IsHolding [] po h =
    elim (Bool-cases (any (λ (k, v). starts_with k "mosfs-") po.annotations)) [
      | inl begins ↦
          let (key, prefix, there) = some_reference po.annotations begins in
          absurd (ground (arith, h.same key prefix))
      | inr other ↦ other
    ]
has_ref-IsHolding (k ∷ keys) po h = elim (Option-cases (lookup k po.annotations)) [
  | inl gone ↦ absurd (ground (arith, h.same k own, eq_refl k))
  | inr (v, there) ↦ any-mosfs k v po.annotations there own
]
  where
    own : starts_with k "mosfs-" ≡ true
    own = ground (arith, h.prefixed)
