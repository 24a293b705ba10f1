-- ===== src/System/Steps.antt =====
-- Code that returns: what its parts return.
use dfs_csi.Prelude.{◌≡◌, refl, ap, ◌∙◌, Bool, true, false, Option, none, some}
use dfs_csi.System.{Trace, Failure, Result, ok, err}
use dfs_csi.System.Io.{
  Io, Outcome, and_then, done, fails, panics, hung, pure, fail, lift, attempt, branch, on_result,
  on_option, ◌>>=◌, ◌>>◌,
}

module _ {ℓ κ ι} {A : Type ℓ} {B : Type κ} {C : Type ι} where
  returned :
      (o : Outcome A) (f : A → Io B) (b : B) (u : Trace)
      → and_then o f ≡ done b u
      → ((a : A) (v : Trace) → o ≡ done a v → f a v ≡ done b u → C)
      → C
  returned (done a v) f b u eq k = k a v refl eq
  returned (fails e v) f b u eq k = absurd (cc)
  returned (panics s v) f b u eq k = absurd (cc)
  returned (hung v) f b u eq k = absurd (cc)

  -- Where a sequence returns, both its parts do.
  pub bind-done :
      (m : Io A) (f : A → Io B) (t : Trace) (b : B) (u : Trace)
      → (m >>= f) t ≡ done b u
      → ((a : A) (v : Trace) → m t ≡ done a v → f a v ≡ done b u → C)
      → C
  unfolding ◌>>=◌
  bind-done m f t b u eq k = returned (m t) f b u eq k

module _ {ℓ ι} {A : Type ℓ} {C : Type ι} where
  pub branch-done :
      (b : Bool) (m n : Io A) (t : Trace) (a : A) (u : Trace)
      → branch b m n t ≡ done a u
      → (b ≡ true → m t ≡ done a u → C)
      → (b ≡ false → n t ≡ done a u → C)
      → C
  unfolding branch
  branch-done true m n t a u eq k l = k refl eq
  branch-done false m n t a u eq k l = l refl eq

module _ {ℓ κ ι} {A : Type ℓ} {B : Type κ} {C : Type ι} where
  pub on_result-done :
      (r : Result A) (f : A → Io B) (g : Failure → Io B) (t : Trace) (b : B) (u : Trace)
      → on_result r f g t ≡ done b u
      → ((a : A) → r ≡ ok a → f a t ≡ done b u → C)
      → ((e : Failure) → r ≡ err e → g e t ≡ done b u → C)
      → C
  unfolding on_result
  on_result-done (ok a) f g t b u eq k l = k a refl eq
  on_result-done (err e) f g t b u eq k l = l e refl eq

module _ {ℓ} {A : Type ℓ} where
  -- A call whose result is looked at returned the value.
  pub attempt-done : (m : Io A) (t u : Trace) (a : A) → attempt m t ≡ done (ok a) u → m t ≡ done a u
  unfolding attempt
  attempt-done m t u a eq = by_outcome (m t) eq
    where
      by_outcome :
          (o : Outcome A)
          → elim o [
            | done a t' ↦ done (ok a) t'
            | fails e t' ↦ done (err e) t'
            | panics s t' ↦ panics s t'
            | hung t' ↦ hung t'
          ]
            ≡ done (ok a) u
          → o ≡ done a u
      by_outcome (done b v) e = cc
      by_outcome (fails f v) e = absurd (cc)
      by_outcome (panics s v) e = absurd (cc)
      by_outcome (hung v) e = absurd (cc)

module _ {ℓ κ ι} {A : Type ℓ} {B : Type κ} {C : Type ι} where
  pub then-done :
      (m : Io A) (k : Io B) (t : Trace) (b : B) (u : Trace)
      → (m >> k) t ≡ done b u
      → ((v : Trace) → (a : A) → m t ≡ done a v → k v ≡ done b u → C)
      → C
  unfolding ◌>>◌
  then-done m k t b u eq c = bind-done m (λ _. k) t b u eq (λ a v first rest. c v a first rest)

module _ {ℓ κ ι} {A : Type ℓ} {B : Type κ} {C : Type ι} where
  pub on_option-done :
      (o : Option A) (n : Io B) (f : A → Io B) (t : Trace) (b : B) (u : Trace)
      → on_option o n f t ≡ done b u
      → (o ≡ none → n t ≡ done b u → C)
      → ((a : A) → o ≡ some a → f a t ≡ done b u → C)
      → C
  unfolding on_option
  on_option-done none n f t b u eq k l = k refl eq
  on_option-done (some a) n f t b u eq k l = l a refl eq

module _ {ℓ} {A : Type ℓ} where
  -- Code that only changes the error of a call.
  pub relabelled-done :
      (m : Io A) (f : Failure) (t : Trace) (a : A) (u : Trace)
      → (attempt m >>= λ r. on_result r (λ b. pure b) (λ _. fail f)) t ≡ done a u
      → m t ≡ done a u
  unfolding pure fail
  relabelled-done m f t a u eq = bind-done _ _ t a u eq λ r v tried looked.
      on_result-done r _ _ v a u looked
        (λ b is_ok last. attempt-done m t u a (tried ∙ ap (λ x. done x v) is_ok ∙ same b v last))
        (λ e _ bad. absurd (cc))
    where
      same : (b : A) (v : Trace) → done b v ≡ done a u → done (ok b) v ≡ done (ok a) u
      same b v last = cc

  pub lift-done : (r : Result A) (t : Trace) (a : A) (u : Trace) → lift r t ≡ done a u → r ≡ ok a
  unfolding lift
  lift-done (ok b) t a u eq = cc
  lift-done (err e) t a u eq = absurd (cc)
