-- ===== src/System/Returns.antt =====
-- Code that returns, with what then holds of the value and of the calls: the rules go forward, through
-- the parts of the code in their order.
use dfs_csi.Prelude.{◌≡◌, refl, ◌∙◌, ap, Bool, true, false, Option, none, some}
use dfs_csi.System.{Trace, Failure, ok}
use dfs_csi.System.Io.{Io, done, pure, attempt, branch, on_result, on_option, and_then, ◌>>=◌, ◌>>◌}

pub record Returns {ℓ κ} {A : Type κ} (m : Io A) (t : Trace) (q : A → Trace → Type ℓ)
    : Type (ℓ ⊔ κ) where
  pub value : A
  pub after : Trace
  pub ends : m t ≡ done value after
  pub holds : q value after

module _ {ℓ κ} {A : Type κ} {q : A → Trace → Type ℓ} where
  pub Returns-pure : (a : A) (t : Trace) → q a t → Returns (pure a) t q
  unfolding pure
  Returns-pure a t h = record { value = a; after = t; ends = refl; holds = h }

  pub Returns-true :
      (b : Bool) (m n : Io A) (t : Trace) → b ≡ true → Returns m t q → Returns (branch b m n) t q
  unfolding branch
  Returns-true true m n t e r = r
  Returns-true false m n t e r = absurd (cc)

  pub Returns-false :
      (b : Bool) (m n : Io A) (t : Trace) → b ≡ false → Returns n t q → Returns (branch b m n) t q
  unfolding branch
  Returns-false true m n t e r = absurd (cc)
  Returns-false false m n t e r = r

module _ {ℓ μ κ} {A : Type κ} {p : A → Trace → Type μ} {q : A → Trace → Type ℓ} where
  pub Returns-weaken :
      (m : Io A) (t : Trace) → Returns m t p → ((a : A) (u : Trace) → p a u → q a u) → Returns m t q
  Returns-weaken m t r k = record {
    value = r.value;
    after = r.after;
    ends = r.ends;
    holds = k r.value r.after r.holds;
  }

module _ {ℓ ι κ} {A : Type ι} {B : Type κ} {q : B → Trace → Type ℓ} where
  pub Returns-same :
      (m : Io A) (f : A → Io B) (t u : Trace) (a : A)
      → m t ≡ done a u
      → Returns (f a) u q
      → Returns (m >>= f) t q
  unfolding ◌>>=◌
  Returns-same m f t u a e r = record {
    value = r.value;
    after = r.after;
    ends = ap (λ o. and_then o f) e ∙ r.ends;
    holds = r.holds;
  }

  pub Returns-option :
      (o : Option A) (n : Io B) (f : A → Io B) (t : Trace)
      → (o ≡ none → Returns n t q)
      → ((a : A) → o ≡ some a → Returns (f a) t q)
      → Returns (on_option o n f) t q
  unfolding on_option
  Returns-option none n f t rn rf = rn refl
  Returns-option (some a) n f t rn rf = rf a refl

module _ {ι} {A : Type ι} where
  tried-done : (m : Io A) (t u : Trace) (a : A) → m t ≡ done a u → attempt m t ≡ done (ok a) u
  unfolding attempt
  tried-done m t u a e = rw (e, attempt) refl

module _ {ℓ μ ι κ} {A : Type ι} {B : Type κ} {p : A → Trace → Type μ} {q : B → Trace → Type ℓ} where
  pub Returns-bind :
      (m : Io A) (f : A → Io B) (t : Trace)
      → Returns m t p
      → ((a : A) (u : Trace) → p a u → Returns (f a) u q)
      → Returns (m >>= f) t q
  Returns-bind m f t r k = Returns-same m f t r.after r.value r.ends (k r.value r.after r.holds)

  pub Returns-then :
      (m : Io A) (n : Io B) (t : Trace)
      → Returns m t p
      → ((a : A) (u : Trace) → p a u → Returns n u q)
      → Returns (m >> n) t q
  unfolding ◌>>◌
  Returns-then m n t r k = Returns-bind m (λ _. n) t r k

  -- A call whose failure the code looks at, and which does not fail.
  pub Returns-tried :
      (m : Io A) (f : A → Io B) (g : Failure → Io B) (t : Trace)
      → Returns m t p
      → ((a : A) (u : Trace) → p a u → Returns (f a) u q)
      → Returns (attempt m >>= λ r. on_result r f g) t q
  unfolding on_result
  Returns-tried m f g t r k =
      Returns-same (attempt m) _ t r.after (ok r.value) (tried-done m t r.after r.value r.ends)
        (k r.value r.after r.holds)
