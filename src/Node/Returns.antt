-- ===== src/Node/Returns.antt =====
-- What holds of the result of code that may crash, if it returns one.
use respir_mesh.Node.State.{Node}
use respir_mesh.Node.Fault.{◌>>=◌, ◌>>◌, M}
use mathlib.Core.Path.{subst}
use respir_mesh.Base.{◌≡◌, inr, inl, some, Option-cases, none, Option}

module _ {A : Type 0} where
  abbrev pub Holds : (A → Type 0) → Option (A × Node) → Type 0
  Holds Q none = Unit {0}
  Holds Q (some r) = Q r.0

  -- Whatever the code returns, in whatever state it starts, satisfies the predicate.
  abbrev pub Returns : (A → Type 0) → M A → Type 0
  Returns Q m = (w : Node) → Holds Q (m w)

module _ {A B : Type 0} (P : A → Type 0) (Q : B → Type 0) (m : M A) (f : A → M B) where
  pub Returns->>= : Returns P m → ((a : A) → P a → Returns Q (f a)) → Returns Q (m >>= f)
  Returns->>= first next w = elim (Option-cases (m w)) [
    | inl crashed ↦ rw (crashed, ◌>>=◌) tt
    | inr (r, ran) ↦ rw (ran, ◌>>=◌) (next r.0 (subst (Holds P) ran (first w)) r.1)
  ]

pub Returns->> :
    {A B : Type 0} (Q : B → Type 0) (m : M A) (k : M B) → Returns Q k → Returns Q (m >> k)
Returns->> Q m k next w = elim (Option-cases (m w)) [
  | inl crashed ↦ rw (crashed, ◌>>=◌) tt
  | inr (r, ran) ↦ rw (ran, ◌>>=◌) (next r.1)
]

pub Returns-any : {A : Type 0} (m : M A) → Returns (λ _. Unit {0}) m
Returns-any m w = elim (Option-cases (m w)) [
  | inl crashed ↦ rw crashed tt
  | inr (r, ran) ↦ rw ran tt
]

-- The predicate holds of what a run has returned.
pub Returns-ran :
    {A : Type 0} (Q : A → Type 0) (m : M A) (w : Node) {a : A} {v : Node}
    → Returns Q m
    → m w ≡ some (a, v)
    → Q a
Returns-ran Q m w h e = subst (Holds Q) e (h w)
