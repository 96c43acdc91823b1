-- ===== src/Node/Fault.antt =====
-- Code that can crash: a computation over the state of the node whose `none` is undefined
-- behaviour (a write out of bounds, a pointer that was never set, an invalid iterator), an
-- exhausted stack, an exit of the process, or a loop that never ends.
use respir_mesh.Base.{inr, inl, Option-cases, ◌≡◌, Option, none, some}
use respir_mesh.Node.State.{Node}

abbrev pub M : Type 0 → Type 0
M A = Node → Option (A × Node)

abbrev pub pure : {A : Type 0} → A → M A
pure a w = some (a, w)

abbrev pub fault : {A : Type 0} → M A
fault w = none

infixl 5 ◌>>=◌ ◌>>◌
abbrev pub ◌>>=◌ : {A B : Type 0} → M A → (A → M B) → M B
◌>>=◌ m f w = elim (m w) [ none ↦ none | some (a, w') ↦ f a w' ]

abbrev pub ◌>>◌ : {A B : Type 0} → M A → M B → M B
m >> k = m >>= λ _. k

abbrev pub gets : {A : Type 0} → (Node → A) → M A
gets f w = some (f w, w)

abbrev pub modify : (Node → Node) → M (Unit {0})
modify f w = some (tt, f w)

-- Code that cannot crash.
abbrev pub total : {A : Type 0} → (Node → A × Node) → M A
total f w = some (f w)

-- A first part that returns hands its value and state to the second.
pub >>=-runs :
    {A B : Type 0} (m : M A) (f : A → M B) (w : Node) {a : A} {v : Node}
    → m w ≡ some (a, v)
    → (m >>= f) w ≡ f a v
>>=-runs m f w e = rw (e, ◌>>=◌)

pub >>-runs :
    {A B : Type 0} (m : M A) (k : M B) (w : Node) {a : A} {v : Node}
    → m w ≡ some (a, v)
    → (m >> k) w ≡ k v
>>-runs m k w e = rw (e, ◌>>=◌)

-- A first part that crashes is all that runs.
pub >>=-faults : {A B : Type 0} (m : M A) (f : A → M B) (w : Node) → m w ≡ none → (m >>= f) w ≡ none
>>=-faults m f w e = rw (e, ◌>>=◌)

-- A second part that always crashes makes the whole crash.
pub >>-none :
    {A B : Type 0} (m : M A) (k : M B) (w : Node) → ((u : Node) → k u ≡ none) → (m >> k) w ≡ none
>>-none m k w h = elim (Option-cases (m w)) [
  | inl e ↦ rw (e, ◌>>=◌)
  | inr (r, e) ↦ rw (e, ◌>>=◌) (h r.1)
]
