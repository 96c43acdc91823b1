-- ===== src/Linux/Wired.antt =====
-- What holds of the memory of a Linux node between two operations, and what most operations keep.
use respir_mesh.Node.State.{Node}
use respir_mesh.Node.Fault.{M, ◌>>=◌}
use respir_mesh.Base.{
  All, All-map, ℕ, ◌≤◌, ◌<◌, List, [], ◌∷◌, Bool, true, false, Option, none, some, if◌then◌else◌,
  ◌≡◌, ◌≢◌, refl, ◌∙◌, sym, arith, length, inl, inr, Option-cases,
}
use mathlib.Core.Path.{subst}

-- A listed channel: an object that exists, and that hands on what it receives.
abbrev pub IsListed : Node → ℕ → Type 0
IsListed w p = (p < w.fresh) × ((w.objects p).has_receiver ≡ true)

abbrev pub Distinct : List ℕ → Type 0
Distinct [] = Unit {0}
Distinct (p ∷ ps) = All (λ q. q ≢ p) ps × Distinct ps

pub record Wired (w : Node) : Type 0 where
  pub listed : All (IsListed w) w.channels
  pub distinct : Distinct w.channels
  pub router : length w.router_buffer ≡ 64
  pub logs : length w.log_packet ≡ 600

-- Code that leaves the list alone, takes no receiver away and keeps the sizes of the buffers.
pub record Steady (w v : Node) : Type 0 where
  pub fresh : w.fresh ≤ v.fresh
  pub channels : v.channels ≡ w.channels
  pub receivers :
      (p : ℕ) → p < w.fresh → (w.objects p).has_receiver ≡ true → (v.objects p).has_receiver ≡ true
  pub router : length v.router_buffer ≡ length w.router_buffer
  pub logs : length v.log_packet ≡ length w.log_packet

pub Steady-refl : (w : Node) → Steady w w
Steady-refl w = record {
  fresh = omega arith;
  channels = refl;
  receivers = λ p old h. h;
  router = refl;
  logs = refl;
}

pub Steady-trans : {u v w : Node} → Steady u v → Steady v w → Steady u w
Steady-trans a b = record {
  fresh = omega (arith, a.fresh, b.fresh);
  channels = b.channels ∙ a.channels;
  receivers = λ p old h. b.receivers p (omega (arith, a.fresh)) (a.receivers p old h);
  router = b.router ∙ a.router;
  logs = b.logs ∙ a.logs;
}

pub Steady-Wired : {w v : Node} → Steady w v → Wired w → Wired v
Steady-Wired {w} {v} s h = record {
  listed = subst (All (IsListed v)) (sym s.channels) (
      All-map w.channels (λ p (old, receives). (omega (arith, s.fresh), s.receivers p old receives))
        h.listed);
  distinct = subst Distinct (sym s.channels) h.distinct;
  router = s.router ∙ h.router;
  logs = s.logs ∙ h.logs;
}

-- An object that exists and is not in the list yet.
pub record IsNew (p : ℕ) (w : Node) : Type 0 where
  pub wired : Wired w
  pub exists : p < w.fresh
  pub unlisted : All (λ q. q ≢ p) w.channels

pub Steady-IsNew : {w v : Node} (p : ℕ) → Steady w v → IsNew p w → IsNew p v
Steady-IsNew p s h = record {
  wired = Steady-Wired s h.wired;
  exists = omega (arith, s.fresh, h.exists);
  unlisted = subst (All (λ q. q ≢ p)) (sym s.channels) h.unlisted;
}

module _ {A : Type 0} where
  abbrev pub After : (Node → Type 0) → Option (A × Node) → Type 0
  After Q none = Unit {0}
  After Q (some r) = Q r.1

  -- In a state with the first property, the code returns only in states with the second.
  abbrev pub Leads : (Node → Type 0) → (Node → Type 0) → M A → Type 0
  Leads P Q m = (w : Node) → P w → After Q (m w)

  pub After-ran :
      (Q : Node → Type 0) (o : Option (A × Node)) {a : A} {v : Node}
      → After Q o
      → o ≡ some (a, v)
      → Q v
  After-ran Q o h e = subst (After Q) e h

  -- Code that is steady in every state.
  abbrev pub IsSteady : M A → Type 0
  IsSteady m = (u : Node) → Leads (Steady u) (Steady u) m

  pub steadily : (m : M A) → ((w : Node) → After (Steady w) (m w)) → IsSteady m
  steadily m step u w s = elim (Option-cases (m w)) [
    | inl crashed ↦ rw crashed tt
    | inr (r, ran) ↦ rw ran (Steady-trans s (After-ran (Steady w) (m w) (step w) ran))
  ]

  pub IsSteady-Leads :
      (P : Node → Type 0) (m : M A)
      → ((w v : Node) → Steady w v → P w → P v)
      → IsSteady m
      → Leads P P m
  IsSteady-Leads P m keeps steady w h = elim (Option-cases (m w)) [
    | inl crashed ↦ rw crashed tt
    | inr (r, ran) ↦
        rw ran (keeps w r.1 (After-ran (Steady w) (m w) (steady w w (Steady-refl w)) ran) h)
  ]

  pub if-Leads :
      (P Q : Node → Type 0) (b : Bool) (m k : M A)
      → Leads P Q m
      → Leads P Q k
      → Leads P Q (if b then m else k)
  if-Leads P Q true m k h j = h
  if-Leads P Q false m k h j = j

module _ {A B : Type 0} where
  pub Leads->>= :
      (P Q R : Node → Type 0) (m : M A) (f : A → M B)
      → Leads P Q m
      → ((a : A) → Leads Q R (f a))
      → Leads P R (m >>= f)
  Leads->>= P Q R m f first next w h = elim (Option-cases (m w)) [
    | inl crashed ↦ rw (crashed, ◌>>=◌) tt
    | inr (r, ran) ↦ rw (ran, ◌>>=◌) (next r.0 r.1 (After-ran Q (m w) (first w h) ran))
  ]

  pub IsSteady->>= :
      (m : M A) (f : A → M B) → IsSteady m → ((a : A) → IsSteady (f a)) → IsSteady (m >>= f)
  IsSteady->>= m f first next u =
      Leads->>= (Steady u) (Steady u) (Steady u) m f (first u) (λ a. next a u)
