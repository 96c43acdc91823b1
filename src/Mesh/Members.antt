-- ===== src/Mesh/Members.antt =====
-- Which packets are on their way after a node has handed them to its channels.
use mathlib.Core.List.{Memᴰ}
use respir_mesh.Channel.{transmits}
use respir_mesh.Node.State.{Channel}
use respir_mesh.Mesh.Network.{arriving, inside, leaving, outside}
use respir_mesh.Router.Selection.{deliveries}
use respir_mesh.Base.{Memᴰ-append, ℕ, ◌≡◌, refl, true, List, [], ◌∷◌, Option, none, some, sym, ap}

pub deliveries-Memᴰ :
    (objects : ℕ → Channel) (packet ps : List ℕ) (p : ℕ)
    → Memᴰ p ps
    → (objects p).connected_to_root ≡ true
    → transmits (objects p).kind ≡ true
    → Memᴰ (p, packet) (deliveries (λ c. c.connected_to_root) objects packet ps)
deliveries-Memᴰ objects packet [] p m up carries = elim m [ ]
deliveries-Memᴰ objects packet (q ∷ ps) p (Memᴰ.head e) up carries =
    rw (sym e, up, carries) (Memᴰ.head refl)
deliveries-Memᴰ objects packet (q ∷ ps) p (Memᴰ.tail m) up carries =
    Memᴰ-append _ _ (p, packet) (deliveries-Memᴰ objects packet ps p m up carries)

module _ (wire : ℕ → Option ℕ) (p : ℕ) (packet : List ℕ) where
  pub inside-Memᴰ :
      (t : ℕ) (handed : List (ℕ × List ℕ))
      → wire p ≡ some t
      → Memᴰ (p, packet) handed
      → Memᴰ (t, packet) (inside wire handed)
  inside-Memᴰ t [] there m = elim m [ ]
  inside-Memᴰ t ((q, b) ∷ rest) there (Memᴰ.head e) =
      let at_p : q ≡ p = sym (ap (λ d. d.0) e) in
      let whole : b ≡ packet = sym (ap (λ d. d.1) e) in rw (at_p, whole, there) (Memᴰ.head refl)
  inside-Memᴰ t ((q, b) ∷ rest) there (Memᴰ.tail m) =
      Memᴰ-append (arriving (wire q) b) _ (t, packet) (inside-Memᴰ t rest there m)

  pub outside-Memᴰ :
      (handed : List (ℕ × List ℕ))
      → wire p ≡ none
      → Memᴰ (p, packet) handed
      → Memᴰ packet (outside wire handed)
  outside-Memᴰ [] there m = elim m [ ]
  outside-Memᴰ ((q, b) ∷ rest) there (Memᴰ.head e) =
      let at_p : q ≡ p = sym (ap (λ d. d.0) e) in
      let whole : b ≡ packet = sym (ap (λ d. d.1) e) in rw (at_p, whole, there) (Memᴰ.head refl)
  outside-Memᴰ ((q, b) ∷ rest) there (Memᴰ.tail m) =
      Memᴰ-append (leaving (wire q) b) _ packet (outside-Memᴰ rest there m)
