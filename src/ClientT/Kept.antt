-- ===== src/ClientT/Kept.antt =====
-- What a call of RemClientCPP/client_t/client_t.cpp leaves as it is.
use respir_mesh.ClientT.{ClientT, TcpLibrary, recv_round, send_client, send_each, stop_client}
use respir_mesh.Base.{
  All, ℕ, List, [], ◌∷◌, Option, none, some, ltb, length, ◌≡◌, refl, inl, inr, Bool-cases,
}

module _ (lib : TcpLibrary) (bytes : List ℕ) (size : ℕ) where
  pub send_each-keeps :
      (ps : List ℕ) (t : ClientT)
      → let v = (send_each lib bytes size ps t).1 in
        (v.objects ≡ t.objects)
        × (v.fresh ≡ t.fresh)
        × (v.server_has_receiver ≡ t.server_has_receiver)
  unfolding send_each
  send_each-keeps [] t = (refl, refl, refl)
  send_each-keeps (p ∷ ps) t =
      let (ok, u) = send_client lib p bytes size t in
      elim (Bool-cases ok) [
        | inl fine ↦ rw fine (send_each-keeps ps u)
        | inr broken ↦ rw broken (send_each-keeps ps (stop_client p u))
      ]

  pub send_each-All :
      (P : ℕ → Type 0) (ps : List ℕ) (t : ClientT)
      → All P ps
      → All P (send_each lib bytes size ps t).0
  unfolding send_each
  send_each-All P [] t h = tt
  send_each-All P (p ∷ ps) t (first, others) =
      let (ok, u) = send_client lib p bytes size t in
      elim (Bool-cases ok) [
        | inl fine ↦ rw fine (first, send_each-All P ps u others)
        | inr broken ↦ rw broken (send_each-All P ps (stop_client p u) others)
      ]

-- A round of a reading thread, if it goes on, changes nothing but the calls.
abbrev pub Keeps : ClientT → Option ClientT → Type 0
Keeps t none = Unit
Keeps t (some u) =
    (u.objects ≡ t.objects)
    × (u.fresh ≡ t.fresh)
    × (u.channels ≡ t.channels)
    × (u.server_has_receiver ≡ t.server_has_receiver)

pub recv_round-Keeps : (p : ℕ) (msg : List ℕ) (t : ClientT) → Keeps t (recv_round p msg t)
unfolding recv_round
recv_round-Keeps p msg t = elim (Bool-cases (ltb 0 (length msg))) [
  | inl long ↦ elim (Bool-cases (t.objects p).has_receiver) [
    | inl hears ↦ rw (long, hears) (refl, refl, refl, refl)
    | inr deaf ↦ rw (long, deaf) tt
  ]
  | inr short ↦ rw short (refl, refl, refl, refl)
]
