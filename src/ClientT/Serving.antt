-- ===== src/ClientT/Serving.antt =====
-- What the server channel sends, and to whom.
use respir_mesh.ClientT.{
  Call, ClientT, TcpLibrary, init_socket, push_client, send_client, send_each, send_server,
  stop_client,
}
use mathlib.Core.Bool.{true≢false}
use respir_mesh.Base.{
  All, append-nil, sym, ℕ, Bool, false, List, [], ◌∷◌, ◌++◌, none, some, ==_refl, if◌then◌else◌,
  take, ◌≡◌, ◌≢◌, refl, ◌∙◌, ap, append_assoc, inl, inr, Bool-cases,
}

-- Those of a list that pass a test, in its order.
abbrev pub those : (ℕ → Bool) → List ℕ → List ℕ
those works [] = []
those works (p ∷ ps) = if works p then p ∷ those works ps else those works ps

-- One attempt for each channel, and a closed connection for each that fails.
abbrev pub attempts : (ℕ → Bool) → List ℕ → List ℕ → List Call
attempts works bytes [] = []
attempts works bytes (p ∷ ps) =
    if works p
    then Call.sent p bytes ∷ attempts works bytes ps
    else Call.sent p bytes ∷ Call.exited p ∷ attempts works bytes ps

module _ (lib : TcpLibrary) (works : ℕ → Bool) (bytes : List ℕ) (size : ℕ) where
  send_each_lem :
      (ps : List ℕ) (t : ClientT)
      → ((n p : ℕ) → lib.send_ok n (t.objects p).socket ≡ works p)
      → let (left, v) = send_each lib bytes size ps t in
        (left ≡ those works ps)
        × (v.calls ≡ t.calls ++ attempts works (take size bytes) ps)
        × (v.objects ≡ t.objects)
  unfolding send_each
  send_each_lem [] t answers = (refl, sym (append-nil t.calls), refl)
  send_each_lem (p ∷ ps) t answers =
      let u = (send_client lib p bytes size t).1 in
      elim (Bool-cases (works p)) [
        | inl fine ↦
            let (left, calls, objects) = send_each_lem ps u answers in
            rw (answers t.sends p, fine)
              (
                ap (◌∷◌ p) left,
                calls ∙ append_assoc t.calls (Call.sent p (take size bytes) ∷ []) _,
                objects,
              )
        | inr broken ↦
            let (left, calls, objects) = send_each_lem ps (stop_client p u) answers in
            rw (answers t.sends p, broken)
              (
                left,
                calls
                    ∙ append_assoc (t.calls ++ Call.sent p (take size bytes) ∷ [])
                        (Call.exited p ∷ []) _
                    ∙ append_assoc t.calls (Call.sent p (take size bytes) ∷ []) _,
                objects,
              )
      ]

  -- If each client always gives the same answer, `send` of the server channel tries each client of the
  -- list once, in the order of the list, closes those that fail and leaves exactly the others in the
  -- list, in their order.
  pub send_server-those :
      (t : ClientT)
      → ((n p : ℕ) → lib.send_ok n (t.objects p).socket ≡ works p)
      → let v = (send_server lib bytes size t).1 in
        (v.channels ≡ those works t.channels)
        × (v.calls ≡ t.calls ++ attempts works (take size bytes) t.channels)
        × (v.objects ≡ t.objects)
  unfolding send_server
  send_server-those t answers = send_each_lem t.channels t answers

module _ (lib : TcpLibrary) (unconnected : (n : ℕ) → lib.send_ok n none ≡ false) (bytes : List ℕ)
    (size : ℕ) (p : ℕ) where
  drops :
      (ps : List ℕ) (t : ClientT)
      → (t.objects p).socket ≡ none
      → All (λ q. q ≢ p) (send_each lib bytes size ps t).0
        × ((send_each lib bytes size ps t).1.objects ≡ t.objects)
  unfolding send_each
  drops [] t fresh = (tt, refl)
  drops (q ∷ qs) t fresh =
      let u = (send_client lib q bytes size t).1 in
      elim (Bool-cases (lib.send_ok t.sends (t.objects q).socket)) [
        | inl fine ↦
            let (left, objects) = drops qs u fresh in
            rw fine (
              (
                λ e. true≢false (
                    sym fine
                    ∙ ap (λ r. lib.send_ok t.sends (t.objects r).socket) e
                    ∙ ap (lib.send_ok t.sends) fresh
                    ∙ unconnected t.sends),
                left,
              ),
              objects,
            )
        | inr broken ↦
            let (left, objects) = drops qs (stop_client q u) fresh in rw broken (left, objects)
      ]

-- If `Send` fails without a socket, then a client that gets a connection after the server channel has
-- sent something while it waited for that connection has its socket, but is not in the list any more.
pub accepted_unlisted :
    (lib : TcpLibrary) (bytes : List ℕ) (size socket : ℕ) (t : ClientT)
    → ((n : ℕ) → lib.send_ok n none ≡ false)
    → let v = init_socket t.fresh (some socket) (send_server lib bytes size (push_client t)).1 in
      ((v.objects t.fresh).socket ≡ some socket) × All (λ q. q ≢ t.fresh) v.channels
unfolding init_socket send_server push_client
accepted_unlisted lib bytes size socket t unconnected = (
  rw (==_refl t.fresh) refl,
  (drops lib unconnected bytes size t.fresh (t.channels ++ t.fresh ∷ []) (push_client t)
      (rw (==_refl t.fresh) refl)).0,
)
