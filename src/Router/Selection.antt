-- ===== src/Router/Selection.antt =====
-- Which channels `RemRouter::send_packet` uses, in which order, and that it does nothing else.
use respir_mesh.Base.{
  ◌||◌, arith, ◌==◌, ℕ, ◌≡◌, refl, sym, ◌∙◌, Bool, true, false, List, [], ◌∷◌, ◌++◌, take,
  append-nil, append_assoc, if◌then◌else◌, Bool-cases, inl, inr,
}
use mathlib.Core.Path.{fun_ext}
use respir_mesh.Wire.Forwarding
use respir_mesh.Wire.Header.{Field, read, set_size}
use respir_mesh.Wire.Framing.{read-set_size}
use respir_mesh.Node.Env.{Env}
use respir_mesh.Node.State.{Node, Channel}
use respir_mesh.Channel.{send}
use respir_mesh.Channel.Delivery.{
  delivery, Untouched, Untouched-refl, Untouched-trans, send-Untouched, sent-send,
}
use respir_mesh.Router.Send.{
  dispatch, send_connected, send_all, is_rootward, is_neighborly, send_packet,
}

-- The specification: the forwarding types whose packets go to the channels connected to the root, those
-- whose packets go to all channels, and which of the channels a packet of a type is for.
abbrev pub towards_root : List ℕ
towards_root =
    Forwarding.to_root ∷ Forwarding.to_parent ∷ Forwarding.to_parent_to_root
    ∷ Forwarding.parent_and_back ∷ []

abbrev pub to_all : List ℕ
to_all = Forwarding.to_neighbors ∷ Forwarding.neighbor_to_root ∷ []

abbrev pub is_among : ℕ → List ℕ → Bool
is_among kind [] = false
is_among kind (k ∷ ks) = kind == k || is_among kind ks

abbrev pub selects : ℕ → Channel → Bool
selects kind c = if is_among kind towards_root then c.connected_to_root else is_among kind to_all

is_rootward_lem : (kind : ℕ) → is_among kind towards_root ≡ is_rootward kind
unfolding is_rootward
is_rootward_lem kind = ground arith

is_neighborly_lem : (kind : ℕ) → is_among kind to_all ≡ is_neighborly kind
unfolding is_neighborly
is_neighborly_lem kind = ground arith

pub selects-rootward :
    (kind : ℕ) → is_rootward kind ≡ true → selects kind ≡ (λ c. c.connected_to_root)
selects-rootward kind up = fun_ext (λ c. rw (is_rootward_lem kind, up))

pub selects-other : (kind : ℕ) → is_rootward kind ≡ false → selects kind ≡ (λ c. is_neighborly kind)
selects-other kind other = fun_ext (λ c. rw (is_rootward_lem kind, other) (is_neighborly_lem kind))

-- One delivery of the packet to each listed channel that is selected and whose class transmits, in
-- the order of the list.
abbrev pub deliveries : (Channel → Bool) → (ℕ → Channel) → List ℕ → List ℕ → List (ℕ × List ℕ)
deliveries sel objects packet [] = []
deliveries sel objects packet (p ∷ ps) =
    (if sel (objects p) then delivery (objects p).kind p packet else [])
    ++ deliveries sel objects packet ps

deliveries-none :
    (objects : ℕ → Channel) (packet : List ℕ) (ps : List ℕ)
    → deliveries (λ c. false) objects packet ps ≡ []
deliveries-none objects packet [] = refl
deliveries-none objects packet (p ∷ ps) = deliveries-none objects packet ps

-- Deliveries depend on the class of each channel and on whether it is selected, and on nothing else.
pub deliveries-ext :
    (sel : Channel → Bool) (objects others : ℕ → Channel) (packet ps : List ℕ)
    → ((q : ℕ) → sel (objects q) ≡ sel (others q))
    → ((q : ℕ) → (objects q).kind ≡ (others q).kind)
    → deliveries sel objects packet ps ≡ deliveries sel others packet ps
deliveries-ext sel objects others packet [] same kind = refl
deliveries-ext sel objects others packet (p ∷ ps) same kind =
    rw (same p, kind p, deliveries-ext sel objects others packet ps same kind)

module _ (env : Env) (buffer : List ℕ) (size : ℕ) where
  pub send_connected-Untouched :
      (ps : List ℕ) (w : Node) → Untouched w (send_connected env ps buffer size w)
  unfolding send_connected
  send_connected-Untouched [] w = Untouched-refl w
  send_connected-Untouched (p ∷ ps) w = elim (Bool-cases (w.objects p).connected_to_root) [
    | inl on ↦ rw on (
        Untouched-trans (send-Untouched env p buffer size w)
          (send_connected-Untouched ps (send env p buffer size w).1))
    | inr off ↦ rw off (send_connected-Untouched ps w)
  ]

  pub send_all-Untouched : (ps : List ℕ) (w : Node) → Untouched w (send_all env ps buffer size w)
  unfolding send_all
  send_all-Untouched [] w = Untouched-refl w
  send_all-Untouched (p ∷ ps) w =
      Untouched-trans (send-Untouched env p buffer size w)
        (send_all-Untouched ps (send env p buffer size w).1)

  sent-send_all :
      (ps : List ℕ) (w : Node)
      → (send_all env ps buffer size w).sent
        ≡ w.sent ++ deliveries (λ c. true) w.objects (take size buffer) ps
  unfolding send_all
  sent-send_all [] w = sym (append-nil w.sent)
  sent-send_all (p ∷ ps) w =
      sent-send_all ps (send env p buffer size w).1
      ∙ simp (
        sent-send env p buffer size w,
        (send-Untouched env p buffer size w).objects,
        append_assoc,
      )

  pub sent-send_connected :
      (ps : List ℕ) (w : Node)
      → (send_connected env ps buffer size w).sent
        ≡ w.sent ++ deliveries (λ c. c.connected_to_root) w.objects (take size buffer) ps
  unfolding send_connected
  sent-send_connected [] w = sym (append-nil w.sent)
  sent-send_connected (p ∷ ps) w = elim (Bool-cases (w.objects p).connected_to_root) [
    | inl on ↦
        rw (on, send_connected)
          (sent-send_connected ps (send env p buffer size w).1
            ∙ simp (
              sent-send env p buffer size w,
              (send-Untouched env p buffer size w).objects,
              append_assoc,
            ))
    | inr off ↦ rw (off, send_connected) (sent-send_connected ps w)
  ]

  abbrev Dispatched : ℕ → Node → Node → Type 0
  Dispatched kind w v =
      (v.sent ≡ w.sent ++ deliveries (selects kind) w.objects (take size buffer) w.channels)
      × Untouched w v

  dispatch-Dispatched : (kind : ℕ) (w : Node) → Dispatched kind w (dispatch env kind buffer size w)
  dispatch-Dispatched kind w = elim (Bool-cases (is_rootward kind)) [
    | inl up ↦
        rw (selects-rootward kind up, up)
          (sent-send_connected w.channels w, send_connected-Untouched w.channels w)
    | inr not_up ↦
        rw (selects-other kind not_up, not_up)
          (elim (Bool-cases (is_neighborly kind)) [
            | inl near ↦ rw near (sent-send_all w.channels w, send_all-Untouched w.channels w)
            | inr neither ↦
                rw (neither, deliveries-none w.objects (take size buffer) w.channels)
                  (sym (append-nil w.sent), Untouched-refl w)
          ])
  ]

module _ (env : Env) (buffer : List ℕ) (size : ℕ) (w : Node) where
  -- `send_packet` returns the buffer with the size in its header, hands the first `size` bytes of
  -- it, once and in the order of the channel list, to exactly the channels whose class transmits
  -- and that the forwarding type selects (those connected to the root for the four types towards the
  -- root, all for the two types for neighbours, none for any other type), and touches nothing of the
  -- node but the transports and the clients' `managed_to_send`.
  pub send_packet-deliveries :
      let r = send_packet env buffer size w in
      (r.0 ≡ set_size size buffer)
      × (r.1.sent
          ≡ w.sent
            ++ deliveries
                (selects (read Field.forwarding_type buffer))
                w.objects
                (take size (set_size size buffer))
                w.channels)
      × Untouched w r.1
  unfolding send_packet
  send_packet-deliveries =
      let kept = read-set_size Field.forwarding_type size buffer (λ e. cc) (λ e. cc) in
      let d =
        dispatch-Dispatched env (set_size size buffer) size
          (read Field.forwarding_type (set_size size buffer)) w in
      (refl, rw (← kept) d.0, d.1)
