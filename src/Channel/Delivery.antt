-- ===== src/Channel/Delivery.antt =====
-- What one `send` does to the node, and what it leaves alone.
use respir_mesh.Base.{
  ◌∙◌, ℕ, ◌≡◌, refl, List, [], ◌∷◌, ◌++◌, arith, take, append-nil, if◌then◌else◌,
}
use respir_mesh.Node.Env.{Env}
use respir_mesh.Node.State.{Node, ChannelKind}
use respir_mesh.Channel.{send, transmits}

-- The part of the node that sending packets does not touch.
pub record Untouched (w v : Node) : Type 0 where
  pub objects : v.objects ≡ w.objects
  pub fresh : v.fresh ≡ w.fresh
  pub client_ids : v.client_ids ≡ w.client_ids
  pub server_ids : v.server_ids ≡ w.server_ids
  pub channels : v.channels ≡ w.channels
  pub router_buffer : v.router_buffer ≡ w.router_buffer
  pub mesh_topo_looper : v.mesh_topo_looper ≡ w.mesh_topo_looper
  pub log_buffer : v.log_buffer ≡ w.log_buffer
  pub log_packet : v.log_packet ≡ w.log_packet
  pub reads : v.reads ≡ w.reads

pub Untouched-refl : (w : Node) → Untouched w w
Untouched-refl w = record {
  objects = refl;
  fresh = refl;
  client_ids = refl;
  server_ids = refl;
  channels = refl;
  router_buffer = refl;
  mesh_topo_looper = refl;
  log_buffer = refl;
  log_packet = refl;
  reads = refl;
}

pub Untouched-trans : {u v w : Node} → Untouched u v → Untouched v w → Untouched u w
Untouched-trans a b = record {
  objects = b.objects ∙ a.objects;
  fresh = b.fresh ∙ a.fresh;
  client_ids = b.client_ids ∙ a.client_ids;
  server_ids = b.server_ids ∙ a.server_ids;
  channels = b.channels ∙ a.channels;
  router_buffer = b.router_buffer ∙ a.router_buffer;
  mesh_topo_looper = b.mesh_topo_looper ∙ a.mesh_topo_looper;
  log_buffer = b.log_buffer ∙ a.log_buffer;
  log_packet = b.log_packet ∙ a.log_packet;
  reads = b.reads ∙ a.reads;
}

abbrev pub delivery : ChannelKind → ℕ → List ℕ → List (ℕ × List ℕ)
delivery kind p packet = if transmits kind then (p, packet) ∷ [] else []

module _ (env : Env) where
  pub send-Untouched :
      (p : ℕ) (buffer : List ℕ) (size : ℕ) (w : Node) → Untouched w (send env p buffer size w).1
  unfolding send
  send-Untouched p buffer size w = ground arith

  -- One `send` hands the first `size` bytes over if the class of the channel transmits, else none.
  pub sent-send :
      (p : ℕ) (buffer : List ℕ) (size : ℕ) (w : Node)
      → (send env p buffer size w).1.sent
        ≡ w.sent ++ delivery (w.objects p).kind p (take size buffer)
  unfolding send
  sent-send p buffer size w = ground (arith, append-nil w.sent)
