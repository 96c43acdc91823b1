-- ===== src/Router/Send.antt =====
-- `RemRouter::send_packet`: a packet goes out on the channels that its forwarding type selects.
use respir_mesh.Base.{ℕ, Bool, List, [], ◌∷◌, ◌==◌, ◌||◌, if◌then◌else◌}
use respir_mesh.Wire.Forwarding
use respir_mesh.Wire.Header.{Field, read, set_size}
use respir_mesh.Node.Env.{Env}
use respir_mesh.Node.State.{Node}
use respir_mesh.Channel.{send}

module _ (env : Env) where
  -- The loop over the channels whose `connected_to_root` is set.
  unfoldable pub send_connected : List ℕ → List ℕ → ℕ → Node → Node
  send_connected [] buffer size w = w
  send_connected (p ∷ ps) buffer size w =
      send_connected ps buffer size
        (if (w.objects p).connected_to_root then (send env p buffer size w).1 else w)

  -- The loop over all channels.
  unfoldable pub send_all : List ℕ → List ℕ → ℕ → Node → Node
  send_all [] buffer size w = w
  send_all (p ∷ ps) buffer size w = send_all ps buffer size (send env p buffer size w).1

-- The labels of the two groups of cases.
unfoldable pub is_rootward : ℕ → Bool
is_rootward kind =
    kind == Forwarding.parent_and_back
    || kind == Forwarding.to_parent
    || kind == Forwarding.to_parent_to_root
    || kind == Forwarding.to_root

unfoldable pub is_neighborly : ℕ → Bool
is_neighborly kind = kind == Forwarding.to_neighbors || kind == Forwarding.neighbor_to_root

module _ (env : Env) where
  abbrev pub dispatch : ℕ → List ℕ → ℕ → Node → Node
  dispatch kind buffer size w =
      if is_rootward kind
      then send_connected env w.channels buffer size w
      else if is_neighborly kind
      then send_all env w.channels buffer size w
      else w

  -- The buffer belongs to the caller, who gets it back with the size in its header.
  unfoldable pub send_packet : List ℕ → ℕ → Node → List ℕ × Node
  send_packet buffer size w =
      let stamped = set_size size buffer in
      (stamped, dispatch (read Field.forwarding_type stamped) stamped size w)
