-- ===== src/Mesh/Network.antt =====
-- A network of Linux nodes: each node sends its own report when its timer is due, logs lines of any
-- kind, and answers what arrives on its channels. A packet in flight arrives at any time and in any
-- order, whole and alone in one read, or is lost.
use Prim.Native.String.{String}
use respir_mesh.Logger.{LogReturn, logger}
use respir_mesh.Wire.Messages.{Severity}
use respir_mesh.Node.Env.{Arg, Env}
use respir_mesh.Node.State.{Node}
use respir_mesh.Router.Topo.{update}
use respir_mesh.X86.Client.{Received, receive_buffer_size, receive_step}
use respir_mesh.Base.{
  ℕ, List, [], ◌∷◌, ◌++◌, Option, none, some, ◌==◌, if◌then◌else◌, drop, length, take, ◌≡◌,
}

-- The nodes by number, and the node at the other end of each channel of a node. What has no node there
-- leads out of the network, to the server.
pub record World : Type 0 where
  pub env : ℕ → Env
  pub wire : ℕ → ℕ → Option ℕ

-- The memories of the nodes, the packets in flight with the nodes they go to, and what has left for the
-- server.
pub record Net : Type 0 where
  pub nodes : ℕ → Node
  pub flying : List (ℕ × List ℕ)
  pub out : List (List ℕ)

abbrev pub arriving : Option ℕ → List ℕ → List (ℕ × List ℕ)
arriving none packet = []
arriving (some t) packet = (t, packet) ∷ []

abbrev pub leaving : Option ℕ → List ℕ → List (List ℕ)
leaving none packet = packet ∷ []
leaving (some t) packet = []

-- Where the packets go that a node has handed to its channels.
abbrev pub inside : (ℕ → Option ℕ) → List (ℕ × List ℕ) → List (ℕ × List ℕ)
inside wire [] = []
inside wire ((p, packet) ∷ rest) = arriving (wire p) packet ++ inside wire rest

abbrev pub outside : (ℕ → Option ℕ) → List (ℕ × List ℕ) → List (List ℕ)
outside wire [] = []
outside wire ((p, packet) ∷ rest) = leaving (wire p) packet ++ outside wire rest

module _ (world : World) where
  -- A node has run, and what it has handed to its channels since is on its way.
  unfoldable pub after : ℕ → Node → Net → Net
  after i v n =
      let handed = drop (length (n.nodes i).sent) v.sent in
      record {
        nodes = λ j. if i == j then v else n.nodes j;
        flying = n.flying ++ inside (world.wire i) handed;
        out = n.out ++ outside (world.wire i) handed;
      }

  pub data Step : Net → Net → Type 0 where
    updates : (i : ℕ) (n : Net) → Step n (after i (update (world.env i) (n.nodes i)) n)
    arrives :
        (i p : ℕ) (buffer packet : List ℕ) (before behind : List (ℕ × List ℕ))
        {left : Option (List ℕ)} {v : Node} (n : Net)
        → n.flying ≡ before ++ (i, packet) ∷ behind
        → length buffer ≡ receive_buffer_size
        → receive_step
            (world.env i)
            p
            (Received.chunk (take receive_buffer_size packet))
            buffer
            (n.nodes i)
          ≡ some (left, v)
        → Step n (after i v (record n { flying = before ++ behind }))
    logs :
        (i : ℕ) (severity : Severity) (tags format : String) (args : List Arg) {result : LogReturn}
        {v : Node} (n : Net)
        → logger (world.env i) (world.env i).log_depth severity tags format args (n.nodes i)
          ≡ some (result, v)
        → Step n (after i v n)
    loses :
        (lost : ℕ × List ℕ) (before behind : List (ℕ × List ℕ)) (n : Net)
        → n.flying ≡ before ++ lost ∷ behind
        → Step n (record n { flying = before ++ behind })

  -- Any number of steps, and what a network without packets leads to.
  pub data Later (n : Net) : Net → Type 0 where
    stays : Later n n
    goes : {m l : Net} → Later n m → Step m l → Later n l

  abbrev pub Reachable : (ℕ → Node) → Net → Type 0
  Reachable start = Later (record { nodes = start; flying = []; out = [] })
