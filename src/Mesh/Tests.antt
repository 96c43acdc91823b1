-- ===== src/Mesh/Tests.antt =====
-- A row of four nodes.
use respir_mesh.Mesh.{Hop, report_journey}
use respir_mesh.Mesh.{log_journey, read_packet}
use respir_mesh.Mesh.Lines.{log_journey_arrives, log_journey_faults}
use respir_mesh.Wire.Messages.{Severity}
use respir_mesh.Node.Env.{Encodes, Env}
use respir_mesh.Mesh.Journey.{IsHop, report_journey_names_edge}
use respir_mesh.Sample.{texts-Fits, env, env-Encodes, node}
use respir_mesh.Wire.Assembly.{packet_of}
use respir_mesh.Wire.Forwarding
use respir_mesh.Wire.Protobuf
use respir_mesh.Base.{arith, none, List, c_string, ℕ, [], ◌∷◌, some, ◌≡◌, refl, replicate}

-- The node with this id, which hears the node behind it on its second client channel.
abbrev hop : ℕ → Hop
hop id = record { env = env id; node = node; incoming = 1; uplink = 0; buffer = replicate 64 0 }

hop-IsHop : (id : ℕ) → IsHop (hop id)
hop-IsHop id = record { buffer = refl; router = refl; receives = refl; one_uplink = refl }

report_journey_names_edge_example :
    report_journey (hop 7) (hop 8 ∷ hop 9 ∷ hop 10 ∷ [])
    ≡ some
        (packet_of Forwarding.to_root Protobuf.mesh_topology (8 ∷ 7 ∷ Protobuf.mesh_topology ∷ []))
report_journey_names_edge_example =
    report_journey_names_edge (hop 7) (hop 8) (hop 9 ∷ hop 10 ∷ []) (env-Encodes 7) (env-Encodes 8)
      (λ rest. refl) (hop-IsHop 7) (hop-IsHop 8) (hop-IsHop 9, (hop-IsHop 10, tt))

log_journey_arrives_example :
    log_journey (hop 7) Severity.info "[INFO]" "up" [] (hop 8 ∷ hop 9 ∷ [])
    ≡ some (packet_of Forwarding.to_root Protobuf.log (79 ∷ 75 ∷ []))
unfolding c_string
log_journey_arrives_example =
    log_journey_arrives (hop 7) (env-Encodes 7) Severity.info "[INFO]" "up" [] (hop-IsHop 7) refl
      (texts-Fits "up" []) (hop 8 ∷ hop 9 ∷ []) (omega arith) (hop-IsHop 8, (hop-IsHop 9, tt))

-- A node whose lines have 70 characters.
abbrev wordy_env : Env
wordy_env = record (env 7) { vsnprintf = λ format args. replicate 70 65 }

wordy-Encodes : Encodes wordy_env
wordy-Encodes =
    let e = env-Encodes 7 in
    record {
      info_room = e.info_room;
      log_room = e.log_room;
      info_size = e.info_size;
      info_status = e.info_status;
      log_status = e.log_status;
    }

abbrev wordy_hop : Hop
wordy_hop = record (hop 7) { env = wordy_env }

abbrev wordy_packet : List ℕ
wordy_packet = packet_of Forwarding.to_root Protobuf.log (replicate 70 65)

log_journey_faults_example :
    (read_packet (hop 8) wordy_packet ≡ none)
    × (log_journey wordy_hop Severity.info "[INFO]" "up" [] (hop 8 ∷ []) ≡ none)
unfolding c_string
log_journey_faults_example =
    log_journey_faults wordy_hop wordy-Encodes Severity.info "[INFO]" "up" []
      (record { buffer = refl; router = refl; receives = refl; one_uplink = refl }) refl
      (record { deep = omega arith; short = omega arith }) (hop 8) [] (omega arith)
