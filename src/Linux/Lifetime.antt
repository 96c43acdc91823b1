-- ===== src/Linux/Lifetime.antt =====
-- The whole life of a Linux node.
use respir_mesh.Router.Topo.{route_packet}
use respir_mesh.Linux.{Program, memory, new, round, start}
use respir_mesh.Linux.Wired.{After-ran, Distinct, IsListed, IsSteady-Leads, Steady-Wired, Wired}
use respir_mesh.Linux.Receiving.{receive_step-Steady}
use respir_mesh.Linux.Rounds.{accept_step-Leads, round-Leads, start-Leads}
use respir_mesh.Node.Env.{Env}
use respir_mesh.Node.State.{Node}
use respir_mesh.X86.Client.{receive_buffer_size, Received, receive_step}
use respir_mesh.X86.Receive.{is_cut_report, receive_step-read}
use respir_mesh.X86.Server.{Accepted, accept_step}
use mathlib.Core.List.{Memᴰ}
use respir_mesh.Base.{
  none, if◌then◌else◌, All, All-Memᴰ, overlay, set, ◌<◌, ℕ, List, Bool, Option, some, ◌≡◌, refl,
  length,
}

-- The globals of `main` and the memory of the node after its beginning, and after any number of
-- rounds of its loop, of the reading threads and of the accepting thread that return, in any order.
pub data Reachable (env : Env) : Program → Node → Type 0 where
  started :
      (arguments : List (List ℕ)) {program : Program} {w : Node}
      → start env arguments new memory ≡ some (program, w)
      → Reachable env program w
  rounded :
      {before program : Program} {w v : Node}
      → Reachable env before w
      → round env before w ≡ some (program, v)
      → Reachable env program v
  read :
      (p : ℕ) (r : Received) (buffer : List ℕ) {left : Option (List ℕ)} {program : Program}
      {w v : Node}
      → Reachable env program w
      → receive_step env p r buffer w ≡ some (left, v)
      → Reachable env program v
  accepted :
      (a : Accepted) {goes_on : Bool} {program : Program} {w v : Node}
      → Reachable env program w
      → accept_step env a w ≡ some (goes_on, v)
      → Reachable env program v

memory-Wired : Wired memory
memory-Wired = record { listed = tt; distinct = tt; router = refl; logs = refl }

Reachable-Wired : (env : Env) {program : Program} {w : Node} → Reachable env program w → Wired w
Reachable-Wired env (Reachable.started arguments e) =
    After-ran Wired (start env arguments new memory)
      (start-Leads env arguments new memory memory-Wired) e
Reachable-Wired env (Reachable.rounded {before = before} {w = w} reached e) =
    After-ran Wired (round env before w) (round-Leads env before w (Reachable-Wired env reached)) e
Reachable-Wired env (Reachable.read p r buffer {w = w} reached e) =
    After-ran Wired (receive_step env p r buffer w)
      (IsSteady-Leads Wired (receive_step env p r buffer) (λ w v. Steady-Wired)
        (receive_step-Steady env p r buffer) w (Reachable-Wired env reached))
      e
Reachable-Wired env (Reachable.accepted a {w = w} reached e) =
    After-ran Wired (accept_step env a w) (accept_step-Leads env a w (Reachable-Wired env reached))
      e

-- In the whole life of a Linux node, whatever the arguments and the network and in whatever order its
-- threads take turns: no channel stands in the list twice, each listed channel is an object that
-- exists and that has its receiver, and the buffers of the router and of the logger keep their sizes.
pub Reachable-IsListed :
    (env : Env) (program : Program) (w : Node)
    → Reachable env program w
    → Distinct w.channels
      × All (IsListed w) w.channels
      × (length w.router_buffer ≡ 64)
      × (length w.log_packet ≡ 600)
Reachable-IsListed env program w reached =
    let h = Reachable-Wired env reached in (h.distinct, h.listed, h.router, h.logs)

-- In that life, bytes that arrive at a listed channel and do not fill the buffer of 64 go to the router,
-- and the reading thread goes on, with one exception: less than five bytes that together with what the
-- buffer held before look like a topology packet for a parent (of one of the three forwarding types to
-- a parent) are undefined behaviour, since the decoder gets a length past the end of the buffer.
pub Reachable-receives :
    (env : Env) (program : Program) (w : Node) (p : ℕ) (bytes buffer : List ℕ)
    → Reachable env program w
    → Memᴰ p w.channels
    → length buffer ≡ receive_buffer_size
    → length bytes < receive_buffer_size
    → let size = length bytes in
      let filled = set (overlay 0 bytes buffer) size 0 in
      let r = route_packet env filled size w in
      receive_step env p (Received.chunk bytes) buffer w
      ≡ (if is_cut_report filled size then none else some (some r.0, r.1))
Reachable-receives env program w p bytes buffer reached listed sized room =
    let h = Reachable-Wired env reached in
    receive_step-read env p bytes buffer w sized room
      (All-Memᴰ (IsListed w) w.channels p h.listed listed).1
