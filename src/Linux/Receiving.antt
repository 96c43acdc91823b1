-- ===== src/Linux/Receiving.antt =====
-- A round of the reading thread of a Linux node.
use respir_mesh.Linux.Wired.{IsSteady, IsSteady->>=, Steady, if-Leads}
use respir_mesh.Linux.Steady.{receive_fn-Steady}
use respir_mesh.Linux.Logging.{error-Steady}
use respir_mesh.Logger
use respir_mesh.Node.Env.{Env}
use respir_mesh.Node.Fault.{M, ◌>>=◌, ◌>>◌, fault, modify, pure}
use respir_mesh.Orchestrator.{stop_channel}
use respir_mesh.X86.Client.{receive_buffer_size, received, Received, receive_step, set_managed}
use respir_mesh.X86.Listener.{on_conn_lost, through_listener}
use respir_mesh.Base.{
  if◌then◌else◌, Bool, Option, overlay, set, ltb, ℕ, List, [], true, false, none, some, length, inl,
  inr, Bool-cases,
}
use respir_mesh.Linux.Channels.{
  IsSteady->>, set_managed-Steady, through_listener-Steady, on_conn_lost-Steady,
  stop_channel-Steady,
}

module _ (env : Env) where
  received-Steady : (p : ℕ) (buffer : List ℕ) (size : ℕ) → IsSteady (received env p buffer size)
  received-Steady p buffer size u w s = elim (Bool-cases (w.objects p).has_receiver) [
    | inl set ↦ rw set (receive_fn-Steady env buffer size u w s)
    | inr unset ↦ rw unset tt
  ]

  pub receive_step-Steady :
      (p : ℕ) (r : Received) (buffer : List ℕ) → IsSteady (receive_step env p r buffer)
  unfolding receive_step
  receive_step-Steady p Received.closed buffer =
      let say =
        Logger.error env " X86LinuxClientChannel :       void receive_loop() STOPPED the socket "
          [] in
      let over : M (Option (List ℕ)) = pure none in
      let lost = through_listener p (on_conn_lost env p) >> over in
      let caught = modify (set_managed p false) >> over in
      let next = λ (stopped : Bool). if stopped then lost else caught in
      let lost-Steady : IsSteady lost =
        IsSteady->> (through_listener p (on_conn_lost env p)) over
          (through_listener-Steady p (on_conn_lost env p) (on_conn_lost-Steady env p))
          (λ u w s. s) in
      let caught-Steady : IsSteady caught =
        IsSteady->> (modify (set_managed p false)) over (set_managed-Steady p false) (λ u w s. s) in
      IsSteady->> (modify (set_managed p false)) (say >> (stop_channel env p >>= next))
        (set_managed-Steady p false)
        (IsSteady->> say (stop_channel env p >>= next) (error-Steady env _ []) (
          IsSteady->>= (stop_channel env p) next (stop_channel-Steady env p) (λ stopped.
            elim stopped as (λ k. IsSteady (next k)) [
              | true ↦ lost-Steady
              | false ↦ caught-Steady
            ])))
  receive_step-Steady p Received.nothing buffer = λ u w s. s
  receive_step-Steady p Received.failed buffer =
      let over : M (Option (List ℕ)) = pure none in
      IsSteady->> (modify (set_managed p false)) over (set_managed-Steady p false) (λ u w s. s)
  receive_step-Steady p (Received.chunk bytes) buffer = λ u.
      if-Leads (Steady u) (Steady u) (ltb (length bytes) receive_buffer_size)
        (received env p (set (overlay 0 bytes buffer) (length bytes) 0) (length bytes) >>= λ left.
          pure (some left))
        fault
        (IsSteady->>=
          (received env p (set (overlay 0 bytes buffer) (length bytes) 0) (length bytes))
          (λ left. pure (some left))
          (received-Steady p (set (overlay 0 bytes buffer) (length bytes) 0) (length bytes))
          (λ left u w s. s) u)
        (λ w s. tt)
