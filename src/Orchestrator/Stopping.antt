-- ===== src/Orchestrator/Stopping.antt =====
-- `RemOrchestrator::stop` reaches every channel.
use respir_mesh.Base.{
  inr, inl, ◌⊎◌, ℕ, ◌≡◌, refl, ◌∙◌, Bool, true, false, List, [], ◌∷◌, some, arith, length,
  if◌then◌else◌,
}
use mathlib.Core.Path.{subst}
use respir_mesh.Wire.Messages.{Severity}
use respir_mesh.Node.Env.{Env, Encodes, Arg}
use respir_mesh.Node.State.{Node, Channel, ChannelKind}
use respir_mesh.Node.Fault.{>>=-runs, fault, gets, pure, >>-runs, M, ◌>>=◌}
use respir_mesh.Channel.{ch_id}
use respir_mesh.Logger
use respir_mesh.Logger.{log_packet_size}
use respir_mesh.Logger.Delivery.{Logged}
use respir_mesh.Logger.Lines.{Fits, line}
use respir_mesh.Orchestrator.{stop_as, stop_channel, stop_all, stop, shut, shut_socket}

-- Which sockets `stop` of a channel closes: that of a connected X86_64 client, and that of an
-- X86_64 server.
abbrev pub owns_socket : ChannelKind → Bool → Bool
owns_socket ChannelKind.x86_client connected = connected
owns_socket ChannelKind.x86_server connected = true
owns_socket ChannelKind.esp_client connected = false
owns_socket ChannelKind.esp_server connected = false

abbrev pub IsStopped : Channel → Type 0
IsStopped c = owns_socket c.kind c.is_connected ≡ true → c.shut ≡ true

-- Stopping channels changes no list, no class and no connection, and opens no socket again.
pub record Stops (w v : Node) : Type 0 where
  pub channels : v.channels ≡ w.channels
  pub log_size : length v.log_packet ≡ length w.log_packet
  pub kind : (q : ℕ) → (v.objects q).kind ≡ (w.objects q).kind
  pub is_connected : (q : ℕ) → (v.objects q).is_connected ≡ (w.objects q).is_connected
  pub shut : (q : ℕ) → (w.objects q).shut ≡ true → (v.objects q).shut ≡ true

Stops-refl : (w : Node) → Stops w w
Stops-refl w = record {
  channels = refl;
  log_size = refl;
  kind = λ q. refl;
  is_connected = λ q. refl;
  shut = λ q h. h;
}

Stops-trans : {u v w : Node} → Stops u v → Stops v w → Stops u w
Stops-trans a b = record {
  channels = b.channels ∙ a.channels;
  log_size = b.log_size ∙ a.log_size;
  kind = λ q. b.kind q ∙ a.kind q;
  is_connected = λ q. b.is_connected q ∙ a.is_connected q;
  shut = λ q h. b.shut q (a.shut q h);
}

Stops-of_Logged : {w v : Node} → Logged w v → Stops w v
Stops-of_Logged l = record {
  channels = l.channels;
  log_size = l.log_size;
  kind = λ q. rw l.objects;
  is_connected = λ q. rw l.objects;
  shut = λ q h. rw l.objects h;
}

shut-Stops : (p : ℕ) (w : Node) → Stops w (shut p w)
shut-Stops p w = record {
  channels = refl;
  log_size = refl;
  kind = λ q. ground arith;
  is_connected = λ q. ground arith;
  shut = λ q h. ground arith;
}

-- The texts that `stop` logs.
pub record StopTexts (env : Env) : Type 0 where
  pub first : Fits env "RemOrchestrator::stop() \n" []
  pub each : (n : ℕ) → Fits env "STOPPING CHANNEL  %u  \n" (Arg.num n ∷ [])
  pub x86_client : Fits env "X86LinuxClientChannel::stop \n" []
  pub x86_server : Fits env "X86LinuxServerChannel::stop \n" []
  pub esp : Fits env "Local TCP exiting \n" []

close-Stops : (p : ℕ) (w : Node) → Stops w (if (w.objects p).is_connected then shut p w else w)
close-Stops p w = record {
  channels = ground arith;
  log_size = ground arith;
  kind = λ q. ground arith;
  is_connected = λ q. ground arith;
  shut = λ q h. ground arith;
}

close-IsStopped :
    (p : ℕ) (w : Node)
    → (w.objects p).kind ≡ ChannelKind.x86_client
    → IsStopped ((if (w.objects p).is_connected then shut p w else w).objects p)
close-IsStopped p w e = λ h. ground arith

no_socket :
    (c : Channel)
    → (c.kind ≡ ChannelKind.esp_client) ⊎ (c.kind ≡ ChannelKind.esp_server)
    → IsStopped c
no_socket c e = λ h. ground arith

IsStopped-Stops :
    (p : ℕ) {w v : Node} → Stops w v → IsStopped (w.objects p) → IsStopped (v.objects p)
IsStopped-Stops p s stopped = λ h. s.shut p (stopped (rw (s.kind p, s.is_connected p) at h))

-- Every channel of the list is stopped.
abbrev pub AllStopped : (ℕ → Channel) → List ℕ → Type 0
AllStopped objects [] = Unit {0}
AllStopped objects (p ∷ ps) = IsStopped (objects p) × AllStopped objects ps

module _ (env : Env) (enc : Encodes env) (texts : StopTexts env)
    (shuts : (n : ℕ) → env.shuts_down n ≡ true) where
  close-runs :
      (connected : Bool) (p : ℕ) (w : Node)
      → (if connected then shut_socket env p else pure true) w
        ≡ some (true, if connected then shut p w else w)
  close-runs true p w = rw (shuts w.calls) refl
  close-runs false p w = refl

  -- A run of `stop` on one channel that returns with the channel stopped.
  abbrev Ran : M Bool → ℕ → Node → Type 0
  Ran m p w = (v : Node) × (m w ≡ some (true, v)) × Stops w v × IsStopped (v.objects p)

  stop_as-Ran :
      (k : ChannelKind) (p : ℕ) (w : Node)
      → (w.objects p).kind ≡ k
      → length w.log_packet ≡ log_packet_size
      → Ran (stop_as env k p) p w
  unfolding Logger.info
  stop_as-Ran ChannelKind.x86_client p w e sized =
      let l =
        line env enc Severity.info "[INFO]" "X86LinuxClientChannel::stop \n" [] w sized
          texts.x86_client in
      let close : M Bool = gets (λ u. (u.objects p).is_connected) >>= λ connected.
      if connected then shut_socket env p else pure true in
      (
        (if (l.after.objects p).is_connected then shut p l.after else l.after),
        >>-runs (Logger.info env "X86LinuxClientChannel::stop \n" []) close w l.runs
            ∙ close-runs (l.after.objects p).is_connected p l.after,
        Stops-trans (Stops-of_Logged l.kept) (close-Stops p l.after),
        close-IsStopped p l.after (rw l.kept.objects e),
      )
  stop_as-Ran ChannelKind.x86_server p w e sized =
      let l =
        line env enc Severity.info "[INFO]" "X86LinuxServerChannel::stop \n" [] w sized
          texts.x86_server in
      (
        shut p l.after,
        >>-runs (Logger.info env "X86LinuxServerChannel::stop \n" []) (shut_socket env p) w l.runs
            ∙ rw (shuts l.after.calls) refl,
        Stops-trans (Stops-of_Logged l.kept) (shut-Stops p l.after),
        λ h. ground arith,
      )
  stop_as-Ran ChannelKind.esp_client p w e sized =
      let l = line env enc Severity.info "[INFO]" "Local TCP exiting \n" [] w sized texts.esp in
      (
        l.after,
        >>-runs (Logger.info env "Local TCP exiting \n" []) (pure true) w l.runs,
        Stops-of_Logged l.kept,
        no_socket (l.after.objects p) (inl (rw l.kept.objects e)),
      )
  stop_as-Ran ChannelKind.esp_server p w e sized =
      let l = line env enc Severity.info "[INFO]" "Local TCP exiting \n" [] w sized texts.esp in
      (
        l.after,
        >>-runs (Logger.info env "Local TCP exiting \n" []) (pure true) w l.runs,
        Stops-of_Logged l.kept,
        no_socket (l.after.objects p) (inr (rw l.kept.objects e)),
      )

  stop_channel-Ran :
      (p : ℕ) (w : Node) → length w.log_packet ≡ log_packet_size → Ran (stop_channel env p) p w
  unfolding stop_channel
  stop_channel-Ran p w sized = stop_as-Ran (w.objects p).kind p w refl sized

  stop_all-runs :
      (ps : List ℕ) (w : Node)
      → length w.log_packet ≡ log_packet_size
      → (v : Node) × (stop_all env ps w ≡ some (tt, v)) × Stops w v × AllStopped v.objects ps
  unfolding stop_all Logger.warn
  stop_all-runs [] w sized = (w, refl, Stops-refl w, tt)
  stop_all-runs (p ∷ ps) w sized =
      let args = Arg.num (ch_id p w) ∷ [] in
      let l =
        line env enc Severity.warning "[WARN]" "STOPPING CHANNEL  %u  \n" args w sized
          (texts.each (ch_id p w)) in
      let s = stop_channel-Ran p l.after (l.kept.log_size ∙ sized) in
      let r = stop_all-runs ps s.0 (s.2.log_size ∙ l.kept.log_size ∙ sized) in
      (
        r.0,
        >>-runs (Logger.warn env "STOPPING CHANNEL  %u  \n" args)
              (stop_channel env p >>= λ stopped. if stopped then stop_all env ps else fault) w
              l.runs
            ∙ >>=-runs (stop_channel env p) (λ stopped. if stopped then stop_all env ps else fault)
                l.after s.1
            ∙ r.1,
        Stops-trans (Stops-of_Logged l.kept) (Stops-trans s.2 r.2),
        (IsStopped-Stops p r.2 s.3, r.3),
      )

  -- If nanopb keeps its promises, the texts that `stop` logs fit the message and no `shutdown` and no
  -- `destroy` of a socket throws, `stop` returns with
  -- every channel of the list stopped: each connected X86_64 client and each X86_64 server has its
  -- socket shut. The list itself keeps all its channels.
  pub stop_stops_all :
      (w : Node)
      → length w.log_packet ≡ log_packet_size
      → (v : Node) × (stop env w ≡ some (tt, v))
        × AllStopped v.objects w.channels
        × (v.channels ≡ w.channels)
  unfolding stop Logger.warn
  stop_stops_all w sized =
      let l =
        line env enc Severity.warning "[WARN]" "RemOrchestrator::stop() \n" [] w sized
          texts.first in
      let r = stop_all-runs l.after.channels l.after (l.kept.log_size ∙ sized) in
      (
        r.0,
        >>-runs (Logger.warn env "RemOrchestrator::stop() \n" [])
              (gets (λ u. u.channels) >>= stop_all env) w l.runs
            ∙ r.1,
        subst (AllStopped r.0.objects) l.kept.channels r.3,
        r.2.channels ∙ l.kept.channels,
      )
