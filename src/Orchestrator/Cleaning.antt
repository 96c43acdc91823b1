-- ===== src/Orchestrator/Cleaning.antt =====
-- `RemOrchestrator::clean_channels` and `add_channel`.
use respir_mesh.Base.{
  ==_iff, ◌==◌, ◌&&◌, ℕ, ◌≡◌, refl, ◌∙◌, ap, Bool, true, false, List, [], ◌∷◌, ◌++◌, none, some,
  arith, length, Bool-cases, inl, inr,
}
use respir_mesh.Wire.Messages.{Severity}
use respir_mesh.Node.Env.{Env, Encodes, Arg}
use respir_mesh.Node.State.{Node, Channel, update}
use respir_mesh.Node.Fault.{>>=-faults, >>-none, pure, fault, modify, gets, ◌>>=◌, ◌>>◌, >>-runs}
use respir_mesh.Channel.{is_ok, ch_id}
use respir_mesh.Router.Selection.{deliveries-ext, deliveries}
use respir_mesh.Logger
use respir_mesh.Logger.{log_packet_size}
use respir_mesh.Logger.Lines.{Fits, line, log_packet_of}
use respir_mesh.Orchestrator.{set_object, add_channel, clean_all, clean_channels, stop_channel}

module _ (env : Env) where
  -- The answers of `is_ok` along the list, each asked in the state that the one before left.
  unfoldable pub all_ok : List ℕ → Node → Bool
  all_ok [] w = true
  all_ok (p ∷ ps) w = let (ok, v) = is_ok env p w in ok && all_ok ps v

  clean_all_faults : (ps : List ℕ) (w : Node) → all_ok ps w ≡ false → clean_all env ps w ≡ none
  unfolding all_ok clean_all
  clean_all_faults [] w h = cc
  clean_all_faults (p ∷ ps) w h =
      let v = (is_ok env p w).1 in
      let deleting = Logger.info env "DELETING CHANNEL  %d  \n" (Arg.num (ch_id p v) ∷ []) in
      elim (Bool-cases (is_ok env p w).0) [
        | inl ok ↦ rw ok (clean_all_faults ps v (rw ok at h))
        | inr bad ↦ rw bad (
            >>-none deleting (stop_channel env p >> fault) v
              (λ u. >>-none (stop_channel env p) fault u (λ t. refl)))
      ]

  -- As soon as one channel of the list is not ok, `clean_channels` is undefined behaviour: it erases
  -- the channel and advances the iterator that the erasure made invalid (or crashes before that).
  pub clean_channels_faults : (w : Node) → all_ok w.channels w ≡ false → clean_channels env w ≡ none
  unfolding clean_channels
  clean_channels_faults w h =
      >>=-faults (clean_all env w.channels)
        (λ _. gets (λ u. length u.channels) >>= λ size.
          Logger.info env "CHs size  %d  \n" (Arg.num size ∷ []) >> pure tt)
        w (clean_all_faults w.channels w h)

-- A write that keeps a member of the object keeps it in every object.
update-field {ℓ} :
    {A : Type ℓ} (field : Channel → A) (objects : ℕ → Channel) (p : ℕ) (c : Channel) (q : ℕ)
    → field c ≡ field (objects p)
    → field (update objects p c q) ≡ field (objects q)
update-field field objects p c q e = elim (Bool-cases (p == q)) [
  | inl same ↦ rw same (e ∙ ap (λ r. field (objects r)) ((==_iff p q).0 same))
  | inr other ↦ rw other
]

ch_id-receiver :
    (p : ℕ) (w : Node)
    → ch_id p (set_object p (record (w.objects p) { has_receiver = true }) w) ≡ ch_id p w
unfolding ch_id
ch_id-receiver p w = ground arith

module _ (env : Env) (enc : Encodes env) (p : ℕ) (w : Node) where
  -- If nanopb keeps its promises and the text fits, `add_channel` returns: the channel has its
  -- receiver, no other object has changed, and it stands at the end of the list, and the log line that says so has gone to the
  -- channels connected to the root that were in the list before.
  pub add_channel_appends :
      length w.log_packet ≡ log_packet_size
      → Fits env "ADDED ch %d  \n" (Arg.num (ch_id p w) ∷ [])
      → (v : Node) × (add_channel env p w ≡ some (tt, v))
        × (v.channels ≡ w.channels ++ p ∷ [])
        × (v.objects ≡ update w.objects p (record (w.objects p) { has_receiver = true }))
        × (v.sent
            ≡ w.sent
              ++ deliveries
                  (λ c. c.connected_to_root)
                  w.objects
                  (log_packet_of env Severity.info "ADDED ch %d  \n" (Arg.num (ch_id p w) ∷ []) w)
                  w.channels)
  unfolding add_channel Logger.info
  add_channel_appends sized fits =
      let c = record (w.objects p) { has_receiver = true } in
      let u = set_object p c w in
      let id : ch_id p u ≡ ch_id p w = ch_id-receiver p w in
      let l =
        line env enc Severity.info "[INFO]" "ADDED ch %d  \n" (Arg.num (ch_id p u) ∷ []) u sized
          (rw id fits) in
      (
        record l.after { channels = l.after.channels ++ p ∷ [] },
        >>-runs (Logger.info env "ADDED ch %d  \n" (Arg.num (ch_id p u) ∷ []))
            (modify (λ v. record v { channels = v.channels ++ p ∷ [] })) u l.runs,
        ap (λ ps. ps ++ p ∷ []) l.kept.channels,
        l.kept.objects,
        l.sent
            ∙ ap (◌++◌ w.sent) (
                deliveries-ext (λ d. d.connected_to_root) u.objects w.objects _ w.channels
                  (λ q. update-field (λ d. d.connected_to_root) w.objects p c q refl)
                  (λ q. update-field (λ d. d.kind) w.objects p c q refl)
                ∙ rw id),
      )
