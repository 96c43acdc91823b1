-- ===== src/EspOld/Lifetime.antt =====
-- The whole life of a node that runs the old sketch.
use respir_mesh.Wire.Assembly.{length-assembled}
use respir_mesh.Wifi.Scan.{generic_pass}
use respir_mesh.Wire.Header.{label, header_size}
use respir_mesh.Wire.Messages.{info_init_default}
use respir_mesh.EspOld.State.{ping_med, Task, Call, EspOld, Libraries, initial, max_ap_clients}
use respir_mesh.EspOld.Children.{client_connected, cliect_disconnected}
use respir_mesh.EspOld.Packets.{
  ping_forwarding, ping_protobuf, data_recv, ensure_parent_connected, pb_buffer_size,
  rem_ping_pong_callback, rem_time_sync_callback, slow_down, want_access_point, write_parent,
}
use respir_mesh.EspOld.Station.{
  connect_when_needed, create_when_needed, esp_set_host, loop, on_station_disconnected,
  on_station_got_ip, setup, wifi_check_callback, wifi_scan_callback,
}
use respir_mesh.EspOld.Quiet.{
  Ends-ran, Quiet, Quiet-refl, Quiet-trans, calling-Quiet, soft_aps, soft_aps-append,
}
use respir_mesh.EspOld.Handlers.{
  resized, cliect_disconnected-Quiet, client_connected-Quiet, connect_when_needed-Quiet,
  ensure_parent_connected-Quiet, on_station_disconnected-Quiet, on_station_got_ip-Quiet,
  wifi_check_callback-Quiet, wifi_scan_callback-Quiet,
}
use respir_mesh.EspOld.Answers.{write_parent-Quiet, data_recv-Quiet, rem_time_sync_callback-Quiet}
use mathlib.Core.Bool.{true≢false}
use respir_mesh.Node.Env.{Env}
use respir_mesh.Wifi.State.{mode_ap_sta, Wifi}
use respir_mesh.Base.{
  Bool-cases, set, overlay, c_string, ◌-◌, [], ◌∷◌, ◌++◌, sym, ◌&&◌, ℕ, ◌+◌, ◌≤◌, List, some, true,
  false, ◌≡◌, ◌↔◌, inl, inr, refl, ◌∙◌, arith, length,
}

-- One call of a function of the sketch that returns: by the Wi-Fi or TCP library, by the scheduler,
-- or of `loop`.
pub data Step : EspOld → EspOld → Type 0 where
  got_ip : (lib : Libraries) (gw : List ℕ) (s : EspOld) → Step s (on_station_got_ip lib gw s)
  lost_station : (s : EspOld) → Step s (on_station_disconnected s)
  joined : (lib : Libraries) (c : ℕ) (s : EspOld) → Step s (client_connected lib c s)
  left : (lib : Libraries) (c : ℕ) {s t : EspOld} → cliect_disconnected lib c s ≡ some t → Step s t
  received :
      (env : Env) (bytes : List ℕ) (len : ℕ) {s t : EspOld}
      → data_recv env bytes len s ≡ some t
      → Step s t
  scanned :
      (lib : Libraries) (wifi : Wifi) (networks_count : ℕ) {s t : EspOld}
      → wifi_scan_callback lib wifi networks_count s ≡ some t
      → Step s t
  checked : (lib : Libraries) (wifi : Wifi) (s : EspOld) → Step s (wifi_check_callback lib wifi s)
  asked_time :
      (env : Env) (lib : Libraries) (s : EspOld) → Step s (rem_time_sync_callback env lib s)
  pinged : (env : Env) (lib : Libraries) (s : EspOld) → Step s (rem_ping_pong_callback env lib s)
  looped : (wifi : Wifi) (s : EspOld) → Step s (loop wifi s)

-- What `setup` and any number of such calls lead to.
pub data Reachable : EspOld → Type 0 where
  set_up : (wifi : Wifi) → Reachable (setup wifi initial)
  stepped : {s t : EspOld} → Reachable s → Step s t → Reachable t

-- Before there is an access point, and from then on.
pub data IsPhase (s : EspOld) : Type 0 where
  before : s.access_point_crated ≡ false → soft_aps s.calls ≡ 0 → IsPhase s
  after :
      s.access_point_crated ≡ true
      → s.need_to_create_access_point ≡ false
      → soft_aps s.calls ≡ 1
      → IsPhase s

pub record IsSound (s : EspOld) : Type 0 where
  pub phase : IsPhase s
  pub buffer : length s.pb_buffer ≡ pb_buffer_size
  pub slots : length s.ch_clients ≡ max_ap_clients

Quiet-IsSound : {s t : EspOld} → Quiet s t → IsSound s → IsSound t
Quiet-IsSound {s} {t} q h = record {
  phase = moved h.phase;
  buffer = q.buffer ∙ h.buffer;
  slots = q.slots ∙ h.slots;
}
  where
    moved : IsPhase s → IsPhase t
    moved (IsPhase.before none_yet count) = IsPhase.before (q.crated ∙ none_yet) (q.started ∙ count)
    moved (IsPhase.after crated need count) =
        IsPhase.after (q.crated ∙ crated) (q.need ∙ need) (q.started ∙ count)

setup-IsSound : (wifi : Wifi) → IsSound (setup wifi initial)
unfolding setup esp_set_host
setup-IsSound wifi = record {
  phase = IsPhase.before refl (omega arith);
  buffer = refl;
  slots = refl;
}

want_access_point-IsSound :
    (lib : Libraries) (s : EspOld) → IsSound s → IsSound (want_access_point lib s)
want_access_point-IsSound lib s h = settle h.phase
  where
    settle : IsPhase s → IsSound (want_access_point lib s)
    settle (IsPhase.before none_yet count) =
        let wanted : IsSound (record s { need_to_create_access_point = true }) = record {
          phase = IsPhase.before none_yet count;
          buffer = h.buffer;
          slots = h.slots;
        } in
        ground (arith, wanted, h)
    settle (IsPhase.after crated need count) = simp crated h

create_when_needed-IsSound : (s : EspOld) → IsSound s → IsSound (create_when_needed s)
unfolding create_when_needed
create_when_needed-IsSound s h = elim (Bool-cases s.need_to_create_access_point) [
  | inr unwanted ↦ simp unwanted h
  | inl wanted ↦ rw wanted (record {
    phase = IsPhase.after refl refl (once wanted h.phase);
    buffer = h.buffer;
    slots = h.slots;
  })
]
  where
    once :
        s.need_to_create_access_point ≡ true
        → IsPhase s
        → soft_aps (
            s.calls
            ++ Call.soft_ap_config s.ap_local_ip s.ap_gateway
              ∷ Call.mode mode_ap_sta
              ∷ Call.soft_ap (c_string (set s.esp_host 4 95)) generic_pass s.chip_wifi_channel
              ∷ [])
          ≡ 1
    once wanted (IsPhase.before none_yet count) = soft_aps-append s.calls _ ∙ omega (arith, count)
    once wanted (IsPhase.after crated need count) = absurd (true≢false (sym wanted ∙ need))

slow_down-Quiet : (lib : Libraries) (s : EspOld) → Quiet s (slow_down lib s)
slow_down-Quiet lib s =
    let slowed = calling-Quiet (Call.set_interval Task.rem_ping_pong ping_med ∷ []) s refl in
    ground (arith, slowed, Quiet-refl s)

rem_ping_pong_callback-IsSound :
    (env : Env) (lib : Libraries) (s : EspOld)
    → IsSound s
    → IsSound (rem_ping_pong_callback env lib s)
unfolding rem_ping_pong_callback
rem_ping_pong_callback-IsSound env lib s h =
    let t = ensure_parent_connected lib s in
    let message = record info_init_default {
      source_id = env.device_id;
      kind = ping_protobuf lib;
    } in
    let encoded = env.encode_info message (pb_buffer_size - header_size) in
    let size = length encoded.bytes + header_size in
    let u = record t {
      pb_buffer =
          overlay header_size encoded.bytes
            (label (ping_forwarding lib) (ping_protobuf lib) t.pb_buffer);
    } in
    let filled : Quiet s u =
      resized (ensure_parent_connected-Quiet lib s) u.pb_buffer
        (length-assembled (ping_forwarding lib) (ping_protobuf lib) encoded.bytes t.pb_buffer) in
    let slowed =
      Quiet-trans (write_parent-Quiet size s u filled)
        (slow_down-Quiet lib (write_parent size u)) in
    let sent = want_access_point-IsSound lib _ (Quiet-IsSound slowed h) in
    elim (Bool-cases encoded.status) [
      | inl good ↦ rw good sent
      | inr bad ↦ rw bad (Quiet-IsSound filled h)
    ]

Step-IsSound : {s t : EspOld} → Step s t → IsSound s → IsSound t
unfolding loop
Step-IsSound (Step.got_ip lib gw s) h = Quiet-IsSound (on_station_got_ip-Quiet lib gw s) h
Step-IsSound (Step.lost_station s) h = Quiet-IsSound (on_station_disconnected-Quiet s) h
Step-IsSound (Step.joined lib c s) h = Quiet-IsSound (client_connected-Quiet lib c s) h
Step-IsSound {s} {t} (Step.left lib c e) h =
    Quiet-IsSound
      (Ends-ran (Quiet s) (cliect_disconnected lib c s) t (cliect_disconnected-Quiet lib c s) e) h
Step-IsSound {s} {t} (Step.received env bytes len e) h =
    Quiet-IsSound
      (Ends-ran (Quiet s) (data_recv env bytes len s) t (data_recv-Quiet env bytes len s) e) h
Step-IsSound {s} {t} (Step.scanned lib wifi n e) h =
    Quiet-IsSound
      (Ends-ran (Quiet s) (wifi_scan_callback lib wifi n s) t
        (wifi_scan_callback-Quiet lib wifi n s) e)
      h
Step-IsSound (Step.checked lib wifi s) h = Quiet-IsSound (wifi_check_callback-Quiet lib wifi s) h
Step-IsSound (Step.asked_time env lib s) h =
    Quiet-IsSound (rem_time_sync_callback-Quiet env lib s) h
Step-IsSound (Step.pinged env lib s) h = rem_ping_pong_callback-IsSound env lib s h
Step-IsSound (Step.looped wifi s) h =
    create_when_needed-IsSound (connect_when_needed wifi s)
      (Quiet-IsSound (connect_when_needed-Quiet wifi s) h)

pub Reachable-IsSound : {s : EspOld} → Reachable s → IsSound s
Reachable-IsSound (Reachable.set_up wifi) = setup-IsSound wifi
Reachable-IsSound (Reachable.stepped reached step) = Step-IsSound step (Reachable-IsSound reached)

counted :
    (s : EspOld)
    → IsPhase s
    → (soft_aps s.calls ≤ 1)
      × ((soft_aps s.calls ≡ 1) ↔ (s.access_point_crated ≡ true))
      × ((s.access_point_crated && s.need_to_create_access_point) ≡ false)
counted s (IsPhase.before none_yet count) = (
  omega arith,
  (λ e. absurd (omega arith), λ e. absurd (true≢false (sym e ∙ none_yet))),
  rw none_yet refl,
)
counted s (IsPhase.after crated need count) =
    (omega arith, (λ e. crated, λ e. count), rw (crated, need) refl)

-- Whatever calls come in whatever order, and whatever the libraries answer: the old sketch starts
-- its access point at most once, it has done so exactly when the flag says so, and then it is not
-- asked for again; the send buffer keeps its 64 bytes and the array of the children its 6 entries.
pub Reachable-soft_aps :
    (s : EspOld)
    → Reachable s
    → (soft_aps s.calls ≤ 1)
      × ((soft_aps s.calls ≡ 1) ↔ (s.access_point_crated ≡ true))
      × ((s.access_point_crated && s.need_to_create_access_point) ≡ false)
      × (length s.pb_buffer ≡ pb_buffer_size)
      × (length s.ch_clients ≡ max_ap_clients)
Reachable-soft_aps s reached =
    let sound = Reachable-IsSound reached in
    let p = counted s sound.phase in (p.0, p.1, p.2, sound.buffer, sound.slots)
