-- ===== src/EspOld/Handlers.antt =====
-- The functions of the old sketch that leave the access point alone, one by one.
use respir_mesh.Wifi.Scan.{unset_ap}
use respir_mesh.Wire.Assembly.{length-assembled}
use respir_mesh.EspOld.State.{
  max_ap_clients, check_slow, ping_fast, Task, Call, EspOld, Libraries, calling,
}
use respir_mesh.EspOld.Children.{
  client_connected, cliect_disconnected, helo, index_of, remove_child, shift,
}
use respir_mesh.EspOld.Packets.{ensure_parent_connected}
use respir_mesh.EspOld.Station.{
  ssid_to_pass, sort_aps, after_loop, choose_gateway, collect_ap, connect_when_needed,
  on_station_disconnected, on_station_got_ip, reset_indexed_valid_aps, wifi_check_callback,
  wifi_scan_callback,
}
use respir_mesh.EspOld.Quiet.{
  Ends, Quiet, Quiet-refl, Quiet-trans, and_then-Ends, calling-Quiet, for_u8-Quiet, if-Ends,
}
use respir_mesh.EspOld.Shifting.{length-shift}
use respir_mesh.Wire.Header.{header_size, label}
use respir_mesh.Wifi.State.{Wifi}
use respir_mesh.Base.{
  false, get_or, for_u8, u16, if◌then◌else◌, true, ltb, ◌+◌, u8, set, arith, ◌-◌, ℕ, List, [], ◌∷◌,
  Option, none, some, ◌≡◌, refl, ◌∙◌, length, length-set, overlay,
}

-- A change of what neither the access point nor the sizes depend on, behind a quiet step.
abbrev pub resized :
    {s t : EspOld}
    → Quiet s t
    → (bytes : List ℕ) → length bytes ≡ length t.pb_buffer
    → Quiet s (record t { pb_buffer = bytes })
resized q bytes e = record {
  crated = q.crated;
  need = q.need;
  started = q.started;
  buffer = e ∙ q.buffer;
  slots = q.slots;
}

pub length-labelled :
    (forwarding protobuf : ℕ) (body buffer : List ℕ)
    → length (overlay header_size body (label forwarding protobuf buffer)) ≡ length buffer
length-labelled forwarding protobuf body buffer = length-assembled forwarding protobuf body buffer

module _ (lib : Libraries) where
  pub ensure_parent_connected-Quiet : (s : EspOld) → Quiet s (ensure_parent_connected lib s)
  unfolding ensure_parent_connected
  ensure_parent_connected-Quiet s =
      ground
        (arith, Quiet-refl s, calling-Quiet (Call.parent_connect s.parent_server_ip ∷ []) s refl)

  pub client_connected-Quiet : (c : ℕ) (s : EspOld) → Quiet s (client_connected lib c s)
  unfolding client_connected
  client_connected-Quiet c s =
      let added =
        Call.child_write c helo ∷ Call.child_on_data c ∷ Call.child_on_disconnect c ∷ [] in
      let taken : Quiet s (
          calling added (record s {
            ch_clients = set s.ch_clients s.ch_clients_cnt c;
            ch_clients_cnt = u8 (s.ch_clients_cnt + 1);
          })) =
        record {
          crated = refl;
          need = refl;
          started = (calling-Quiet added s refl).started;
          buffer = refl;
          slots = length-set s.ch_clients s.ch_clients_cnt c;
        } in
      let parent =
        calling-Quiet
          (Call.set_interval Task.rem_ping_pong ping_fast ∷ Call.restart Task.rem_ping_pong ∷ []) s
          refl in
      ground (arith, Quiet-refl s, taken, parent)

  remove_child-Quiet :
      (found : Option ℕ) (s t : EspOld) → Quiet s t → Ends (Quiet s) (remove_child found t)
  unfolding remove_child
  remove_child-Quiet none s t q = q
  remove_child-Quiet (some i) s t q =
      let shifted : Quiet s (record t {
        ch_clients = shift (t.ch_clients_cnt - 1 - i) i t.ch_clients;
        ch_clients_cnt = u8 (t.ch_clients_cnt + 255);
      }) =
        record {
          crated = q.crated;
          need = q.need;
          started = q.started;
          buffer = q.buffer;
          slots = length-shift (t.ch_clients_cnt - 1 - i) i t.ch_clients ∙ q.slots;
        } in
      if-Ends (Quiet s) (ltb max_ap_clients t.ch_clients_cnt) none (some _) tt shifted

  pub cliect_disconnected-Quiet :
      (c : ℕ) (s : EspOld) → Ends (Quiet s) (cliect_disconnected lib c s)
  unfolding cliect_disconnected
  cliect_disconnected-Quiet c s =
      remove_child-Quiet (index_of c s.ch_clients) s
        (if lib.is_parent c then calling (Call.soft_ap_disconnect ∷ []) s else s)
        (ground (arith, Quiet-refl s, calling-Quiet (Call.soft_ap_disconnect ∷ []) s refl))

  pub on_station_got_ip-Quiet : (gw : List ℕ) (s : EspOld) → Quiet s (on_station_got_ip lib gw s)
  unfolding on_station_got_ip
  on_station_got_ip-Quiet gw s =
      let cs =
        Call.set_interval Task.wifi_check check_slow
        ∷ Call.set_interval Task.rem_ping_pong ping_fast
        ∷ Call.enable Task.rem_ping_pong
        ∷ [] in
      let chosen : Quiet s (choose_gateway lib gw s) =
        ground (arith, chosen_root s, chosen_other s) in
      let q = Quiet-trans chosen (calling-Quiet cs (choose_gateway lib gw s) refl) in
      record {
        crated = q.crated;
        need = q.need;
        started = q.started;
        buffer = q.buffer;
        slots = q.slots;
      }
    where
      chosen_root :
          (s : EspOld)
          → Quiet s (record s {
            gateway = lib.server_ip;
            parent_server_ip = lib.server_ip;
            is_level_r1 = true;
          })
      chosen_root s = record {
        crated = refl;
        need = refl;
        started = refl;
        buffer = refl;
        slots = refl;
      }

      chosen_other : (s : EspOld) → Quiet s (record s { gateway = gw; parent_server_ip = gw })
      chosen_other s = record {
        crated = refl;
        need = refl;
        started = refl;
        buffer = refl;
        slots = refl;
      }

pub on_station_disconnected-Quiet : (s : EspOld) → Quiet s (on_station_disconnected s)
unfolding on_station_disconnected
on_station_disconnected-Quiet s = calling-Quiet _ s refl

module _ (lib : Libraries) (wifi : Wifi) where
  collect_ap-Quiet : (i : ℕ) (s : EspOld) → Quiet s (collect_ap wifi i s)
  unfolding collect_ap
  collect_ap-Quiet i s =
      let kept : Quiet s (record s {
        sorted_valid_aps =
            set s.sorted_valid_aps s.valid_aps_count (record { net_index = i; rssi = wifi.rssi i });
        valid_aps_count = s.valid_aps_count + 1;
      }) =
        record { crated = refl; need = refl; started = refl; buffer = refl; slots = refl } in
      ground (arith, kept, Quiet-refl s)

  after_loop-Quiet : (s t : EspOld) → Quiet s t → Quiet s (after_loop lib wifi t)
  after_loop-Quiet s t q =
      let sorted : Quiet s (sort_aps wifi t) = record {
        crated = q.crated;
        need = q.need;
        started = q.started;
        buffer = q.buffer;
        slots = q.slots;
      } in
      let asked : Quiet s (record (sort_aps wifi t) { need_to_connect_to_station = true }) =
        record {
          crated = q.crated;
          need = q.need;
          started = q.started;
          buffer = q.buffer;
          slots = q.slots;
        } in
      ground (arith, sorted, asked, q)

  pub wifi_scan_callback-Quiet :
      (n : ℕ) (s : EspOld) → Ends (Quiet s) (wifi_scan_callback lib wifi n s)
  unfolding wifi_scan_callback reset_indexed_valid_aps
  wifi_scan_callback-Quiet n s =
      and_then-Ends (Quiet s) (Quiet s)
        (for_u8 256 0 n (collect_ap wifi) (reset_indexed_valid_aps s))
        (λ t. some (after_loop lib wifi t))
        (for_u8-Quiet 256 0 n (collect_ap wifi) s (reset_indexed_valid_aps s) collect_ap-Quiet
          (record { crated = refl; need = refl; started = refl; buffer = refl; slots = refl }))
        (after_loop-Quiet s)

  pub wifi_check_callback-Quiet : (s : EspOld) → Quiet s (wifi_check_callback lib wifi s)
  unfolding wifi_check_callback
  wifi_check_callback-Quiet s =
      let both = calling-Quiet (Call.enable_sta ∷ Call.scan_networks ∷ []) s refl in
      let one = calling-Quiet (Call.scan_networks ∷ []) s refl in
      ground (arith, both, one, Quiet-refl s)

pub connect_when_needed-Quiet : (wifi : Wifi) (s : EspOld) → Quiet s (connect_when_needed wifi s)
unfolding connect_when_needed
connect_when_needed-Quiet wifi s =
    let index = (get_or s.sorted_valid_aps 0 unset_ap).net_index in
    let channel = u16 (wifi.channel index) in
    let cs = Call.connect (wifi.ssid index) (ssid_to_pass wifi (wifi.ssid index)) channel ∷ [] in
    let connected : Quiet s (
        calling cs (record s { chip_wifi_channel = channel; need_to_connect_to_station = false })) =
      record {
        crated = refl;
        need = refl;
        started = (calling-Quiet cs s refl).started;
        buffer = refl;
        slots = refl;
      } in
    ground (arith, connected, Quiet-refl s)
