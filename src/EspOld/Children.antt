-- ===== src/EspOld/Children.antt =====
-- RemClientCPP/ClientEsp_OLD/ClientEsp_OLD.ino: the children that connect and disconnect.
use respir_mesh.EspOld.State.{Call, EspOld, Libraries, Task, calling, max_ap_clients, ping_fast}
use respir_mesh.Base.{
  ℕ, zero, suc, ◌+◌, ◌-◌, List, [], ◌∷◌, Option, none, some, ◌==◌, ltb, if◌then◌else◌, u8, set,
  get_or,
}

-- "HELO!!!"
abbrev pub helo : List ℕ
helo = 72 ∷ 69 ∷ 76 ∷ 79 ∷ 33 ∷ 33 ∷ 33 ∷ []

module _ (lib : Libraries) where
  unfoldable pub client_connected : ℕ → EspOld → EspOld
  client_connected c s =
      if c == 0
      then s
      else if lib.is_parent c
      then calling
          (Call.set_interval Task.rem_ping_pong ping_fast ∷ Call.restart Task.rem_ping_pong ∷ []) s
      else if ltb s.ch_clients_cnt max_ap_clients
      then calling
          (Call.child_write c helo ∷ Call.child_on_data c ∷ Call.child_on_disconnect c ∷ [])
          (record s {
            ch_clients = set s.ch_clients s.ch_clients_cnt c;
            ch_clients_cnt = u8 (s.ch_clients_cnt + 1);
          })
      else s

abbrev pub later : Option ℕ → Option ℕ
later none = none
later (some i) = some (suc i)

-- The loop that looks for the client, through the whole array.
unfoldable pub index_of : ℕ → List ℕ → Option ℕ
index_of c [] = none
index_of c (x ∷ xs) = if x == c then some 0 else later (index_of c xs)

-- The loop that moves each entry behind one to the front, so many rounds of it.
unfoldable pub shift : ℕ → ℕ → List ℕ → List ℕ
shift zero s xs = xs
shift (suc n) s xs = shift n (suc s) (set xs s (get_or xs (suc s) 0))

-- The body under `chClients[i] == c`. With a count above 6 the inner loop leaves the array.
unfoldable pub remove_child : Option ℕ → EspOld → Option EspOld
unfolding shift
remove_child none s = some s
remove_child (some i) s =
    if ltb max_ap_clients s.ch_clients_cnt
    then none
    else some (record s {
      ch_clients = shift (s.ch_clients_cnt - 1 - i) i s.ch_clients;
      ch_clients_cnt = u8 (s.ch_clients_cnt + 255);
    })

-- The local variable of the first branch shadows `needToConnectToStation` and is never read.
unfoldable pub cliect_disconnected : Libraries → ℕ → EspOld → Option EspOld
unfolding remove_child index_of
cliect_disconnected lib c s =
    remove_child (index_of c s.ch_clients)
      (if lib.is_parent c then calling (Call.soft_ap_disconnect ∷ []) s else s)
