-- ===== src/X86/Listener.antt =====
-- `on_conn_lost` and `on_conn_start` of RemCppCommon/X86_64/SimpleListChnCtrl.cpp, the one
-- implementation of ConnectionListener.
use respir_mesh.Base.{none, ℕ, Bool, List, [], ◌∷◌, if◌then◌else◌}
use respir_mesh.Node.Env.{Env, Arg}
use respir_mesh.Node.Fault.{M, pure, ◌>>◌}
use respir_mesh.Logger

-- A `bool` handed to `%d`.
abbrev pub flag : Bool → List Arg
flag b = Arg.num (if b then 1 else 0) ∷ []

-- A call through `conn_listener`, a pointer that no constructor sets.
abbrev pub through_listener : ℕ → M (Unit {0}) → M (Unit {0})
through_listener p call w = if (w.objects p).has_listener then call w else none

module _ (env : Env) where
  -- The three lines on the flags of the channel.
  abbrev pub log_flags : ℕ → M (Unit {0})
  log_flags p w =
      (Logger.info env "  %d : connected_to_root " (flag (w.objects p).connected_to_root)
          >> Logger.info env "  %d : is_client " (flag (w.objects p).is_client)
          >> Logger.info env "  %d : is_server " (flag (w.objects p).is_server)
          >> pure tt)
        w

  unfoldable pub on_conn_lost : ℕ → M (Unit {0})
  on_conn_lost p = Logger.info env "  SimpleListChnCtrl::on_conn_lost() " [] >> log_flags p

  unfoldable pub on_conn_start : ℕ → M (Unit {0})
  on_conn_start p = Logger.info env "  SimpleListChnCtrl::on_conn_start() " [] >> log_flags p
