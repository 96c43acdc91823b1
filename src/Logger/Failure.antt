-- ===== src/Logger/Failure.antt =====
-- How a logging call fails: a text that does not fit the message.
use Prim.Native.String.{String}
use respir_mesh.Base.{ℕ, zero, suc, ◌≤◌, ◌≡◌, refl, List, none, arith, length}
use respir_mesh.Wire.Messages.{Severity, message_size}
use respir_mesh.Node.Env.{Env, Arg}
use respir_mesh.Node.State.{Node}
use respir_mesh.Logger.{logger}
use respir_mesh.Logger.Delivery.{log_text}

module _ (env : Env) (severity : Severity) (tags format : String) (args : List Arg) where
  -- A log text of 250 characters or more, which `log_buffer` holds, is copied past the end of the
  -- 250 bytes of `message`: the call is undefined behaviour, whatever room the stack has.
  pub logger_overflow :
      (depth : ℕ) (w : Node)
      → message_size ≤ length (log_text env format args)
      → logger env depth severity tags format args w ≡ none
  unfolding logger
  logger_overflow zero w long = refl
  logger_overflow (suc depth) w long = ground arith
