-- ===== src/Handler/Session.antt =====
-- What a handler of src/request_handler.cpp works on: the server's shared state, the connection's
-- `this_client`, and the replies that wait to be written to it. The clock is an argument.
use ogmp_server.Base.{ℕ, suc, Bool, List, [], ◌∷◌, ◌++◌, Option, some}
use ogmp_server.Text.{Str, codes}
use ogmp_server.Reply.{Reply, MessageType, add_message_type, add_string, add_bool}
use ogmp_server.Client.{Client, Uninitialised, new_client}
use ogmp_server.Manager.{Server, write}

pub record Session : Type 0 where
  pub server : Server
  pub open server use *
  pub this_client : Option ℕ
  pub rep : List Reply

unfoldable pub push_reply : Reply → Session → Session
push_reply r s = record s { rep = s.rep ++ r ∷ [] }

-- A call of a method of `client_manager_`.
unfoldable pub on_server : (Server → Server) → Session → Session
on_server f s = record s { server = f s.server }

-- A call of a method of the client in the cell.
unfoldable pub on_client : ℕ → (Client → Client) → Session → Session
on_client p f s = record s { server = record s.server { heap = write p (f (s.heap p)) s.heap } }

-- `log::print`.
unfoldable pub print : Str → Session → Session
print text s = record s { server = record s.server { log = s.log ++ text ∷ [] } }

-- `this_client = boost::make_shared<client>(new_client)`.
unfoldable pub make_client : Uninitialised → Session → Session
make_client u s = record s {
  server = record s.server { heap = write s.next (new_client u) s.heap; next = suc s.next };
  this_client = some s.next;
}

unfoldable pub add_error_message : Str → Session → Session
add_error_message message = push_reply (add_string message (add_message_type MessageType.error []))

-- A chat line from the server.
unfoldable pub server_message : Str → Reply
server_message text =
    add_bool Bool.true
      (add_string text (add_string (codes "server") (add_message_type MessageType.message [])))
