-- ===== src/Handler/Keeps/SignOn.antt =====
-- A sign-on keeps the store of clients: `sign_on` of src/request_handler.cpp.
use ogmp_server.Base.{ℕ, [], ◌∷◌, none, some}
use ogmp_server.Text.{Str}
use ogmp_server.StringMap.{StringMap}
use ogmp_server.Client.{Client}
use ogmp_server.Client.History.Cycle.{IsHistory}
use ogmp_server.Client.Setters.{
  set_level_name, set_level_path, set_username, set_team, set_posx, set_posy, set_posz,
  set_saved_posx, set_saved_posy, set_saved_posz, set_character, set_signed_on,
}
use ogmp_server.Config.{Config}
use ogmp_server.Manager.{get_clients}
use ogmp_server.Handler.Session.{Session, push_reply, add_error_message}
use ogmp_server.Handler.SignOn.{
  SignOnData, fill_client, spawn_others, enter, announce, accept, default_name, is_invalid,
  is_forbidden, is_taken, refuse_invalid, refuse_forbidden, refuse_taken, sign_on,
}
use ogmp_server.Handler.Keeps.{
  Keeps, Keeps-refl, Keeps-trans, Keeps-if, push_reply-Keeps, print-Keeps, on_client-Keeps,
  broadcast-Keeps, add_client-Keeps,
}

fill_client-IsHistory :
    (d : SignOnData) (name : Str) (c : Client) → IsHistory c → IsHistory (fill_client d name c)
unfolding fill_client set_level_name set_level_path set_username set_team set_posx set_posy set_posz
    set_saved_posx set_saved_posy set_saved_posz set_character set_signed_on
fill_client-IsHistory d name c h = record { index = h.index; size = h.size; chain = h.chain }

spawn_others-Keeps : (items : StringMap ℕ) (s : Session) → Keeps s (spawn_others items s)
unfolding spawn_others
spawn_others-Keeps [] s = Keeps-refl s
spawn_others-Keeps ((k, p) ∷ items) s =
    Keeps-trans s _ _ (push_reply-Keeps s _) (spawn_others-Keeps items (push_reply _ s))

accept-Keeps :
    (config : Config) (d : SignOnData) (name : Str) (p : ℕ) (s : Session)
    → Keeps s (accept config d name p s)
unfolding accept enter announce
accept-Keeps config d name p s =
    Keeps-trans s _ _
      (Keeps-trans s _ _
        (Keeps-trans s _ _
          (on_client-Keeps s p (fill_client d name) (fill_client-IsHistory d name (s.heap p)))
          (add_client-Keeps _ p))
        (Keeps-trans _ _ _ (push_reply-Keeps _ _) (spawn_others-Keeps _ _)))
      (Keeps-trans _ _ _ (Keeps-trans _ _ _ (broadcast-Keeps _ _ (some p)) (print-Keeps _ _))
        (broadcast-Keeps _ _ (some p)))

pub sign_on-Keeps :
    (config : Config) (d : SignOnData) (p : ℕ) (s : Session) → Keeps s (sign_on config d p s)
unfolding sign_on refuse_invalid refuse_forbidden refuse_taken add_error_message
sign_on-Keeps config d p s =
    Keeps-if (is_invalid d) s _ _ (Keeps-trans s _ _ (push_reply-Keeps s _) (print-Keeps _ _)) (
      Keeps-if (is_forbidden config d) s _ _ (push_reply-Keeps s _) (
        Keeps-if (is_taken s.heap d.username (get_clients none s.server)) s _ _
          (push_reply-Keeps s _)
          (accept-Keeps config d (default_name config.map_list d.levelpath d.levelname) p s)))
